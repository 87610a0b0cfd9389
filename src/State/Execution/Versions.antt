-- ===== src/State/Execution/Versions.antt =====
-- state/convert.go: how the versions of a spork treat the counts of service events.
use rosetta.Shared.{
  ℕ, ◌*◌, ◌/◌, ◌%◌, ◌^◌, ◌≤◌, ◌<◌, ◌≡◌, refl, subst, ap, sym, ◌∙◌, bit_and, ltb, true, Option, none,
  some, List, [], ◌∷◌, Bytes, ◌==◌, ==_iff, ◌&&◌, if◌then◌else◌, leb, arith, Bool-cases, inl, inr,
  some_inj, >>=-eq-some,
}
use rosetta.Shared.Bits.{halves, bit_and-mask, bit_and-shift}
use rosetta.Shared.Results.{Result, ok, crash}
use rosetta.State.Events.{Abort}
use rosetta.State.Flow.{Flow, Entity}
use rosetta.State.Execution.{
  ProtoChunk, ProtoResult, FlowChunk, FlowExecutionResult, count_of, convert_chunk, convert_chunks,
  convert_execution_result, convert_service_events, chunks_to_v8, counts_left_out,
  derive_execution_result, chunk_with, result_entity, derive_execution_result_v1,
  derive_execution_result_v2, derive_execution_result_v7, derive_execution_result_v8,
}

-- The high half of a 32-bit count.
high_half : (n : ℕ) → n < 2 ^ 32 → bit_and n 4294901760 ≡ n / 2 ^ 16 * 2 ^ 16
high_half n lt = bit_and-shift 16 n 65535 ∙ omega (arith, bit_and-mask 16 (halves 16 n))

-- For a count below 2^32: in version 7 one below 2^16 is kept and any other is left out; in version 8
-- one below 2^16 is kept and any other is an error; in versions up to 6 none is kept.
pub count_of_exact :
    (version n : ℕ)
    → version ≤ 6
    → n < 2 ^ 32
    → (count_of 7 n ≡ some (if ltb n (2 ^ 16) then some n else none))
      × (count_of 8 n ≡ (if ltb n (2 ^ 16) then some (some n) else none))
      × (count_of version n ≡ some none)
unfolding count_of
count_of_exact version n old lt =
    let high = high_half n lt in (ground (arith, high), ground arith, ground arith)

-- Every count has a high bit set.
abbrev pub AreHigh : List ProtoChunk → Type 0
AreHigh [] = Unit {0}
AreHigh (c ∷ cs) = (c.service_event_count < 2 ^ 32) × (2 ^ 16 ≤ c.service_event_count) × AreHigh cs

-- Every count is kept, or none is.
abbrev AreCounted : List FlowChunk → Type 0
AreCounted [] = Unit {0}
AreCounted (c ∷ cs) = ((n : ℕ) × (c.service_event_count ≡ some n)) × AreCounted cs

abbrev AreUncounted : List FlowChunk → Type 0
AreUncounted [] = Unit {0}
AreUncounted (c ∷ cs) = (c.service_event_count ≡ none) × AreUncounted cs

module _ (f : Flow) where
  convert_chunk-count :
      (version : ℕ) (c : ProtoChunk) {chunk : FlowChunk}
      → convert_chunk f version c ≡ some chunk
      → count_of version c.service_event_count ≡ some chunk.service_event_count
  unfolding convert_chunk
  convert_chunk-count version c e =
      let (s, e1, r1) = >>=-eq-some (f.to_state_commitment c.start_state) _ e in
      let (t, e2, r2) = >>=-eq-some (f.to_state_commitment c.end_state) _ r1 in
      let (n, e3, r3) = >>=-eq-some (count_of version c.service_event_count) _ r2 in
      e3 ∙ ap (λ (k : FlowChunk). some k.service_event_count) (some_inj r3)

  count_of_eight : (n : ℕ) (o : Option ℕ) → count_of 8 n ≡ some o → (k : ℕ) × (o ≡ some k)
  unfolding count_of
  count_of_eight n o e = elim (Bool-cases (ltb 65535 n)) [
    | inl high ↦ let run : count_of 8 n ≡ none = rw high in let clash = sym run ∙ e in cc
    | inr low ↦
        let run : count_of 8 n ≡ some (some (n % 2 ^ 16)) = rw low in
        (n % 2 ^ 16, sym (some_inj (sym run ∙ e)))
  ]

  convert_chunks-AreCounted :
      (cs : List ProtoChunk) {chunks : List FlowChunk}
      → convert_chunks f 8 cs ≡ some chunks
      → AreCounted chunks
  unfolding convert_chunks
  convert_chunks-AreCounted [] e = subst AreCounted (some_inj e) tt
  convert_chunks-AreCounted (c ∷ cs) e =
      let (chunk, e1, r1) = >>=-eq-some (convert_chunk f 8 c) _ e in
      let (chunks, e2, r2) = >>=-eq-some (convert_chunks f 8 cs) _ r1 in
      subst AreCounted (some_inj r2) (
        count_of_eight c.service_event_count _ (convert_chunk-count 8 c e1),
        convert_chunks-AreCounted cs e2,
      )

  chunks_to_v8-ok : (cs : List FlowChunk) → AreCounted cs → (x : Entity) × (chunks_to_v8 cs ≡ ok x)
  unfolding chunks_to_v8
  chunks_to_v8-ok [] v = (_, refl)
  chunks_to_v8-ok (c ∷ cs) ((n, e), v) =
      let (x, r) = chunks_to_v8-ok cs v in
      (Entity.entry (chunk_with (Entity.num n) c) x, rw (e, r) refl)

  convert_chunks-AreUncounted :
      (version : ℕ) (cs : List ProtoChunk) {chunks : List FlowChunk}
      → version ≤ 6
      → convert_chunks f version cs ≡ some chunks
      → AreUncounted chunks
  unfolding convert_chunks count_of
  convert_chunks-AreUncounted version [] old e = subst AreUncounted (some_inj e) tt
  convert_chunks-AreUncounted version (c ∷ cs) old e =
      let (chunk, e1, r1) = >>=-eq-some (convert_chunk f version c) _ e in
      let (chunks, e2, r2) = >>=-eq-some (convert_chunks f version cs) _ r1 in
      let left_out : count_of version c.service_event_count ≡ some none = ground (arith, old) in
      subst AreUncounted (some_inj r2) (
        sym (some_inj (sym left_out ∙ convert_chunk-count version c e1)),
        convert_chunks-AreUncounted version cs old e2,
      )

  convert_chunks-high :
      (cs : List ProtoChunk) → AreHigh cs → convert_chunks f 7 cs ≡ convert_chunks f 6 cs
  unfolding convert_chunks convert_chunk
  convert_chunks-high [] v = refl
  convert_chunks-high (c ∷ cs) (lt, high, v) =
      let flag : ltb 0 (bit_and c.service_event_count 4294901760) ≡ true =
        ground (arith, high_half c.service_event_count lt, high) in
      rw (flag, convert_chunks-high cs v) refl

  dispatch :
      (version : ℕ) (a b c : Bytes) (d : Result Abort Bytes)
      → 1 ≤ version
      → version ≤ 8
      → ((version == 8) ≡ true → (id : Bytes) × (d ≡ ok id))
      → (id : Bytes) × ((if version == 1
            then ok a
            else if leb 2 version && leb version 6
            then ok b
            else if version == 7
            then ok c
            else if version == 8
            then d
            else crash)
          ≡ ok id)
  dispatch version a b c d low high last = elim (Bool-cases (version == 1)) [
    | inl y ↦ (a, rw y refl)
    | inr n1 ↦ elim (Bool-cases (leb 2 version && leb version 6)) [
      | inl y ↦ (b, rw (n1, y) refl)
      | inr n2 ↦ elim (Bool-cases (version == 7)) [
        | inl y ↦ (c, rw (n1, n2, y) refl)
        | inr n3 ↦
            let y : (version == 8) ≡ true = ground (arith, n1, n2, n3, low, high) in
            let (id, e) = last y in (id, rw (n1, n2, n3, y) e)
      ]
    ]
  ]

  -- In a version from 1 to 8, an execution result that is converted has an identifier: deriving it does
  -- not panic.
  pub derive_execution_result_total :
      (version : ℕ) (r : ProtoResult) {exec : FlowExecutionResult f}
      → 1 ≤ version
      → version ≤ 8
      → convert_execution_result f version r ≡ some exec
      → (id : Bytes) × (derive_execution_result f version exec ≡ ok id)
  unfolding derive_execution_result derive_execution_result_v8 convert_execution_result
  derive_execution_result_total version r {exec} low high e =
      dispatch version (derive_execution_result_v1 f exec) (derive_execution_result_v2 f exec)
        (derive_execution_result_v7 f exec) (derive_execution_result_v8 f exec) low high
        (λ last.
          let eight = (==_iff version 8).0 last in
          let (chunks, e1, r1) = >>=-eq-some (convert_chunks f version r.chunks) _ e in
          let (events, e2, r2) = >>=-eq-some (convert_service_events f r.service_events) _ r1 in
          let at : convert_chunks f 8 r.chunks ≡ some chunks =
            ap (λ (v : ℕ). convert_chunks f v r.chunks) (sym eight) ∙ e1 in
          let counted = convert_chunks-AreCounted r.chunks at in
          let same : chunks ≡ exec.chunks =
            ap (λ (x : FlowExecutionResult f). x.chunks) (some_inj r2) in
          let (x, done) = chunks_to_v8-ok exec.chunks (subst AreCounted same counted) in
          (f.make_id (result_entity f x exec), rw (derive_execution_result_v8, done) refl))

  uncounted_same :
      (exec : FlowExecutionResult f)
      → AreUncounted exec.chunks
      → derive_execution_result f 7 exec ≡ derive_execution_result f 6 exec
  unfolding derive_execution_result derive_execution_result_v7 counts_left_out
  uncounted_same exec v = ap ok (go exec.chunks exec v refl)
    where
      go :
          (cs : List FlowChunk) (x : FlowExecutionResult f)
          → AreUncounted x.chunks
          → x.chunks ≡ cs
          → derive_execution_result_v7 f x ≡ derive_execution_result_v2 f x
      go [] x w e = rw e refl
      go (c ∷ cs) x w e = let none_kept = (subst AreUncounted e w).0 in rw (e, none_kept) refl

  -- An execution result whose counts all have a high bit set has the same identifier in version 7 as
  -- in version 6, and is converted to the same value.
  pub derive_execution_result_unchanged :
      (r : ProtoResult) {exec : FlowExecutionResult f}
      → AreHigh r.chunks
      → convert_execution_result f 6 r ≡ some exec
      → (convert_execution_result f 7 r ≡ some exec)
        × (derive_execution_result f 7 exec ≡ derive_execution_result f 6 exec)
  unfolding derive_execution_result derive_execution_result_v7 convert_execution_result
  derive_execution_result_unchanged r {exec} high e =
      let (chunks, e1, r1) = >>=-eq-some (convert_chunks f 6 r.chunks) _ e in
      let (events, e2, r2) = >>=-eq-some (convert_service_events f r.service_events) _ r1 in
      let same = convert_chunks-high r.chunks high in
      let chunks_eq : chunks ≡ exec.chunks =
        ap (λ (x : FlowExecutionResult f). x.chunks) (some_inj r2) in
      let none_kept =
        subst AreUncounted chunks_eq (convert_chunks-AreUncounted 6 r.chunks (omega arith) e1) in
      (rw same e, uncounted_same exec none_kept)
