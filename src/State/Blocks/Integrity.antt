-- ===== src/State/Blocks/Integrity.antt =====
-- state/process.go: what the data integrity checks establish of the events of a block.
use rosetta.Shared.{
  ℕ, ◌≡◌, ◌≢◌, refl, ap, sym, ◌∙◌, Bool, true, false, ◌&&◌, Option, none, some, List, [], ◌∷◌,
  Bytes, bytes_eq, bytes_eq_iff, find, ◌==◌, if◌then◌else◌, length, arith, Bool-cases, inl, inr,
  ◌⊎◌, by_test, map,
}
use rosetta.Shared.Results.{Result, ok, err, >>=-eq-ok, ok_inj, or_err}
use rosetta.Crypto.{Curve}
use rosetta.State.{Indexer}
use rosetta.State.Blocks.{Spork, self_sealed, chunks_match, check_seal, check_integrity, attempt}
use rosetta.State.Cadence.{Cadence}
use rosetta.State.EventHashes.{event_hashes}
use rosetta.State.Events.{Abort, retry, require}
use rosetta.State.Execution.{
  ProtoChunk, ProtoResult, convert_execution_result, derive_execution_result,
}
use rosetta.State.Execution.Commitments.{
  committed, convert_execution_result-events, derive_execution_result-committed,
}
use rosetta.State.Flow.{Flow, Entity}
use rosetta.State.Headers.Verified.{Collision}
use rosetta.State.Operations.Matching.{require_lem}
use rosetta.State.Transactions.{CollectionData, Progress}

lists_eq : List Bytes → List Bytes → Bool
lists_eq [] [] = true
lists_eq [] (y ∷ ys) = false
lists_eq (x ∷ xs) [] = false
lists_eq (x ∷ xs) (y ∷ ys) = bytes_eq x y && lists_eq xs ys

lists_eq_sound : (xs ys : List Bytes) → lists_eq xs ys ≡ true → xs ≡ ys
unfolding lists_eq
lists_eq_sound [] [] e = refl
lists_eq_sound [] (y ∷ ys) e = cc
lists_eq_sound (x ∷ xs) [] e = cc
lists_eq_sound (x ∷ xs) (y ∷ ys) e =
    let h = (bytes_eq_iff x y).0 (ground (arith, e)) in
    let t = lists_eq_sound xs ys (ground (arith, e)) in cc

lists_eq_refl : (xs : List Bytes) → lists_eq xs xs ≡ true
unfolding lists_eq
lists_eq_refl [] = refl
lists_eq_refl (x ∷ xs) = ground (arith, (bytes_eq_iff x x).1 refl, lists_eq_refl xs)

differ-apart : (x y : Entity) → lists_eq (committed x) (committed y) ≡ false → x ≢ y
differ-apart x y differ e =
    let same : lists_eq (committed x) (committed y) ≡ true =
      ap (λ (z : Entity). lists_eq (committed x) (committed z)) (sym e)
      ∙ lists_eq_refl (committed x) in
    let clash = sym differ ∙ same in cc

or_err-some :
    {A : Type 0} (o : Option A) {x : A}
    → ◌≡◌ {A = Result Abort A} (or_err o retry) (ok x)
    → o ≡ some x
or_err-some none e = cc
or_err-some (some y) e = ap some (ok_inj e)

module _ (f : Flow) where
  -- The identifier of an execution result that is checked, and the commitments that it holds.
  record IsChecked (version : ℕ) (hashes : List Bytes) (id : Bytes) : Type 0 where
    value : Entity
    value_eq : f.make_id value ≡ id
    committed_eq : committed value ≡ map f.message_to_identifier hashes

  chunks_match_sound :
      (hs : List Bytes) (cs : List ProtoChunk)
      → chunks_match hs cs ≡ true
      → map (λ c. c.event_collection) cs ≡ hs
  unfolding chunks_match
  chunks_match_sound [] [] e = refl
  chunks_match_sound [] (c ∷ cs) e = cc
  chunks_match_sound (h ∷ hs) [] e = cc
  chunks_match_sound (h ∷ hs) (c ∷ cs) e =
      let same = (bytes_eq_iff c.event_collection h).0 (ground (arith, e)) in
      let others = chunks_match_sound hs cs (ground (arith, e)) in cc

  check_integrity-IsChecked :
      (i : Indexer) (tolerance : ℕ) (spork : Spork) (height : ℕ) (hash sealed : Bytes)
      (hashes : List Bytes) (r : ProtoResult) {unsealed : Bool}
      → self_sealed spork height ≡ false
      → find hash i.sealed_results ≡ some sealed
      → check_integrity i tolerance spork height hash f hashes r ≡ ok unsealed
      → IsChecked spork.version hashes sealed
  unfolding check_integrity check_seal
  check_integrity-IsChecked i tolerance spork height hash sealed hashes r plain found e =
      let (u1, e1, r1) = >>=-eq-ok (require (length r.chunks == length hashes)) _ e in
      let (u2, e2, r2) = >>=-eq-ok (require (chunks_match hashes r.chunks)) _ r1 in
      let (exec, e3, r3) =
        >>=-eq-ok (or_err (convert_execution_result f spork.version r) retry) _ r2 in
      let (id, e4, r4) = >>=-eq-ok (derive_execution_result f spork.version exec) _ r3 in
      let seal : check_seal i tolerance spork height hash id
          ≡ (if bytes_eq id sealed then ok false else err retry) =
        rw (check_seal, plain, found) refl in
      let same : id ≡ sealed =
        by_test (bytes_eq id sealed) (sym seal ∙ r4) (λ y q. (bytes_eq_iff id sealed).0 y)
          (λ n q. cc) in
      let (x, x_id, held) = derive_execution_result-committed f spork.version exec e4 in
      let matched =
        chunks_match_sound hashes r.chunks (require_lem (chunks_match hashes r.chunks) e2) in
      let from = convert_execution_result-events f spork.version r (or_err-some _ e3) in
      record {
        value = x;
        value_eq = x_id ∙ same;
        committed_eq = held ∙ from ∙ ap (map f.message_to_identifier) matched;
      }

  -- In a spork, away from its self-sealed root block, if two rounds for a block with one sealed result
  -- both succeed with the integrity checks on, each on the collections and the execution result that
  -- it fetched, then the hashes of the events of their collections agree, as identifiers, or two values
  -- are found that `make_id` does not tell apart.
  pub attempt_agrees :
      (i j : Indexer) (tolerance : ℕ) (spork : Spork) (height : ℕ) (hash sealed : Bytes)
      (c : Cadence) (curve : Curve) (cols1 cols2 : List CollectionData) (r1 r2 : ProtoResult)
      {pr1 pr2 : Progress}
      → self_sealed spork height ≡ false
      → find hash i.sealed_results ≡ some sealed
      → find hash j.sealed_results ≡ some sealed
      → attempt i tolerance spork height hash f c curve false cols1 r1 ≡ ok pr1
      → attempt j tolerance spork height hash f c curve false cols2 r2 ≡ ok pr2
      → ((hashes1 hashes2 : List Bytes) × (event_hashes f spork.version false cols1 ≡ ok hashes1)
          × (event_hashes f spork.version false cols2 ≡ ok hashes2)
          × (map f.message_to_identifier hashes1 ≡ map f.message_to_identifier hashes2))
        ⊎ Collision f
  unfolding attempt
  attempt_agrees i j tolerance spork height hash sealed c curve cols1 cols2 r1 r2 plain found1
        found2 e1 e2 =
      let (h1, f1, g1) =
        >>=-eq-ok (event_hashes f spork.version (self_sealed spork height) cols1) _ e1 in
      let (h2, f2, g2) =
        >>=-eq-ok (event_hashes f spork.version (self_sealed spork height) cols2) _ e2 in
      let (u1, k1, l1) = >>=-eq-ok (check_integrity i tolerance spork height hash f h1 r1) _ g1 in
      let (u2, k2, l2) = >>=-eq-ok (check_integrity j tolerance spork height hash f h2 r2) _ g2 in
      let v1 =
        check_integrity-IsChecked i tolerance spork height hash sealed h1 r1 plain found1 k1 in
      let v2 =
        check_integrity-IsChecked j tolerance spork height hash sealed h2 r2 plain found2 k2 in
      let at1 : event_hashes f spork.version false cols1 ≡ ok h1 =
        ap (λ (b : Bool). event_hashes f spork.version b cols1) (sym plain) ∙ f1 in
      let at2 : event_hashes f spork.version false cols2 ≡ ok h2 =
        ap (λ (b : Bool). event_hashes f spork.version b cols2) (sym plain) ∙ f2 in
      elim (Bool-cases (lists_eq (committed v1.value) (committed v2.value))) [
        | inl same ↦
            let eq = lists_eq_sound (committed v1.value) (committed v2.value) same in
            inl (h1, h2, at1, at2, sym v1.committed_eq ∙ eq ∙ v2.committed_eq)
        | inr differ ↦ inr (
          v1.value,
          v2.value,
          differ-apart v1.value v2.value differ,
          v1.value_eq ∙ sym v2.value_eq,
        )
      ]
