-- ===== src/Deque/Fifo.antt =====
-- deque/deque.go: a queue behaves as the list of the elements that it holds, oldest first.
use rosetta.Shared.{
  ◌⊎◌, ℕ, ◌+◌, ◌-◌, ◌^◌, ◌≤◌, ◌<◌, ◌≡◌, refl, ap, sym, ◌≢◌, arith, List, [], ◌↔◌, ◌∷◌, ◌++◌, length,
  get_or, replicate, length-replicate, length-append, bit_and, some, none, Option, inl, inr, ◌>>=◌,
}
use rosetta.Shared.Bits.{pow2_of_bit_and, bit_and-pow2}
use rosetta.Deque.{Queue, push, pop, new}
use rosetta.Deque.Ring.{IsValid, contents, length-contents, store-contents, pop-contents}
use rosetta.Deque.Grow.{room}
use native.Mathlib.Nat.{mod-eq_of_lt}
use native.Mathlib.Decide.{ℕ_discrete}

-- A caller's calls in order.
pub data Op {ℓ} (A : Type ℓ) : Type ℓ where
  put : A → Op A
  get : Op A

module _ {ℓ} {A : Type ℓ} (z : A) where
  -- What each `Pop` of a run returns; `none` if a call panics.
  unfoldable pub run : Queue A → List (Op A) → Option (List A)
  run q [] = some []
  run q (put x ∷ ops) = do r ← push z q x; run r ops
  run q (get ∷ ops) = do (x, r) ← pop z q; xs ← run r ops; some (x ∷ xs)

  -- `Pop` on the list of a queue: the zero identifier if there is none.
  unfoldable pub pop_list : List A → A × List A
  pop_list [] = (z, [])
  pop_list (x ∷ xs) = (x, xs)

  unfoldable pub run_list : List A → List (Op A) → List A
  unfolding pop_list
  run_list xs [] = []
  run_list xs (put x ∷ ops) = run_list (xs ++ (x ∷ [])) ops
  run_list xs (get ∷ ops) = let (x, rest) = pop_list xs in x ∷ run_list rest ops

module _ {ℓ} {A : Type ℓ} (z : A) where
  -- `Push` never panics on a valid queue of fewer than 2^62 elements: it stays valid and holds the
  -- new element behind the others, also where it had to grow.
  pub push_refines :
      (q : Queue A) (x : A)
      → IsValid q
      → q.len < 2 ^ 62
      → (r : Queue A) × (push z q x ≡ some r)
        × IsValid r
        × (contents z r ≡ contents z q ++ (x ∷ []))
  unfolding push
  push_refines q x v small =
      let (r, e, vr, space, same) = room z q v small in
      let (t, stored, vt, holds) = store-contents z r x vr space in
      (t, rw e stored, vt, rw same at holds)

  -- `Pop` never panics on a valid queue: it returns the oldest element, or ZeroID if there is
  -- none, stays valid and holds the others.
  pub pop_refines :
      (q : Queue A)
      → IsValid q
      → (x : A) × (r : Queue A) × (pop z q ≡ some (x, r))
        × IsValid r
        × ((x, contents z r) ≡ pop_list z (contents z q))
  unfolding pop_list
  pop_refines q v = elim (ℕ_discrete q.len 0) [
    | yes empty ↦ (z, q, (unfold pop in ground arith), v, rw empty)
    | no some_left ↦
        let (r, e, vr, holds) = pop-contents z q v (omega arith) in
        (get_or q.elems q.head z, r, e, vr, rw holds)
  ]

module _ {ℓ} {A : Type ℓ} (z : A) where
  length-pop_list : (xs : List A) → length (pop_list z xs).1 ≤ length xs
  unfolding pop_list
  length-pop_list [] = omega arith
  length-pop_list (x ∷ xs) = omega arith

  -- No sequence of calls tells a valid queue from the list of its elements, and none panics, if the
  -- number of its elements plus the number of the calls is at most 2^62.
  pub run_refines :
      (ops : List (Op A)) (q : Queue A)
      → IsValid q
      → q.len + length ops ≤ 2 ^ 62
      → run z q ops ≡ some (run_list z (contents z q) ops)
  unfolding run run_list
  run_refines [] q v h = refl
  run_refines (put x ∷ ops) q v h =
      let (r, e, vr, holds) = push_refines z q x v (omega arith) in
      rw (e, run_refines ops r vr (omega (arith, longer r holds)), holds)
    where
      longer : (r : Queue A) → contents z r ≡ contents z q ++ (x ∷ []) → r.len ≡ q.len + 1
      longer r holds = omega (
        arith,
        ap length holds,
        length-append (contents z q) (x ∷ []),
        length-contents z q,
        length-contents z r,
      )
  run_refines (get ∷ ops) q v h =
      let (x, r, e, vr, holds) = pop_refines z q v in
      rw (e, run_refines ops r vr (omega (arith, shorter x r holds)), ← holds)
    where
      shorter :
          (x : A) (r : Queue A) → (x, contents z r) ≡ pop_list z (contents z q) → r.len ≤ q.len
      shorter x r holds = omega (
        arith,
        ap (λ (p : A × List A). length p.1) holds,
        length-pop_list (contents z q),
        length-contents z q,
        length-contents z r,
      )

  -- `New` panics at every capacity that is neither 0 nor a power of 2 and at every capacity above the
  -- largest length that `make` accepts, and at no other.
  pub new-eq-none_iff :
      (max_slots c : ℕ)
      → (new max_slots z c ≡ none) ↔ (((c ≢ 0) × ((k : ℕ) → c ≢ 2 ^ k)) ⊎ (max_slots < c))
  unfolding new
  new-eq-none_iff max_slots c = elim (ℕ_discrete (bit_and c (c - 1)) 0) [
    | yes e ↦ (
      λ p. inr (ground arith),
      λ h. elim h [
        | inl odd ↦ elim (pow2_of_bit_and c e) [
          | inl z' ↦ absurd (odd.0 z')
          | inr (k, p) ↦ absurd (odd.1 k p)
        ]
        | inr large ↦ ground arith
      ],
    )
    | no ne ↦ (λ p. inl (λ e. ne (rw e), λ k e. ne (rw e (bit_and-pow2 k))), λ h. ground arith)
  ]

  -- What `New` returns for a positive capacity is a valid, empty queue.
  pub new-IsValid :
      (max_slots c : ℕ) {q : Queue A}
      → 0 < c
      → new max_slots z c ≡ some q
      → IsValid q × (contents z q ≡ [])
  unfolding new
  new-IsValid max_slots c {q} h e = elim (ℕ_discrete (bit_and c (c - 1)) 0) [
    | yes p ↦ elim (pow2_of_bit_and c p) [
      | inl z' ↦ absurd (omega arith)
      | inr (k, p2) ↦
          let made : empty_queue c ≡ q = ground arith in
          rw (← made) (
            record {
              log = k;
              pow2 = p2;
              slots = length-replicate c z;
              head_in = h;
              len_in = omega arith;
              tail_at = sym (mod-eq_of_lt {n = 0 + 0} {m = c} (omega arith));
            },
            refl,
          )
    ]
    | no ne ↦ ground arith
  ]
    where
      empty_queue : ℕ → Queue A
      empty_queue n = record { cap = n; elems = replicate n z; head = 0; len = 0; tail = 0 }
