-- ===== src/Deque/Ring.antt =====
-- deque/deque.go: the representation invariant, and the elements that a queue holds.
use rosetta.Shared.{
  ℕ, suc, ◌+◌, ◌-◌, ◌%◌, ◌^◌, ◌≤◌, ◌<◌, ◌≡◌, ap, sym, ◌∙◌, ◌≢◌, arith, List, [], ◌∷◌, ◌++◌, length,
  get_or, set, tabulate, tabulate_ext, length-tabulate, tabulate-suc, get_or-set_self,
  get_or-set_ne, length-set, bit_and, some, get_elem?-eq-get_or, lt→ltb, ap₂,
}
use rosetta.Shared.Bits.{bit_and-mask}
use rosetta.Deque.{Queue, store, pop}
use native.Mathlib.Nat.{mod-add-mod, mod-eq_of_lt, mod-eq-sub-mod, mod-lt}
use native.Mathlib.Decide.{dec_lt}

pub record IsValid {ℓ} {A : Type ℓ} (q : Queue A) : Type 0 where
  pub log : ℕ
  pub pow2 : q.cap ≡ 2 ^ log
  pub slots : length q.elems ≡ q.cap
  pub head_in : q.head < q.cap
  pub len_in : q.len ≤ q.cap
  pub tail_at : q.tail ≡ (q.head + q.len) % q.cap

-- Oldest first; the default is read nowhere in a valid queue.
abbrev pub contents {ℓ} : {A : Type ℓ} → A → Queue A → List A
contents z q = tabulate (λ i. get_or q.elems ((q.head + i) % q.cap) z) q.len

pub length-contents {ℓ} : {A : Type ℓ} (z : A) (q : Queue A) → length (contents z q) ≡ q.len
length-contents z q = length-tabulate (λ i. get_or q.elems ((q.head + i) % q.cap) z) q.len

-- Fewer than `cap` steps round the ring do not meet.
mod_ne : (h i n cap : ℕ) → h < cap → i < n → n < cap → (h + n) % cap ≢ (h + i) % cap
mod_ne h i n cap hh hi hn e = elim (dec_lt (h + n) cap) [
  | yes p ↦ omega (
    arith,
    mod-eq_of_lt {n = h + n} {m = cap} p,
    mod-eq_of_lt {n = h + i} {m = cap} (omega arith),
  )
  | no p ↦ elim (dec_lt (h + i) cap) [
    | yes r ↦ omega (
      arith,
      mod-eq_of_lt {n = h + i} {m = cap} r,
      mod-eq-sub-mod {n = h + n} {m = cap} (omega arith),
      mod-eq_of_lt {n = h + n - cap} {m = cap} (omega arith),
    )
    | no r ↦ omega (
      arith,
      mod-eq-sub-mod {n = h + i} {m = cap} (omega arith),
      mod-eq_of_lt {n = h + i - cap} {m = cap} (omega arith),
      mod-eq-sub-mod {n = h + n} {m = cap} (omega arith),
      mod-eq_of_lt {n = h + n - cap} {m = cap} (omega arith),
    )
  ]
]

mask_eq {ℓ} : {A : Type ℓ} (q : Queue A) (a : ℕ) → IsValid q → bit_and a (q.cap - 1) ≡ a % q.cap
mask_eq q a v =
    ap (λ (c : ℕ). bit_and a (c - 1)) v.pow2
    ∙ bit_and-mask v.log a
    ∙ sym (ap (λ (c : ℕ). a % c) v.pow2)

module _ {ℓ} {A : Type ℓ} (z : A) where
  -- The queue that `store` leaves, below the capacity.
  abbrev stored : Queue A → A → Queue A
  stored q x = record q {
    elems = set q.elems q.tail x;
    tail = bit_and (q.tail + 1) (q.cap - 1);
    len = q.len + 1;
  }

  tail_in : (q : Queue A) → IsValid q → q.tail < q.cap
  tail_in q v = omega (arith, v.tail_at, mod-lt (q.head + q.len) {m = q.cap} (omega arith))

  stored-IsValid : (q : Queue A) (x : A) → IsValid q → q.len < q.cap → IsValid (stored q x)
  stored-IsValid q x v h = record {
    log = v.log;
    pow2 = v.pow2;
    slots = length-set q.elems q.tail x ∙ v.slots;
    head_in = v.head_in;
    len_in = omega arith;
    tail_at =
        mask_eq q (q.tail + 1) v
        ∙ ap (λ (t : ℕ). (t + 1) % q.cap) v.tail_at
        ∙ mod-add-mod (q.head + q.len) q.cap 1
        ∙ ap (λ (t : ℕ). t % q.cap) (omega arith);
  }

  contents-stored :
      (q : Queue A) (x : A)
      → IsValid q
      → q.len < q.cap
      → contents z (stored q x) ≡ contents z q ++ (x ∷ [])
  contents-stored q x v h =
      ap (tabulate slot) {y = suc q.len} (omega arith)
      ∙ tabulate-suc slot q.len
      ∙ ap₂ ◌++◌ (tabulate_ext slot (λ i. get_or q.elems ((q.head + i) % q.cap) z) q.len kept)
          (ap (λ (y : A). y ∷ []) written)
    where
      slot : ℕ → A
      slot i = get_or (set q.elems q.tail x) ((q.head + i) % q.cap) z

      kept : (i : ℕ) → i < q.len → slot i ≡ get_or q.elems ((q.head + i) % q.cap) z
      kept i p =
          get_or-set_ne q.elems q.tail ((q.head + i) % q.cap) x z
            (λ e. mod_ne q.head i q.len q.cap v.head_in p h (sym v.tail_at ∙ e))

      written : slot q.len ≡ x
      written =
          rw (← v.tail_at)
            (get_or-set_self q.elems q.tail x z (omega (arith, v.slots, tail_in q v)))

  -- `store` below the capacity keeps the invariant and appends.
  pub store-contents :
      (q : Queue A) (x : A)
      → IsValid q
      → q.len < q.cap
      → (r : Queue A) × (store q x ≡ some r) × IsValid r × (contents z r ≡ contents z q ++ (x ∷ []))
  unfolding store
  store-contents q x v h = (
    stored q x,
    rw (lt→ltb q.tail (length q.elems) (omega (arith, v.slots, tail_in q v))),
    stored-IsValid q x v h,
    contents-stored q x v h,
  )

  abbrev popped : Queue A → Queue A
  popped q = record q { head = bit_and (q.head + 1) (q.cap - 1); len = q.len - 1 }

  popped-IsValid : (q : Queue A) → IsValid q → 0 < q.len → IsValid (popped q)
  popped-IsValid q v h =
      let mask : bit_and (q.head + 1) (q.cap - 1) ≡ (q.head + 1) % q.cap =
        mask_eq q (q.head + 1) v in
      record {
        log = v.log;
        pow2 = v.pow2;
        slots = v.slots;
        head_in = omega (arith, mask, mod-lt (q.head + 1) {m = q.cap} (omega arith));
        len_in = omega arith;
        tail_at =
            v.tail_at
            ∙ ap (λ (t : ℕ). t % q.cap) {x = q.head + q.len} {y = q.head + 1 + (q.len - 1)}
                (omega arith)
            ∙ sym (mod-add-mod (q.head + 1) q.cap (q.len - 1))
            ∙ ap (λ (t : ℕ). (t + (q.len - 1)) % q.cap) (sym mask);
      }

  contents-popped :
      (q : Queue A)
      → IsValid q
      → 0 < q.len
      → contents z q ≡ get_or q.elems q.head z ∷ contents z (popped q)
  contents-popped q v h =
      ap (tabulate slot) {x = q.len} {y = suc (q.len - 1)} (omega arith)
      ∙ ap₂ ◌∷◌ (ap (λ (i : ℕ). get_or q.elems i z) first) (tabulate_ext _ _ (q.len - 1) later)
    where
      slot : ℕ → A
      slot i = get_or q.elems ((q.head + i) % q.cap) z

      first : (q.head + 0) % q.cap ≡ q.head
      first = ap (λ (t : ℕ). t % q.cap) {y = q.head} (omega arith) ∙ mod-eq_of_lt v.head_in

      later :
          (i : ℕ)
          → i < q.len - 1
          → slot (suc i) ≡ get_or q.elems ((bit_and (q.head + 1) (q.cap - 1) + i) % q.cap) z
      later i p =
          ap (λ (t : ℕ). get_or q.elems t z)
            (ap (λ (t : ℕ). t % q.cap) {x = q.head + suc i} {y = q.head + 1 + i} (omega arith)
              ∙ sym (mod-add-mod (q.head + 1) q.cap i)
              ∙ ap (λ (t : ℕ). (t + i) % q.cap) (sym (mask_eq q (q.head + 1) v)))

  -- `pop` on a queue with elements reads the oldest one inside the slots and drops it.
  pub pop-contents :
      (q : Queue A)
      → IsValid q
      → 0 < q.len
      → (r : Queue A) × (pop z q ≡ some (get_or q.elems q.head z, r))
        × IsValid r
        × (contents z q ≡ get_or q.elems q.head z ∷ contents z r)
  unfolding pop
  pop-contents q v h = (
    popped q,
    ground (arith, get_elem?-eq-get_or q.elems q.head z (omega arith)),
    popped-IsValid q v h,
    contents-popped q v h,
  )
