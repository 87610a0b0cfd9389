-- ===== src/Deque/Grow.antt =====
-- deque/deque.go: a full queue that grows holds the same elements.
use rosetta.Shared.{
  ℕ, zero, suc, ◌+◌, ◌-◌, ◌*◌, ◌%◌, ◌^◌, ◌≤◌, ◌<◌, ◌≡◌, refl, ap, sym, ◌∙◌, arith, List, [], ◌∷◌,
  length, get_or, take, drop, replicate, tabulate_ext, length-take, length-drop, length-replicate,
  length-append, if◌then◌else◌, ◌==◌, get_or-append_left, get_or-append_right, get_or-drop,
  get_or-take, ==_iff,
}
use rosetta.Deque.{Queue, grow, copy, copy_at}
use rosetta.Deque.Ring.{IsValid, contents}
use native.Mathlib.Nat.{mod-eq_of_lt, mod-eq-sub-mod, pow-suc, add-mod_right}
use native.Mathlib.Decide.{dec_lt, ℕ_discrete}

module _ {ℓ} {A : Type ℓ} (z : A) where
  length-copy : (dst src : List A) → length (copy dst src) ≡ length dst
  unfolding copy
  length-copy [] src = refl
  length-copy (d ∷ dst) [] = refl
  length-copy (d ∷ dst) (s ∷ src) = ap suc (length-copy dst src)

  get_or-copy :
      (dst src : List A) (i : ℕ)
      → i < length src
      → length src ≤ length dst
      → get_or (copy dst src) i z ≡ get_or src i z
  unfolding copy
  get_or-copy [] src i h l = absurd (omega arith)
  get_or-copy (d ∷ dst) [] i h l = absurd (omega arith)
  get_or-copy (d ∷ dst) (s ∷ src) zero h l = refl
  get_or-copy (d ∷ dst) (s ∷ src) (suc i) h l = get_or-copy dst src i (omega arith) (omega arith)

  get_or-copy_at_left :
      (n : ℕ) (dst src : List A) (i : ℕ)
      → i < n
      → n ≤ length dst
      → get_or (copy_at n dst src) i z ≡ get_or dst i z
  unfolding copy_at
  get_or-copy_at_left n dst src i h l =
      get_or-append_left (take n dst) (copy (drop n dst) src) i z (omega (arith, length-take n dst))
      ∙ get_or-take n dst i z h

  get_or-copy_at_right :
      (n : ℕ) (dst src : List A) (i : ℕ)
      → n ≤ i
      → i - n < length src
      → n + length src ≤ length dst
      → get_or (copy_at n dst src) i z ≡ get_or src (i - n) z
  unfolding copy_at
  get_or-copy_at_right n dst src i h m l =
      let len : length (take n dst) ≡ n = omega (arith, length-take n dst) in
      get_or-append_right (take n dst) (copy (drop n dst) src) i z (omega arith)
      ∙ ap (λ (k : ℕ). get_or (copy (drop n dst) src) (i - k) z) len
      ∙ get_or-copy (drop n dst) src (i - n) m (omega (arith, length-drop n dst))

  length-copy_at :
      (n : ℕ) (dst src : List A) → n ≤ length dst → length (copy_at n dst src) ≡ length dst
  unfolding copy_at
  length-copy_at n dst src h = omega (
    arith,
    length-append (take n dst) (copy (drop n dst) src),
    length-take n dst,
    length-copy (drop n dst) src,
    length-drop n dst,
  )

  -- The slots of a full queue after `grow`: the elements from `head` on, then those before it.
  rotated : Queue A → List A
  rotated q =
      let front = drop q.head q.elems in
      copy_at (length front) (copy (replicate (q.cap * 2) z) front) (take q.head q.elems)

  module _ (q : Queue A) (v : IsValid q) where
    length-rotated : length (rotated q) ≡ q.cap * 2
    unfolding rotated
    length-rotated =
        let front = drop q.head q.elems in
        let fresh = replicate (q.cap * 2) z in
        omega (
          arith,
          v.slots,
          length-drop q.head q.elems,
          length-copy fresh front,
          length-replicate {ℓ} (q.cap * 2) z,
          length-copy_at (length front) (copy fresh front) (take q.head q.elems),
        )

    get_or-rotated :
        (i : ℕ) → i < q.cap → get_or (rotated q) i z ≡ get_or q.elems ((q.head + i) % q.cap) z
    unfolding rotated
    get_or-rotated i h =
        let front = drop q.head q.elems in
        let fresh = replicate (q.cap * 2) z in
        let lf : length front ≡ q.cap - q.head =
          omega (arith, v.slots, length-drop q.head q.elems) in
        let lb : length (take q.head q.elems) ≡ q.head =
          omega (arith, v.slots, v.head_in, length-take q.head q.elems) in
        let ld : length (copy fresh front) ≡ q.cap * 2 =
          omega (arith, length-copy fresh front, length-replicate {ℓ} (q.cap * 2) z) in
        elim (dec_lt i (length front)) [
          | yes p ↦
              get_or-copy_at_left (length front) (copy fresh front) (take q.head q.elems) i p
                (omega arith)
              ∙ get_or-copy fresh front i p (omega (arith, length-replicate {ℓ} (q.cap * 2) z))
              ∙ get_or-drop q.head q.elems i z
              ∙ ap (λ (k : ℕ). get_or q.elems k z)
                  (sym (mod-eq_of_lt {n = q.head + i} {m = q.cap} (omega arith)))
          | no p ↦
              get_or-copy_at_right (length front) (copy fresh front) (take q.head q.elems) i
                (omega arith) (omega (arith, v.head_in)) (omega (arith, v.head_in))
              ∙ get_or-take q.head q.elems (i - length front) z (omega (arith, v.head_in))
              ∙ ap (λ (k : ℕ). get_or q.elems k z)
                  (omega (
                    arith,
                    v.head_in,
                    mod-eq-sub-mod {n = q.head + i} {m = q.cap} (omega arith),
                    mod-eq_of_lt {n = q.head + i - q.cap} {m = q.cap} (omega (arith, v.head_in)),
                  ))
        ]

    grow_eq :
        q.len ≡ q.cap
        → q.cap < 2 ^ 62
        → grow z q ≡ record q { cap = q.cap * 2; elems = rotated q; head = 0; tail = q.len }
    unfolding grow rotated
    grow_eq full small =
        let back : q.tail ≡ q.head =
          v.tail_at
          ∙ ap (λ (n : ℕ). (q.head + n) % q.cap) full
          ∙ add-mod_right q.head q.cap
          ∙ mod-eq_of_lt v.head_in in
        ground (arith, back)

    grow-IsValid : q.len ≡ q.cap → q.cap < 2 ^ 62 → IsValid (grow z q)
    grow-IsValid full small = rw (grow_eq full small) (record {
      log = suc v.log;
      pow2 = omega (arith, v.pow2, pow-suc 2 v.log);
      slots = length-rotated;
      head_in = omega (arith, v.head_in);
      len_in = omega (arith, v.len_in);
      tail_at = sym (
          mod-eq_of_lt {n = 0 + q.len} {m = q.cap * 2} (omega (arith, v.head_in))
          ∙ (let e : 0 + q.len ≡ q.len = omega arith in e));
    })

    contents-grow : q.len ≡ q.cap → q.cap < 2 ^ 62 → contents z (grow z q) ≡ contents z q
    contents-grow full small = rw (grow_eq full small) (
        tabulate_ext _ _ q.len (λ i h.
          ap (λ (k : ℕ). get_or (rotated q) k z)
            (mod-eq_of_lt {n = 0 + i} {m = q.cap * 2} (omega (arith, v.len_in))
              ∙ (let e : 0 + i ≡ i = omega arith in e))
          ∙ get_or-rotated i (omega (arith, v.len_in))))

    -- The queue that `push` stores into has room, and holds the same elements.
    pub room :
        q.len < 2 ^ 62
        → (r : Queue A) × ((if q.len == q.cap then grow z q else q) ≡ r)
          × IsValid r
          × (r.len < r.cap)
          × (contents z r ≡ contents z q)
    room small = elim (ℕ_discrete q.len q.cap) [
      | yes full ↦ (
        grow z q,
        rw ((==_iff q.len q.cap).1 full),
        grow-IsValid full (omega arith),
        rw (grow_eq full (omega arith)) (omega (arith, v.head_in)),
        contents-grow full (omega arith),
      )
      | no open' ↦ (q, ground arith, v, omega (arith, v.len_in), refl)
    ]
