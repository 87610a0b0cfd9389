-- ===== src/Deque.antt =====
-- deque/deque.go: a growing ring buffer of block hashes.
-- The element type stands for flow.Identifier and `zero_id` for flow.ZeroID, both of flow-go. The
-- mutex makes each method atomic, so a method is a function on the struct's fields. `none` is a
-- panic. `len` and the indices stay at most `cap`, so only the shift of `cap` can leave 64 bits. The
-- parameter `max_slots` of `new` is the largest length at which `make` does not panic; that `Push` can
-- run out of memory when it grows is not modelled.
pub mod Ring
pub mod Grow
pub mod Fifo
mod Tests
use rosetta.Shared.{
  ℕ, ◌+◌, ◌-◌, ◌*◌, ◌%◌, ◌^◌, bit_and, ltb, ◌==◌, if◌then◌else◌, Option, none, some, List, [], ◌∷◌,
  ◌++◌, length, get_elem?, set, take, drop, replicate, not,
}

pub record Queue {ℓ} (A : Type ℓ) : Type ℓ where
  pub cap : ℕ
  pub elems : List A
  pub head : ℕ
  pub len : ℕ
  pub tail : ℕ

-- `copy(dst, src)`: the shorter of the two lengths is overwritten.
pub copy {ℓ} : {A : Type ℓ} → List A → List A → List A
copy [] src = []
copy (d ∷ dst) [] = d ∷ dst
copy (d ∷ dst) (s ∷ src) = s ∷ copy dst src

-- `copy(dst[n:], src)`.
copy_at {ℓ} : {A : Type ℓ} → ℕ → List A → List A → List A
unfolding copy
copy_at n dst src = take n dst ++ copy (drop n dst) src

module _ {ℓ} {A : Type ℓ} where
  pub cap_of : Queue A → ℕ
  cap_of q = q.cap

  pub len_of : Queue A → ℕ
  len_of q = q.len

  -- The state behind `if q.len == q.cap` in `Push`: twice the slots, with the elements in front.
  pub grow : A → Queue A → Queue A
  unfolding copy copy_at
  grow zero_id q =
      let cap : ℕ = (q.cap * 2) % 2 ^ 64 in
      let fresh = replicate cap zero_id in
      let front = drop q.head q.elems in
      record q {
        cap = cap;
        elems =
            if ltb q.head q.tail
            then copy fresh (take (q.tail - q.head) front)
            else copy_at (length front) (copy fresh front) (take q.tail q.elems);
        head = 0;
        tail = q.len;
      }

  -- `q.elems[q.tail] = elem` panics out of range.
  pub store : Queue A → A → Option (Queue A)
  store q elem =
      if ltb q.tail (length q.elems)
      then some (record q {
        elems = set q.elems q.tail elem;
        tail = bit_and (q.tail + 1) (q.cap - 1);
        len = q.len + 1;
      })
      else none

  pub push : A → Queue A → A → Option (Queue A)
  unfolding grow store
  push zero_id q elem = store (if q.len == q.cap then grow zero_id q else q) elem

  -- What `Pop` does with the element read, if the read is in range.
  take_head : Queue A → Option A → Option (A × Queue A)
  take_head q none = none
  take_head q (some elem) =
      some (elem, record q { head = bit_and (q.head + 1) (q.cap - 1); len = q.len - 1 })

  pub pop : A → Queue A → Option (A × Queue A)
  unfolding take_head
  pop zero_id q = if q.len == 0 then some (zero_id, q) else take_head q (get_elem? q.elems q.head)

  -- `make` panics at a length above `max_slots`. A negative capacity panics there too; here a capacity
  -- is not negative.
  pub new : ℕ → A → ℕ → Option (Queue A)
  new max_slots zero_id initial_capacity =
      if not (bit_and initial_capacity (initial_capacity - 1) == 0)
      then none
      else if ltb max_slots initial_capacity
      then none
      else some (record {
        cap = initial_capacity;
        elems = replicate initial_capacity zero_id;
        head = 0;
        len = 0;
        tail = 0;
      })
