-- ===== src/Deque/Tests.antt =====
-- deque/deque.go on concrete queues of numbers; TestDeque of deque_test.go pushes and pops likewise.
use rosetta.Shared.{
  ◌⊎◌, ◌<◌, ℕ, ◌↔◌, replicate, ◌≡◌, ◌^◌, refl, none, some, List, [], ◌∷◌, ◌++◌, arith, ◌≢◌,
}
use rosetta.Deque.{Queue, push, pop, new, grow, copy}
use rosetta.Deque.Ring.{IsValid, contents}
use rosetta.Deque.Fifo.{
  Op, put, get, run, run_list, pop_list, run_refines, push_refines, pop_refines, new-IsValid,
  new-eq-none_iff,
}

-- Two slots, both used, the older element in the second one.
abbrev full : Queue ℕ
full = record { cap = 2; elems = 8 ∷ 7 ∷ []; head = 1; len = 2; tail = 1 }

full-IsValid : IsValid full
full-IsValid = record {
  log = 1;
  pow2 = refl;
  slots = refl;
  head_in = omega arith;
  len_in = omega arith;
  tail_at = refl;
}

-- A push that grows moves the older element to the front.
push-full :
    push 0 full 9
    ≡ some (record { cap = 4; elems = 7 ∷ 8 ∷ 9 ∷ 0 ∷ []; head = 0; len = 3; tail = 3 })
unfolding push grow copy
push-full = refl

pop-full :
    pop 0 full ≡ some (7, record { cap = 2; elems = 8 ∷ 7 ∷ []; head = 0; len = 1; tail = 1 })
unfolding pop
pop-full = refl

abbrev calls : List (Op ℕ)
calls = put 9 ∷ get ∷ get ∷ put 5 ∷ get ∷ get ∷ get ∷ []

run-full : run 0 full calls ≡ some (7 ∷ 8 ∷ 9 ∷ 5 ∷ 0 ∷ [])
unfolding run push pop grow copy
run-full = refl

run_refines_example : run 0 full calls ≡ some (run_list 0 (contents 0 full) calls)
run_refines_example = run_refines 0 calls full full-IsValid (omega arith)

push_refines_example :
    (r : Queue ℕ) × (push 0 full 9 ≡ some r)
    × IsValid r
    × (contents 0 r ≡ contents 0 full ++ (9 ∷ []))
push_refines_example = push_refines 0 full 9 full-IsValid (omega arith)

pop_refines_example :
    (x : ℕ) × (r : Queue ℕ) × (pop 0 full ≡ some (x, r))
    × IsValid r
    × ((x, contents 0 r) ≡ pop_list 0 (contents 0 full))
pop_refines_example = pop_refines 0 full full-IsValid

abbrev six : ℕ
six = 6

-- The largest length that `make` accepts for elements of 32 bytes and addresses of 48 bits.
abbrev limit : ℕ
limit = 2 ^ 43

new-eq-none_iff_example :
    (new {A = ℕ} limit 0 six ≡ none) ↔ (((six ≢ 0) × ((k : ℕ) → six ≢ 2 ^ k)) ⊎ (limit < six))
new-eq-none_iff_example = new-eq-none_iff {A = ℕ} 0 limit six

abbrev eight_slots : Queue ℕ
eight_slots = record { cap = 8; elems = replicate 8 0; head = 0; len = 0; tail = 0 }

new-IsValid_example : IsValid eight_slots × (contents 0 eight_slots ≡ [])
unfolding new
new-IsValid_example = new-IsValid 0 limit 8 (omega arith) refl
