-- ===== src/IndexDb/Write/Runs.antt =====
-- indexdb/indexdb.go: calls of `Index` one after another, as the indexer makes them.
use rosetta.Shared.{
  ℕ, ◌+◌, ◌^◌, ◌≤◌, ◌<◌, ◌≡◌, refl, ap, sym, ◌∙◌, ◌≢◌, true, false, some, List, [], ◌∷◌, Bytes,
  arith, leb, if◌then◌else◌, length, ◌==◌, ltb,
}
use native.Mathlib.Decide.{ℕ_discrete, dec_lt}
use rosetta.Shared.Results.{Result, ok, crash, ◌>>=◌, >>=-eq-ok, ok_inj}
use rosetta.Model.{BlockMeta, IndexedBlock}
use rosetta.IndexDb.{Error, Store, hash_for_height, read_block}
use rosetta.IndexDb.Database.{Badger, Codec}
use rosetta.IndexDb.Write.{add64, index}
use rosetta.IndexDb.Write.Totals.{AreTxns}
use rosetta.IndexDb.Write.Step.{IsStore}
use rosetta.IndexDb.Write.Ledger.{index-IsStore}
use rosetta.IndexDb.Write.Lookup.{index_lookup, index_lookup_other}

-- The arguments of a call of `Index`.
pub record Call : Type 0 where
  pub height : ℕ
  pub hash : Bytes
  pub block : IndexedBlock

-- Every block has well-formed operations.
abbrev pub AreCalls : List Call → Type 0
AreCalls [] = Unit {0}
AreCalls (x ∷ xs) = AreTxns x.block.transactions × AreCalls xs

-- The highest height of a tip and of the calls.
unfoldable pub highest : ℕ → List Call → ℕ
highest top [] = top
highest top (x ∷ xs) = highest (if ltb top x.height then x.height else top) xs

higher : (n m : ℕ) → m ≡ n + 1 → n + 1 ≡ (if ltb n m then m else n)
higher n m e = ground arith

not_higher : (n m : ℕ) → m ≤ n → n ≡ (if ltb n m then m else n)
not_higher n m le = ground arith

module _ {A : Type 0} (f : Call → A) where
  -- What the first call for a height gave, and what was there if there is no call for it.
  unfoldable pub first_of : Result Error A → ℕ → List Call → Result Error A
  first_of old i [] = old
  first_of old i (x ∷ xs) = if x.height == i then ok (f x) else first_of old i xs

  -- What stands at a height behind the calls: up to the old tip what stood there before them, and
  -- above it what the first call for it gave.
  unfoldable pub found : Result Error A → ℕ → ℕ → List Call → Result Error A
  found old top i calls = if leb i top then old else first_of old i calls

  found_skip :
      (old : Result Error A) (top i : ℕ) (x : Call) (xs : List Call)
      → x.height ≤ top
      → found old top i xs ≡ found old top i (x ∷ xs)
  unfolding found first_of
  found_skip old top i x xs le = ground arith

  found_turn :
      (old next : Result Error A) (top i : ℕ) (x : Call) (xs : List Call)
      → x.height ≡ top + 1
      → (i ≡ top + 1 → next ≡ ok (f x))
      → (i ≢ top + 1 → next ≡ old)
      → found next (top + 1) i xs ≡ found old top i (x ∷ xs)
  unfolding found first_of
  found_turn old next top i x xs turn at_turn else_old = elim (ℕ_discrete i (top + 1)) [
    | yes here ↦ let new = at_turn here in ground arith
    | no other ↦ let kept = else_old other in ground arith
  ]

module _ (b : Badger) (c : Codec) where
  unfoldable pub index_all : Store b → List Call → Result Error (Store b)
  index_all s [] = ok s
  index_all s (x ∷ xs) = do s' ← index b c s x.height x.hash x.block; index_all s' xs

  -- What a run makes of the store that it is given.
  record Ran (s s' : Store b) (top i : ℕ) (calls : List Call) : Type 0 where
    tip : BlockMeta
    store : IsStore b c s' tip
    height_eq : tip.height ≡ highest top calls
    hash_eq : hash_for_height b s' i ≡ found (λ x. x.hash) (hash_for_height b s i) top i calls
    block_eq : read_block b c s' i ≡ found (λ x. x.block) (read_block b c s i) top i calls

  -- A call for any height but the next one that does not exit leaves the store alone.
  out_of_turn :
      (s s' : Store b) (top : BlockMeta) (x : Call)
      → s.latest ≡ some top
      → top.height + 1 < 2 ^ 64
      → x.height ≢ top.height + 1
      → index b c s x.height x.hash x.block ≡ ok s'
      → (s ≡ s') × (x.height ≤ top.height)
  unfolding index
  out_of_turn s s' top x latest_eq room ne e =
      let turn : (x.height == add64 top.height 1) ≡ false = ground arith in
      elim (dec_lt top.height x.height) [
        | yes above ↦
            let exits : index b c s x.height x.hash x.block ≡ crash =
              rw (latest_eq, above_turn above, turn) in
            let clash = sym exits ∙ e in cc
        | no below ↦
            let past : leb x.height top.height ≡ true = ground arith in
            let stays : index b c s x.height x.hash x.block ≡ ok s = rw (latest_eq, past) in
            (ok_inj (sym stays ∙ e), omega arith)
      ]
    where
      above_turn : top.height < x.height → leb x.height top.height ≡ false
      above_turn lt = ground arith

  -- A run of calls of `Index` that all succeed, with well-formed operations, on a well-formed store
  -- whose height leaves room for them below 2^64.
  index_all-Ran :
      (calls : List Call) (s s' : Store b) (top : BlockMeta) (i : ℕ)
      → IsStore b c s top
      → top.height + length calls < 2 ^ 64
      → AreCalls calls
      → index_all s calls ≡ ok s'
      → i < 2 ^ 64
      → Ran s s' top.height i calls
  unfolding index_all highest
  index_all-Ran [] s s' top i store room v e i_lt =
      let same = ok_inj e in
      rw (← same) (record {
        tip = top;
        store = store;
        height_eq = refl;
        hash_eq = unfold found first_of in ground arith;
        block_eq = unfold found first_of in ground arith;
      })
  index_all-Ran (x ∷ xs) s s' top i store room (v, vs) e i_lt =
      let (mid, e1, rest) = >>=-eq-ok (index b c s x.height x.hash x.block) _ e in
      elim (ℕ_discrete x.height (top.height + 1)) [
        | yes turn ↦
            let run = rw turn at e1 in
            let next =
              index-IsStore b c s mid top x.hash x.block store (omega (arith, room)) v run in
            let r = index_all-Ran xs mid s' _ i next (omega (arith, room)) vs rest i_lt in
            let look =
              index_lookup b c s mid top x.hash x.block store (omega (arith, room)) v run in
            let other =
              index_lookup_other b c s mid top x.hash x.block store (omega (arith, room)) v run i
                i_lt in
            record {
              tip = r.tip;
              store = r.store;
              height_eq = r.height_eq ∙ ap (λ n. highest n xs) (higher top.height x.height turn);
              hash_eq =
                  r.hash_eq
                  ∙ found_turn (λ y. y.hash) (hash_for_height b s i) (hash_for_height b mid i)
                      top.height i x xs turn (λ p. rw p look.0) (λ p. (other p).0);
              block_eq =
                  r.block_eq
                  ∙ found_turn (λ y. y.block) (read_block b c s i) (read_block b c mid i) top.height
                      i x xs turn (λ p. rw p look.2) (λ p. (other p).1);
            }
        | no ne ↦
            let (same, low) = out_of_turn s mid top x store.latest_eq (omega arith) ne e1 in
            let r = index_all-Ran xs s s' top i store (omega arith) vs (rw (← same) at rest) i_lt in
            record {
              tip = r.tip;
              store = r.store;
              height_eq = r.height_eq ∙ ap (λ n. highest n xs) (not_higher top.height x.height low);
              hash_eq =
                  r.hash_eq
                  ∙ found_skip (λ y. y.hash) (hash_for_height b s i) top.height i x xs low;
              block_eq =
                  r.block_eq ∙ found_skip (λ y. y.block) (read_block b c s i) top.height i x xs low;
            }
      ]

  -- After a run of calls of `Index` that all succeed, with well-formed operations, on a well-formed
  -- store whose height plus the number of calls is below 2^64, the store is well formed and its tip
  -- is at the highest of the old tip's height and the heights of the calls. At every height below
  -- 2^64 the hash and the block are as before up to the old tip, and above it they are those of the
  -- first call for that height, or as before if there is no call for it.
  pub index_all_chain :
      (calls : List Call) (s s' : Store b) (top : BlockMeta) (i : ℕ)
      → IsStore b c s top
      → top.height + length calls < 2 ^ 64
      → AreCalls calls
      → index_all s calls ≡ ok s'
      → i < 2 ^ 64
      → (tip : BlockMeta) × IsStore b c s' tip
        × (tip.height ≡ highest top.height calls)
        × (hash_for_height b s' i ≡ found (λ x. x.hash) (hash_for_height b s i) top.height i calls)
        × (read_block b c s' i ≡ found (λ x. x.block) (read_block b c s i) top.height i calls)
  index_all_chain calls s s' top i store room v e i_lt =
      let r = index_all-Ran calls s s' top i store room v e i_lt in
      (r.tip, r.store, r.height_eq, r.hash_eq, r.block_eq)
