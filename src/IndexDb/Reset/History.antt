-- ===== src/IndexDb/Reset/History.antt =====
-- indexdb/indexdb.go: `ResetTo` on a well-formed store.
use rosetta.Shared.{
  ℕ, ◌^◌, ◌≤◌, ◌<◌, ◌≡◌, refl, ap, sym, ◌∙◌, true, false, Option, none, some, Bytes, bytes_eq,
  has_prefix, arith, leb, Option-cases, inl, inr, from_big_endian,
}
use rosetta.Shared.Results.{Result, ok, err, ok_inj, ◌>>=◌, or_err}
use rosetta.Model.{BlockMeta, IndexedBlock}
use rosetta.IndexDb.{
  Error, Store, account_key, height2hash_key, block_key, latest_key, latest, hash_for_height,
  read_block, balance_by_height, block_not_indexed, corrupt_block,
}
use rosetta.IndexDb.Database.{Badger, Codec}
use rosetta.IndexDb.Indexed.{account_key_parts, uint64-be64}
use rosetta.IndexDb.Changes.{latest_change_ext, latest_change_stays}
use rosetta.IndexDb.Balances.{change, balance_by_height_refines}
use rosetta.IndexDb.Write.{indexed_meta}
use rosetta.IndexDb.Write.Updates.{set-IsIndexed}
use rosetta.IndexDb.Write.Step.{IsStore}
use rosetta.IndexDb.Reset.{height_at, reset_to, reset_from, delete_above, set_latest, settle}
use rosetta.IndexDb.Reset.Collect.{IsStaleKey, Collection}
use rosetta.IndexDb.Reset.Left.{
  fresh_account, fresh_hash, fresh_block, col, base_lt, left, stays, left-IsIndexed,
}
use mathlib.Core.Option

module _ (b : Badger) (c : Codec) (s : Store b) (top : BlockMeta) (base : ℕ)
    (store : IsStore b c s top) (lower : base < top.height) (hash value : Bytes)
    (block : IndexedBlock) (hash_eq : hash_for_height b s base ≡ ok hash)
    (block_eq : read_block b c s base ≡ ok block)
    (value_eq : c.encode_meta (indexed_meta b c base hash block) ≡ some value) where
  abbrev col' : Collection b s.db top.height store.indexed base
  col' = col b c s top base store lower

  abbrev left' : b.Db
  left' = left b c s top base store lower

  abbrev mid : Store b
  mid = record { db = left'; genesis = s.genesis; latest = some top }

  -- The store that `ResetTo` leaves.
  abbrev reset_store : Store b
  reset_store = record {
    db = b.set left' latest_key value;
    genesis = s.genesis;
    latest = some (indexed_meta b c base hash block);
  }

  keep :
      (k : Bytes)
      → (IsStaleKey base k → true ≡ false)
      → bytes_eq latest_key k ≡ false
      → b.get reset_store.db k ≡ b.get s.db k
  keep k fresh other =
      b.get-set left' latest_key value k ∙ rw other (stays b c s top base store lower k fresh)

  mid_hash : hash_for_height b mid base ≡ ok hash
  mid_hash =
      unfold hash_for_height in
      ap (λ (o : Option Bytes). or_err o block_not_indexed)
        (stays b c s top base store lower (height2hash_key base)
          (fresh_hash base base (omega arith) (base_lt b c s top base store lower)))
      ∙ hash_eq

  mid_block : read_block b c mid base ≡ ok block
  mid_block =
      unfold read_block in
      ap
        (λ (o : Option Bytes).
          or_err o block_not_indexed >>= λ v. or_err (c.decode_block v) corrupt_block)
        (stays b c s top base store lower (block_key base)
          (fresh_block base base (omega arith) (base_lt b c s top base store lower)))
      ∙ block_eq

  base_hash : b.get s.db (height2hash_key base) ≡ some hash
  base_hash = stored (b.get s.db (height2hash_key base)) (unfold hash_for_height in hash_eq)
    where
      stored : (o : Option Bytes) → or_err o block_not_indexed ≡ ok hash → o ≡ some hash
      stored none e = cc
      stored (some w) e = ap some (ok_inj e)

  set_latest_eq : set_latest b c mid base ≡ ok reset_store
  unfolding set_latest
  set_latest_eq = rw (mid_block, mid_hash, value_eq)

  -- `ResetTo` below the tip succeeds if the base height is stored, and leaves `reset_store`.
  reset_to_runs : reset_to b c s base ≡ (reset_store, ok tt)
  unfolding reset_to reset_from delete_above settle latest
  reset_to_runs =
      let below : leb top.height base ≡ false = ground arith in
      rw (
        store.latest_eq,
        below,
        col'.eq,
        col'.kept_eq (base_lt b c s top base store lower) base_hash,
        set_latest_eq,
      )

  reset_store-IsStore : IsStore b c reset_store (indexed_meta b c base hash block)
  reset_store-IsStore = record {
    latest_eq = refl;
    indexed =
        unfold has_prefix in
        set-IsIndexed b left' base latest_key value (left-IsIndexed b c s top base store lower)
          (λ p. cc) (λ p. cc) (λ p. cc);
  }

  abbrev after : Store b
  after = (reset_to b c s base).0

  after_eq : after ≡ reset_store
  after_eq = ap (λ (r : Store b × Result Error (Unit {0})). r.0) reset_to_runs

  -- On a well-formed store, `ResetTo` to a height below the tip whose block and hash are stored,
  -- and whose meta data can be encoded, succeeds and leaves a well-formed store with that
  -- height's block as its tip.
  pub reset_to-IsStore :
      ((reset_to b c s base).1 ≡ ok tt)
      × IsStore b c (reset_to b c s base).0 (indexed_meta b c base hash block)
  reset_to-IsStore = (
    ap (λ (r : Store b × Result Error (Unit {0})). r.1) reset_to_runs,
    coe 1 0 (i. IsStore b c (after_eq i) (indexed_meta b c base hash block)) reset_store-IsStore,
  )

  keep_after :
      (k : Bytes)
      → (IsStaleKey base k → true ≡ false)
      → bytes_eq latest_key k ≡ false
      → b.get after.db k ≡ b.get s.db k
  keep_after k fresh other = ap (λ (x : Store b). b.get x.db k) after_eq ∙ keep k fresh other

  past_change : (a : Bytes) (i : ℕ) → i ≤ base → change b after.db a i ≡ change b s.db a i
  past_change a i le =
      unfold change bytes_eq in
      ap (Option.map (from_big_endian 0)) (
        keep_after (account_key a i)
          (fresh_account base i le (omega (arith, (base_lt b c s top base store lower))) a) refl)

  -- On a well-formed store, `ResetTo` to a height below the tip whose block and hash are stored,
  -- and whose meta data can be encoded, leaves the balances, the hashes and the blocks at the
  -- heights up to that one as they were.
  pub reset_to_keeps :
      (i : ℕ)
      → i ≤ base
      → ((a : Bytes) → balance_by_height b (reset_to b c s base).0 a i ≡ balance_by_height b s a i)
        × (hash_for_height b (reset_to b c s base).0 i ≡ hash_for_height b s i)
        × (read_block b c (reset_to b c s base).0 i ≡ read_block b c s i)
  unfolding hash_for_height read_block bytes_eq
  reset_to_keeps i le =
      let i_lt : i < 2 ^ 64 = omega (arith, (base_lt b c s top base store lower)) in
      (
        λ a.
            balance_by_height_refines b after base a i reset_to-IsStore.1.indexed i_lt
            ∙ ap ok (
                latest_change_ext (change b after.db a) (change b s.db a) i
                  (λ j p. past_change a j (omega arith)))
            ∙ sym (balance_by_height_refines b s top.height a i store.indexed i_lt),
        ap (λ (o : Option Bytes). or_err o block_not_indexed)
            (keep_after (height2hash_key i) (fresh_hash base i le i_lt) refl),
        ap
            (λ (o : Option Bytes).
              or_err o block_not_indexed >>= λ v. or_err (c.decode_block v) corrupt_block)
            (keep_after (block_key i) (fresh_block base i le i_lt) refl),
      )

  no_hash : (i : ℕ) → base < i → i < 2 ^ 64 → b.get after.db (height2hash_key i) ≡ none
  no_hash i gt i_lt = elim (Option-cases (b.get after.db (height2hash_key i))) [
    | inl e ↦ e
    | inr (w, e) ↦
        let item =
          reset_to-IsStore.1.indexed.hashes (height2hash_key i) w e (unfold has_prefix in refl) in
        let same : i ≡ item.height = ok_inj (
          sym (uint64-be64 i i_lt)
          ∙ ap (height_at 1) item.key_eq
          ∙ uint64-be64 item.height
              (omega (arith, item.height_le, (base_lt b c s top base store lower)))) in
        absurd (omega (arith, item.height_le))
  ]

  no_change : (a : Bytes) (i : ℕ) → base < i → i < 2 ^ 64 → change b after.db a i ≡ none
  no_change a i gt i_lt = elim (Option-cases (b.get after.db (account_key a i))) [
    | inl e ↦ (unfold change in rw e)
    | inr (w, e) ↦
        let item =
          reset_to-IsStore.1.indexed.accounts (account_key a i) w e (unfold has_prefix in refl) in
        let parts =
          account_key_parts a item.acct i item.height i_lt
            (omega (arith, item.height_le, (base_lt b c s top base store lower))) item.key_eq in
        absurd (omega (arith, item.height_le, parts.1))
  ]

  -- On a well-formed store, after `ResetTo` to a height below the tip whose block and hash are
  -- stored, and whose meta data can be encoded, no later height below 2^64 has a hash, and every
  -- account has at each of them the balance that it had at that height.
  pub reset_to_drops :
      (i : ℕ)
      → base < i
      → i < 2 ^ 64
      → (hash_for_height b (reset_to b c s base).0 i ≡ err block_not_indexed)
        × ((a : Bytes)
            → balance_by_height b (reset_to b c s base).0 a i ≡ balance_by_height b s a base)
  unfolding hash_for_height
  reset_to_drops i gt i_lt = (
    rw (no_hash i gt i_lt),
    λ a.
        balance_by_height_refines b after base a i reset_to-IsStore.1.indexed i_lt
        ∙ ap ok (
            latest_change_stays (change b after.db a) base i (omega arith)
              (λ j p q. no_change a j p (omega arith)))
        ∙ sym (
            balance_by_height_refines b after base a base reset_to-IsStore.1.indexed
              (base_lt b c s top base store lower))
        ∙ (reset_to_keeps base (omega arith)).0 a,
  )
