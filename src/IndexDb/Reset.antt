-- ===== src/IndexDb/Reset.antt =====
-- indexdb/indexdb.go: `ResetTo`.
pub mod Keys
pub mod Blocks
pub mod Collect
pub mod Left
pub mod History
mod Tests
use rosetta.Shared.{
  ℕ, ◌+◌, ◌^◌, ◌%◌, Bool, true, false, ◌||◌, Option, none, some, List, [], ◌∷◌, ◌++◌, Bytes,
  bytes_eq, bytes_lt, length, drop, take, ltb, leb, if◌then◌else◌,
}
use rosetta.Shared.Results.{Result, ok, err, crash, ◌>>=◌, or_crash}
use rosetta.Model.{BlockMeta, IndexedBlock}
use rosetta.IndexDb.{
  Error, Store, uint64, block_key, hash2height_key, latest_key, latest, hash_for_height, read_block,
}
use rosetta.IndexDb.Database.{Badger, Codec}
use rosetta.IndexDb.Write.{indexed_meta}

-- The height that stands behind the first `n` bytes of a key.
abbrev pub height_at : ℕ → Bytes → Result Error ℕ
height_at n key = uint64 (drop n key)

-- The keys of items above the base height.
pub stale_keys : ℕ → ℕ → List (Bytes × Bytes) → Result Error (List Bytes)
stale_keys n base [] = ok []
stale_keys n base ((key, val) ∷ items) = do
  height ← height_at n key
  rest ← stale_keys n base items
  ok (if ltb base height then key ∷ rest else rest)

-- The keys of the blocks above the base height, and the height of the last one that is kept.
pub stale_blocks : ℕ → ℕ → List (Bytes × Bytes) → Result Error (ℕ × List Bytes)
stale_blocks base last [] = ok (last, [])
stale_blocks base last ((key, hash) ∷ items) = do
  height ← height_at 1 key
  found ← stale_blocks base (if ltb base height then last else height) items
  ok (
    found.0,
    if ltb base height then key ∷ block_key height ∷ hash2height_key hash ∷ found.1 else found.1,
  )

insert_key : Bytes → List Bytes → List Bytes
insert_key k [] = k ∷ []
insert_key k (j ∷ ks) = let rest = insert_key k ks in if bytes_lt j k then j ∷ rest else k ∷ j ∷ ks

-- `sort.Slice` by `bytes.Compare`.
pub sort_keys : List Bytes → List Bytes
unfolding insert_key
sort_keys [] = []
sort_keys (k ∷ ks) = insert_key k (sort_keys ks)

module _ (b : Badger) where
  pub delete_keys : b.Db → List Bytes → b.Db
  delete_keys d [] = d
  delete_keys d (key ∷ keys) = delete_keys (b.delete d key) keys

  -- What `ResetTo` reads before it deletes: the last height kept, and the keys to delete.
  pub stale : b.Db → ℕ → Result Error (ℕ × List Bytes)
  unfolding stale_keys stale_blocks
  stale d base = do
    accts ← stale_keys 9 base (b.items d (b'a' ∷ []))
    proxies ← stale_keys 9 base (b.items d (b'p' ∷ []))
    blocks ← stale_blocks base 0 (b.items d (b'd' ∷ []))
    ok (blocks.0, accts ++ proxies ++ blocks.1)

module _ (b : Badger) (c : Codec) where
  pub set_latest : Store b → ℕ → Result Error (Store b)
  set_latest s last = do
    block ← read_block b c s last
    hash ← hash_for_height b s last
    value ← or_crash (c.encode_meta (indexed_meta b c last hash block))
    ok (record s {
      db = b.set s.db latest_key value;
      latest = some (indexed_meta b c last hash block);
    })

  -- An error behind the deletions leaves the store without the deleted keys.
  settle : Store b → Result Error (Store b) → Store b × Result Error (Unit {0})
  settle s (ok s') = (s', ok tt)
  settle s (err e) = (s, err e)
  settle s crash = (s, crash)

  pub delete_above : Store b → Result Error (ℕ × List Bytes) → Store b × Result Error (Unit {0})
  unfolding delete_keys sort_keys set_latest settle
  delete_above s (ok (last, keys)) =
      let s' : Store b = record s { db = delete_keys b s.db (sort_keys keys) } in
      settle s' (set_latest s' last)
  delete_above s (err e) = (s, err e)
  delete_above s crash = (s, crash)

  pub reset_from :
      Store b → ℕ → Result Error (Store b × Option BlockMeta) → Store b × Result Error (Unit {0})
  unfolding delete_above stale
  reset_from s base (ok (s', some top)) =
      if leb top.height base then (s', ok tt) else delete_above s' (stale b s'.db base)
  reset_from s base (ok (s', none)) = (s', crash)
  reset_from s base (err e) = (s, err e)
  reset_from s base crash = (s, crash)

  -- `ResetTo`: the store that it leaves, and what it returns.
  pub reset_to : Store b → ℕ → Store b × Result Error (Unit {0})
  unfolding reset_from
  reset_to s base = reset_from s base (latest b c s)
