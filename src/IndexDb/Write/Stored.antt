-- ===== src/IndexDb/Write/Stored.antt =====
-- indexdb/indexdb.go: the items that a block's own writes leave, in `Index` and in `SetGenesis`.
use rosetta.Shared.{ℕ, ◌≡◌, refl, ◌∙◌, some, Bytes, bytes_eq, bytes_eq_iff}
use rosetta.IndexDb.{be64, block_key, hash2height_key, height2hash_key, latest_key}
use rosetta.IndexDb.Database.{Badger}
use rosetta.IndexDb.Write.{set_block}

module _ (b : Badger) (d : b.Db) (h : ℕ) (hash bv lv : Bytes) where
  -- What each of the block's own writes leaves at its key.
  pub stored_latest : b.get (set_block b d h hash bv lv) latest_key ≡ some lv
  unfolding set_block
  stored_latest =
      b.get-set _ latest_key lv latest_key ∙ rw ((bytes_eq_iff latest_key latest_key).1 refl)

  pub stored_hash : b.get (set_block b d h hash bv lv) (height2hash_key h) ≡ some hash
  unfolding set_block bytes_eq
  stored_hash =
      b.get-set _ latest_key lv (height2hash_key h)
      ∙ b.get-set _ (height2hash_key h) hash (height2hash_key h)
      ∙ rw ((bytes_eq_iff (height2hash_key h) (height2hash_key h)).1 refl)

  pub stored_height : b.get (set_block b d h hash bv lv) (hash2height_key hash) ≡ some (be64 h)
  unfolding set_block bytes_eq
  stored_height =
      b.get-set _ latest_key lv (hash2height_key hash)
      ∙ b.get-set _ (height2hash_key h) hash (hash2height_key hash)
      ∙ b.get-set _ (hash2height_key hash) (be64 h) (hash2height_key hash)
      ∙ rw ((bytes_eq_iff (hash2height_key hash) (hash2height_key hash)).1 refl)

  pub stored_block : b.get (set_block b d h hash bv lv) (block_key h) ≡ some bv
  unfolding set_block bytes_eq
  stored_block =
      b.get-set _ latest_key lv (block_key h)
      ∙ b.get-set _ (height2hash_key h) hash (block_key h)
      ∙ b.get-set _ (hash2height_key hash) (be64 h) (block_key h)
      ∙ b.get-set d (block_key h) bv (block_key h)
      ∙ rw ((bytes_eq_iff (block_key h) (block_key h)).1 refl)
