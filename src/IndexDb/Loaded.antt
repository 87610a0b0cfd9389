-- ===== src/IndexDb/Loaded.antt =====
-- indexdb/indexdb.go: `Latest` with the field filled, and reads that do not depend on the genesis field.
use rosetta.Shared.{ℕ, ◌≡◌, refl, Option, some}
use rosetta.Shared.Results.{ok}
use rosetta.Model.{BlockMeta}
use rosetta.IndexDb.{Store, latest, hash_for_height, read_block}
use rosetta.IndexDb.Database.{Badger, Codec}

module _ (b : Badger) (c : Codec) (s : Store b) where
  pub latest_known : (m : BlockMeta) → s.latest ≡ some m → latest b c s ≡ ok (s, some m)
  unfolding latest
  latest_known m e = rw e

  pub hash_for_height-genesis :
      (o : Option BlockMeta) (h : ℕ)
      → hash_for_height b (record s { genesis = o }) h ≡ hash_for_height b s h
  unfolding hash_for_height
  hash_for_height-genesis o h = refl

  pub read_block-genesis :
      (o : Option BlockMeta) (h : ℕ)
      → read_block b c (record s { genesis = o }) h ≡ read_block b c s h
  unfolding read_block
  read_block-genesis o h = refl
