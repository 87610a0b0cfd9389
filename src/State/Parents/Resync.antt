-- ===== src/State/Parents/Resync.antt =====
-- state/state.go: `handleResyncFrom` on a well-formed store.
use rosetta.Shared.{ℕ, ◌≤◌, ◌<◌, ◌≡◌, ◌∙◌, false, some, Bytes, arith, ltb, ◌==◌}
use rosetta.Shared.Results.{ok}
use rosetta.Model.{BlockMeta, IndexedBlock}
use rosetta.IndexDb.{Store, genesis, hash_for_height, read_block}
use rosetta.IndexDb.Loaded.{latest_known, hash_for_height-genesis, read_block-genesis}
use rosetta.IndexDb.Database.{Badger, Codec}
use rosetta.IndexDb.Write.{indexed_meta}
use rosetta.IndexDb.Write.Step.{IsStore}
use rosetta.IndexDb.Reset.{reset_to}
use rosetta.IndexDb.Reset.History.{reset_to-IsStore}
use rosetta.State.{Indexer}
use rosetta.State.Parents.{handle_resync_from}

-- On a well-formed store whose genesis block is read, in memory or in the database, and is not above a
-- positive height below the tip, whose block and hash are stored and whose meta data can be encoded,
-- `handleResyncFrom` succeeds: it leaves a well-formed store whose tip is the block at that height, and
-- makes that block the indexer's last one.
pub handle_resync_from_resets :
    (b : Badger) (c : Codec) (s : Store b) (top : BlockMeta) (base : ℕ) (i : Indexer)
    → IsStore b c s top
    → 0 < base
    → base < top.height
    → {hash value : Bytes} {block : IndexedBlock} {g : BlockMeta}
    → genesis b c s ≡ ok (record s { genesis = some g }, some g)
    → g.height ≤ base
    → hash_for_height b s base ≡ ok hash
    → read_block b c s base ≡ ok block
    → c.encode_meta (indexed_meta b c base hash block) ≡ some value
    → (s' : Store b) × (handle_resync_from b c base i s
        ≡ ok (record i { last_indexed = indexed_meta b c base hash block }, s'))
      × IsStore b c s' (indexed_meta b c base hash block)
unfolding handle_resync_from
handle_resync_from_resets b c s top base i store pos lower {hash} {value} {block} {g} ge le he be
      ve =
    let zero' : (base == 0) ≡ false = ground arith in
    let past : ltb base g.height ≡ false = ground arith in
    let (done, kept) = reset_to-IsStore b c s1 top base store1 lower hash value block he1 be1 ve in
    let next = reset_to b c s1 base in
    (next.0, rw (zero', ge, past, done, latest_known b c next.0 _ kept.latest_eq), kept)
  where
    s1 : Store b
    s1 = record s { genesis = some g }

    store1 : IsStore b c s1 top
    store1 = record { latest_eq = store.latest_eq; indexed = store.indexed }

    he1 : hash_for_height b s1 base ≡ ok hash
    he1 = hash_for_height-genesis b c s (some g) base ∙ he

    be1 : read_block b c s1 base ≡ ok block
    be1 = read_block-genesis b c s (some g) base ∙ be
