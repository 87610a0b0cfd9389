-- ===== src/State/Parents.antt =====
-- state/state.go: the parents of the blocks of past sporks, the order in which those are processed, the
-- backoff, and `handleResyncFrom`.
pub mod Chained
pub mod Resync
use rosetta.Shared.{
  ℕ, zero, suc, ◌+◌, ◌-◌, ◌*◌, ◌%◌, ◌^◌, Bool, true, false, not, ◌&&◌, Option, none, some, List, [],
  ◌∷◌, ◌++◌, Bytes, bytes_eq, find, put, ◌==◌, if◌then◌else◌, ltb, leb,
}
use rosetta.Shared.Results.{Result, ok, err, crash, ◌>>=◌, ◌>>◌, or_crash}
use rosetta.IndexDb.{Error, Store, genesis, latest}
use rosetta.IndexDb.Database.{Badger, Codec}
use rosetta.IndexDb.Reset.{reset_to}
use rosetta.Model.{BlockMeta}
use rosetta.State.{Indexer}
use rosetta.State.Events.{Abort, retry, require}
use rosetta.State.Flow.{Flow, Seal}
use rosetta.State.Headers.{ProtoHeader, ProtoBlock, verify_block_hash}

-- `nextBackoff`; a Duration is an int64, in two's complement.
pub next_backoff : ℕ → ℕ → ℕ
next_backoff max_interval d =
    let twice = d * 2 % 2 ^ 64 in
    if ltb twice (2 ^ 63) && ltb max_interval twice then max_interval else twice

-- `i.sealedResults[string(seal.BlockId)] = string(seal.ResultId)`
unfoldable pub add_seals : List Seal → List (Bytes × Bytes) → List (Bytes × Bytes)
add_seals [] m = m
add_seals (seal ∷ seals) m = add_seals seals (put seal.block_id seal.result_id m)

-- One round of `getVerifiedParent`, behind the fetching of the header and the block: the parent, and
-- the sealed results.
unfoldable pub verified_parent :
    (f : Flow)
    → ℕ
    → Bytes
    → Bytes
    → ProtoHeader f
    → ProtoBlock
    → List (Bytes × Bytes)
    → Result Abort (Bytes × List (Bytes × Bytes))
unfolding add_seals verify_block_hash
verified_parent f version chain_id hash hdr block sealed = do
  require (bytes_eq hdr.id hash)
  require (bytes_eq block.id hash)
  verified ← verify_block_hash f version chain_id hash hdr block
  require verified
  ok (block.parent_id, add_seals block.block_seals sealed)

-- The loop of `indexPastSporks` down from a height, for `parent_of`, the answers of
-- `getVerifiedParent`: the hashes, in the order of their blocks, and the last parent. `none` is a nil
-- parent, on which the loop ends.
unfoldable pub hashes_down :
    (Bytes → ℕ → Option Bytes) → ℕ → ℕ → Bytes → List Bytes → Option (List Bytes × Bytes)
hashes_down parent_of zero start parent hashes = some (hashes, parent)
hashes_down parent_of (suc n) start parent hashes = elim (parent_of parent (start + n)) [
  | none ↦ none
  | some next ↦ hashes_down parent_of n start next (parent ∷ hashes)
]

-- The blocks that `indexPastSporks` has `processBlock` process, in order, with their heights; `none`
-- where it returns before it processes one.
unfoldable pub numbered : ℕ → List Bytes → List (ℕ × Bytes)
numbered height [] = []
numbered height (h ∷ hs) = (height, h) ∷ numbered (height + 1) hs

unfoldable pub index_past_sporks :
    (Bytes → ℕ → Option Bytes) → BlockMeta → BlockMeta → ℕ → Option (List (ℕ × Bytes))
unfolding hashes_down numbered
index_past_sporks parent_of live_root last_indexed start =
    if ltb live_root.height start
    then (if bytes_eq last_indexed.hash [] then some [] else none)
    else elim (hashes_down parent_of (live_root.height - start) start live_root.parent
        (live_root.hash ∷ [])) [
          | none ↦ none
          | some r ↦ if bytes_eq last_indexed.hash r.1 then some (numbered start r.0) else none
        ]

-- `handleResyncFrom`
pub handle_resync_from :
    (b : Badger) → Codec → ℕ → Indexer → Store b → Result Error (Indexer × Store b)
handle_resync_from b codec height i s = if height == 0 then ok (i, s) else (do
  (s', first) ← genesis b codec s
  root ← or_crash first
  if ltb height root.height then crash else resync (reset_to b codec s' height))
  where
    resync : Store b × Result Error (Unit {0}) → Result Error (Indexer × Store b)
    resync (s', crash) = crash
    resync (s', err e) = crash
    resync (s', ok u) = do
      (s'', last) ← latest b codec s'
      top ← or_crash last
      ok (record i { last_indexed = top }, s'')
