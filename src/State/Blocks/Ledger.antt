-- ===== src/State/Blocks/Ledger.antt =====
-- state/process.go and indexdb/indexdb.go together: a block that is processed and then indexed changes
-- a tracked account's balance by what the block's transfer events say.
use rosetta.Shared.{
  ℕ, ◌+◌, ◌^◌, ◌<◌, ◌≡◌, ap, ◌∙◌, Bool, true, false, some, List, Bytes, find, find_or, length,
  arith, ◌⊎◌, if◌then◌else◌,
}
use rosetta.Shared.Results.{ok, >>=-eq-ok, ok_inj}
use rosetta.Crypto.{Curve}
use rosetta.IndexDb.{Store, balance_by_height}
use rosetta.IndexDb.Database.{Badger, Codec}
use rosetta.IndexDb.Write.{index, indexed_meta}
use rosetta.IndexDb.Write.Ledger.{index_balance, index-IsStore}
use rosetta.IndexDb.Write.Step.{IsStore}
use rosetta.Model.{BlockMeta, IndexedBlock}
use rosetta.State.{Indexer}
use rosetta.State.Blocks.{Spork, attempt, commit, check_integrity, self_sealed}
use rosetta.State.EventHashes.{event_hashes}
use rosetta.State.Cadence.{Cadence}
use rosetta.State.Execution.{ProtoResult}
use rosetta.State.Flow.{Flow}
use rosetta.State.Transactions.{CollectionData, Progress, process_collections}
use rosetta.State.Transactions.Blocks.{
  no_progress, events_credit, events_debit, process_collections-AreTxns,
  process_collections_conserves,
}

-- The block that a round hands to `Index`.
abbrev pub block_of : ℕ → Progress → IndexedBlock
block_of timestamp pr = record { timestamp = timestamp; transactions = pr.transactions }

module _ (b : Badger) (codec : Codec) (i : Indexer) (s : Store b) (top : BlockMeta) (hash : Bytes)
    (timestamp : ℕ) (pr : Progress) where
  commit-index :
      {i' : Indexer} {s' : Store b}
      → commit b codec i s (top.height + 1) hash timestamp pr ≡ ok (i', s')
      → index b codec s (top.height + 1) hash (block_of timestamp pr) ≡ ok s'
  unfolding commit
  commit-index e =
      let (t, e1, r1) =
        >>=-eq-ok (index b codec s (top.height + 1) hash (block_of timestamp pr)) _ e in
      e1 ∙ ap (λ (x : Indexer × Store b). ok x.1) (ok_inj r1)

  attempt-collections :
      (tolerance : ℕ) (spork : Spork) (f : Flow) (c : Cadence) (curve : Curve) (skip : Bool)
      (cols : List CollectionData) (exec_result : ProtoResult)
      → attempt i tolerance spork (top.height + 1) hash f c curve skip cols exec_result ≡ ok pr
      → process_collections i c curve hash skip cols no_progress ≡ ok pr
  unfolding attempt
  attempt-collections tolerance spork f c curve skip cols exec_result e =
      let (hashes, e1, r1) =
        >>=-eq-ok (event_hashes f spork.version (self_sealed spork (top.height + 1)) cols) _ e in
      let (unsealed, e2, r2) =
        >>=-eq-ok
          (if skip
            then ok false
            else check_integrity i tolerance spork (top.height + 1) hash f hashes exec_result)
          _ r1 in
      r2

  -- On a well-formed store whose next height is below 2^64, if a round for that height succeeds and
  -- what it made is committed, then the store is well formed with the new block as its tip, and for an
  -- account of 8 bytes in the indexer's map of accounts (as a proxy account, or as another account
  -- that is no fee address) the balance at the new height is the old one plus what the transfer events of the block's
  -- transactions bring to it less what they take from it, if the old balance with the first sum, and
  -- the second sum, are below 2^63. Each transaction counts modulo 2^64 in these sums, but for what a
  -- proxy account sends; only proxy events count for a proxy account, and only others for another.
  pub block_balance :
      {i' : Indexer} {s' : Store b} (tolerance : ℕ) (spork : Spork) (f : Flow) (c : Cadence)
      (curve : Curve) (skip : Bool) (cols : List CollectionData) (exec_result : ProtoResult)
      (a : Bytes) (p : Bool) (old : ℕ)
      → IsStore b codec s top
      → top.height + 1 < 2 ^ 64
      → attempt i tolerance spork (top.height + 1) hash f c curve skip cols exec_result ≡ ok pr
      → commit b codec i s (top.height + 1) hash timestamp pr ≡ ok (i', s')
      → length a ≡ 8
      → find a i.accts ≡ some p
      → (p ≡ true) ⊎ (find_or false a i.fee_addrs ≡ false)
      → balance_by_height b s a top.height ≡ ok old
      → old + events_credit a p pr.transactions < 2 ^ 63
      → events_debit a p pr.transactions < 2 ^ 63
      → IsStore b codec s' (indexed_meta b codec (top.height + 1) hash (block_of timestamp pr))
        × ((new : ℕ) × (balance_by_height b s' a (top.height + 1) ≡ ok new)
            × (new + events_debit a p pr.transactions ≡ old + events_credit a p pr.transactions))
  block_balance tolerance spork f c curve skip cols exec_result a p old store room e1 e2 len known
        no_fee was few_in few_out =
      let made = attempt-collections tolerance spork f c curve skip cols exec_result e1 in
      let txns = process_collections-AreTxns i c curve hash skip cols made in
      let (debit, credit) =
        process_collections_conserves i c curve a p hash skip cols len known no_fee made in
      let run = commit-index e2 in
      let (new, now, sum) =
        index_balance b codec s _ top hash (block_of timestamp pr) store room txns run a old len was
          (omega (arith, credit, few_in)) (omega (arith, debit, few_out)) in
      (
        index-IsStore b codec s _ top hash (block_of timestamp pr) store room txns run,
        (new, now, omega (arith, sum, debit, credit)),
      )
