-- ===== src/State.antt =====
-- state/state.go: the indexer's fields that the processing of a block reads and writes.
pub mod Blocks
pub mod Cadence
pub mod EventHashes
pub mod Events
pub mod Execution
pub mod Flow
pub mod Headers
pub mod Operations
pub mod Parents
pub mod Tests
pub mod Transactions
use rosetta.Shared.{
  ℕ, ◌*◌, Bool, true, false, Option, none, some, List, [], ◌∷◌, Bytes, find, find_or, ltb,
  if◌then◌else◌,
}
use rosetta.Model.{BlockMeta}
use Prim.Native.String.{String}

-- A Go map whose values are always `true` is still a map; a missing key reads as `false`.
pub record Indexer : Type 0 where
  pub accts : List (Bytes × Bool)
  pub fee_addrs : List (Bytes × Bool)
  pub last_indexed : BlockMeta
  pub originators : List (Bytes × Bool)
  pub sealed_results : List (Bytes × Bytes)
  pub typ_proxy_created : String
  pub typ_proxy_deposited : String
  pub typ_proxy_transferred : String
  pub typ_tokens_deposited : String
  pub typ_tokens_withdrawn : String

module _ (i : Indexer) where
  unfoldable pub is_proxy : Bytes → List (Bytes × Bool) → Bool
  is_proxy addr new_accounts = elim (find addr i.accts) [
    | some is_proxy' ↦ is_proxy'
    | none ↦ find_or false addr new_accounts
  ]

  unfoldable pub is_tracked : Bytes → List (Bytes × Bool) → Bool
  is_tracked addr new_accounts = elim (find addr i.accts) [
    | some _ ↦ true
    | none ↦ elim (find addr new_accounts) [
      | some _ ↦ true
      | none ↦ find_or false addr i.originators
    ]
  ]
