-- ===== src/Model.antt =====
-- model/model.proto and model/model.go: the data that the index stores.
-- Deprecated fields, which no code writes, are left out.
use rosetta.Shared.{ℕ, Bytes, bytes_eq, Bool, false, List, Option, none, some, ◌&&◌, ◌==◌}
use Prim.Native.String.{String}

pub data OperationType : Type 0 where
  unspecified create_account fee proxy_transfer transfer : OperationType

pub data TransferType : Type 0 where
  unspecified deposit withdrawal fee_deposit proxy_deposit proxy_withdrawal : TransferType

pub record BlockMeta : Type 0 where
  pub hash : Bytes
  pub height : ℕ
  pub parent : Bytes
  pub timestamp : ℕ

pub record TransferEvent : Type 0 where
  pub amount : ℕ
  pub receiver : Bytes
  pub sender : Bytes
  pub typ : TransferType

pub record Operation : Type 0 where
  pub account : Bytes
  pub amount : ℕ
  pub proxy_public_key : Bytes
  pub receiver : Bytes
  pub typ : OperationType

pub record IndexedTransaction : Type 0 where
  pub error_message : String
  pub events : List TransferEvent
  pub failed : Bool
  pub hash : Bytes
  pub operations : List Operation

pub record IndexedBlock : Type 0 where
  pub timestamp : ℕ
  pub transactions : List IndexedTransaction

-- `Clone` copies field by field.
unfoldable pub clone : BlockMeta → BlockMeta
clone b = record { hash = b.hash; height = b.height; parent = b.parent; timestamp = b.timestamp }

-- `Equal`; `none` is a nil pointer.
unfoldable pub equal : Option BlockMeta → Option BlockMeta → Bool
equal none other = false
equal (some b) none = false
equal (some b) (some other) =
    bytes_eq b.hash other.hash && b.height == other.height && b.timestamp == other.timestamp
