-- ===== src/IndexDb.antt =====
-- indexdb/indexdb.go: the store, its keys, and the calls that read it.
-- The database and the message encodings are parameters (Database.antt). A database call that fails
-- for a reason other than a missing key is not modelled. The mutex makes each access to `genesis`
-- and `latest` atomic; the calls here run one after another.
pub mod Database
pub mod Changes
pub mod Indexed
pub mod Balances
pub mod Loaded
pub mod Write
pub mod Reset
pub mod Purge
pub mod Accounts
use rosetta.Shared.{
  ℕ, ◌+◌, ◌-◌, ◌%◌, ◌^◌, Bool, true, false, not, ◌&&◌, Option, none, some, List, [], ◌∷◌, ◌++◌,
  Bytes, bytes_eq, has_prefix, big_endian, from_big_endian, length, take, replicate, ltb, leb, ◌==◌,
  if◌then◌else◌,
}
use rosetta.Shared.Results.{Result, ok, err, crash, ◌>>=◌, or_crash, or_err}
use rosetta.Model.{BlockMeta, IndexedBlock, clone}
use Database.{Badger, Codec}

pub data Error : Type 0 where
  block_not_indexed invalid_balance corrupt_block bad_genesis proxy_without_balance : Error

pub record BalanceData : Type 0 where
  pub balance : ℕ
  pub hash : Bytes
  pub height : ℕ

pub record BlockData : Type 0 where
  pub block : IndexedBlock
  pub hash : Bytes
  pub height : ℕ
  pub parent_hash : Bytes
  pub parent_height : ℕ

-- binary.BigEndian: `PutUint64` on 8 fresh bytes, and `Uint64`, which panics on fewer.
abbrev pub be64 : ℕ → Bytes
be64 v = big_endian 8 v

abbrev pub uint64 : Bytes → Result Error ℕ
uint64 b = if ltb (length b) 8 then crash else ok (from_big_endian 0 (take 8 b))

-- `copy` of an address into 8 zero bytes.
unfoldable pub pad8 : Bytes → Bytes
pad8 acct = take 8 (acct ++ replicate 8 0)

abbrev pub account_prefix : Bytes → Bytes
account_prefix acct = b'a' ∷ pad8 acct

abbrev pub account_key : Bytes → ℕ → Bytes
account_key acct height = account_prefix acct ++ be64 height

abbrev pub proxy_key : Bytes → ℕ → Bytes
proxy_key acct height = (b'p' ∷ pad8 acct) ++ be64 height

abbrev pub block_key : ℕ → Bytes
block_key height = b'b' ∷ be64 height

abbrev pub hash2height_key : Bytes → Bytes
hash2height_key hash = b'c' ∷ hash

abbrev pub height2hash_key : ℕ → Bytes
height2hash_key height = b'd' ∷ be64 height

abbrev pub genesis_key : Bytes
genesis_key = b'g' ∷ b'e' ∷ b'n' ∷ b'e' ∷ b's' ∷ b'i' ∷ b's' ∷ []

abbrev pub latest_key : Bytes
latest_key = b'l' ∷ b'a' ∷ b't' ∷ b'e' ∷ b's' ∷ b't' ∷ []

module _ (b : Badger) where
  pub record Store : Type 0 where
    pub db : b.Db
    pub genesis : Option BlockMeta
    pub latest : Option BlockMeta

module _ (b : Badger) where
  pub hash_for_height : Store b → ℕ → Result Error Bytes
  hash_for_height s height = or_err (b.get s.db (height2hash_key height)) block_not_indexed

  pub height_for_hash : Store b → Bytes → Result Error ℕ
  height_for_hash s hash = do
    val ← or_err (b.get s.db (hash2height_key hash)) block_not_indexed
    uint64 val

  -- The item that the reverse iterator stands at after `Seek(key)`, if it has the key's prefix.
  pub balance_at : Bytes → Option (Bytes × Bytes) → Result Error ℕ
  balance_at prefix none = ok 0
  balance_at prefix (some (key, val)) = if has_prefix prefix key then uint64 val else ok 0

  pub balance_by_height : Store b → Bytes → ℕ → Result Error ℕ
  unfolding balance_at
  balance_by_height s acct height =
      balance_at (account_prefix acct) (b.seek s.db (account_key acct height))

  pub has_item : Bytes → Option (Bytes × Bytes) → Bool
  has_item prefix none = false
  has_item prefix (some (key, val)) = has_prefix prefix key

  pub has_balance : Store b → Bytes → ℕ → Bool
  unfolding has_item
  has_balance s acct height = has_item (account_prefix acct) (b.seek s.db (account_key acct height))

  -- `BalanceByHash`
  pub balance_data_by_hash : Store b → Bytes → Bytes → Result Error BalanceData
  balance_data_by_hash s acct hash = do
    height ← height_for_hash s hash
    balance ← balance_by_height s acct height
    ok (record { balance = balance; hash = hash; height = height })

  -- `BalanceByHeight`
  pub balance_data_by_height : Store b → Bytes → ℕ → Result Error BalanceData
  balance_data_by_height s acct height = do
    balance ← balance_by_height s acct height
    hash ← hash_for_height s height
    ok (record { balance = balance; hash = hash; height = height })

module _ (b : Badger) (c : Codec) where
  -- `blockByHeight`
  pub read_block : Store b → ℕ → Result Error IndexedBlock
  read_block s height = do
    val ← or_err (b.get s.db (block_key height)) block_not_indexed
    or_err (c.decode_block val) corrupt_block

  -- `withParentInfo`; a store without genesis is a nil pointer.
  pub with_parent_info : Store b → Bytes → ℕ → IndexedBlock → Result Error BlockData
  with_parent_info s hash height block = do
    genesis ← or_crash s.genesis
    parent ←
        (if height == genesis.height
          then ok hash
          else hash_for_height b s ((height + 2 ^ 64 - 1) % 2 ^ 64))
    ok (record {
      block = block;
      hash = hash;
      height = height;
      parent_hash = parent;
      parent_height = if height == genesis.height then height else (height + 2 ^ 64 - 1) % 2 ^ 64;
    })

  pub block_by_hash : Store b → Bytes → Result Error BlockData
  block_by_hash s hash = do
    height ← height_for_hash b s hash
    block ← read_block s height
    with_parent_info s hash height block

  pub block_by_height : Store b → ℕ → Result Error BlockData
  block_by_height s height = do
    hash ← hash_for_height b s height
    block ← read_block s height
    with_parent_info s hash height block

  -- A field that is nil is read from the database and kept; a missing key leaves it nil.
  load_meta : Option BlockMeta → Option Bytes → Result Error (Option BlockMeta)
  load_meta (some m) stored = ok (some m)
  load_meta none none = ok none
  load_meta none (some val) = do m ← or_crash (c.decode_meta val); ok (some m)

  -- `Genesis`, `Latest`: the store with the field filled, and a copy of the field.
  pub genesis : Store b → Result Error (Store b × Option BlockMeta)
  unfolding load_meta
  genesis s = do m ← load_meta s.genesis (b.get s.db genesis_key); ok (record s { genesis = m }, m)

  pub latest : Store b → Result Error (Store b × Option BlockMeta)
  unfolding load_meta
  latest s = do m ← load_meta s.latest (b.get s.db latest_key); ok (record s { latest = m }, m)
