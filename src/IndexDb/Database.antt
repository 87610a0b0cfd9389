-- ===== src/IndexDb/Database.antt =====
-- What indexdb uses of the packages badger and proto, which it does not implement: an ordered
-- key-value store, and the encodings of two messages.
pub mod Sorted
pub mod Moved
pub mod Plain
use rosetta.Shared.{
  find, ℕ, ◌≡◌, Bool, true, false, Option, none, some, List, [], ◌∷◌, Bytes, bytes_eq, bytes_lt,
  has_prefix, if◌then◌else◌,
}
use rosetta.Model.{BlockMeta, IndexedBlock}

module _ {ℓ} {V : Type ℓ} where
  abbrev pub AllAbove : Bytes → List (Bytes × V) → Type 0
  AllAbove k [] = Unit {0}
  AllAbove k ((j, v) ∷ l) = (bytes_lt k j ≡ true) × AllAbove k l

  -- Each key is below all the later ones.
  abbrev pub Ascending : List (Bytes × V) → Type 0
  Ascending [] = Unit {0}
  Ascending ((k, v) ∷ l) = AllAbove k l × Ascending l

-- A transaction's view of the database. `seek` is a reverse iterator's `Seek` and `Item`, `prev` the
-- item behind its `Next`, and `items` a forward iterator from `Seek(prefix)` while
-- `ValidForPrefix(prefix)`. `recycled` is what `Value` reads of an item after its iterator's `Next`:
-- the documentation calls such an item invalid, so nothing is said of it.
pub record Badger : Type 1 where
  pub Db : Type 0
  pub get : Db → Bytes → Option Bytes
  pub set : Db → Bytes → Bytes → Db
  pub delete : Db → Bytes → Db
  pub seek : Db → Bytes → Option (Bytes × Bytes)
  pub prev : Db → Bytes → Option (Bytes × Bytes)
  pub recycled : Db → Bytes → Bytes
  pub items : Db → Bytes → List (Bytes × Bytes)
  pub get-set :
      (d : Db) (k v j : Bytes) → get (set d k v) j ≡ (if bytes_eq k j then some v else get d j)
  pub get-delete :
      (d : Db) (k j : Bytes) → get (delete d k) j ≡ (if bytes_eq k j then none else get d j)
  pub seek_some :
      (d : Db) (k j v : Bytes)
      → seek d k ≡ some (j, v)
      → (get d j ≡ some v)
        × (bytes_lt k j ≡ false)
        × ((i : Bytes) → bytes_lt j i ≡ true → bytes_lt k i ≡ false → get d i ≡ none)
  pub seek_none :
      (d : Db) (k : Bytes) → seek d k ≡ none → (i : Bytes) → bytes_lt k i ≡ false → get d i ≡ none
  pub find-items :
      (d : Db) (p k : Bytes) → find k (items d p) ≡ (if has_prefix p k then get d k else none)
  pub items-Ascending : (d : Db) (p : Bytes) → Ascending (items d p)

-- proto.Marshal and proto.Unmarshal; `none` is their error. What is encoded decodes to itself.
pub record Codec : Type 0 where
  pub encode_meta : BlockMeta → Option Bytes
  pub decode_meta : Bytes → Option BlockMeta
  pub encode_block : IndexedBlock → Option Bytes
  pub decode_block : Bytes → Option IndexedBlock
  pub decode-encode_meta :
      (m : BlockMeta) (b : Bytes) → encode_meta m ≡ some b → decode_meta b ≡ some m
  pub decode-encode_block :
      (m : IndexedBlock) (b : Bytes) → encode_block m ≡ some b → decode_block b ≡ some m
