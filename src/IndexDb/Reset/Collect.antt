-- ===== src/IndexDb/Reset/Collect.antt =====
-- indexdb/indexdb.go: all the keys that `ResetTo` deletes from a well-formed database.
use rosetta.Shared.{
  find, ℕ, ◌^◌, ◌<◌, ◌≡◌, refl, ap, sym, ◌∙◌, true, ◌||◌, none, some, List, [], ◌∷◌, ◌++◌, Bytes,
  has_prefix, arith, Bool-cases, inl, inr, length, drop,
}
use rosetta.Shared.Results.{ok}
use rosetta.IndexDb.{uint64, be64, pad8, account_key, proxy_key, height2hash_key}
use rosetta.IndexDb.Database.{Badger}
use rosetta.IndexDb.Indexed.{IsIndexed, uint64-be64, length-pad8}
use rosetta.IndexDb.Reset.{height_at, stale}
use rosetta.IndexDb.Reset.Keys.{
  mem, mem-append, AllItems, find-AllItems, Dated, Stale, stale_keys-Stale,
}
use rosetta.IndexDb.Reset.Blocks.{
  IsHeightKey, IsBlockKey, StaleBlocks, stale_blocks-StaleBlocks, kept_base,
}

drop-append_self {ℓ} : {A : Type ℓ} (xs ys : List A) → drop (length xs) (xs ++ ys) ≡ ys
drop-append_self [] ys = refl
drop-append_self (x ∷ xs) ys = drop-append_self xs ys

-- The height in a key of an account.
pub height_at-pad8 :
    (x : ℕ) (acct : Bytes) (h : ℕ) → h < 2 ^ 64 → height_at 9 ((x ∷ pad8 acct) ++ be64 h) ≡ ok h
height_at-pad8 x acct h lt =
    ap uint64 (
      ap (λ (n : ℕ). drop n (pad8 acct ++ be64 h)) (sym (length-pad8 acct))
      ∙ drop-append_self (pad8 acct) (be64 h))
    ∙ uint64-be64 h lt

abbrev pub IsAccountAt : Bytes → ℕ → Type 0
IsAccountAt k h = (acct : Bytes) × (h < 2 ^ 64) × (k ≡ account_key acct h)

abbrev pub IsProxyAt : Bytes → ℕ → Type 0
IsProxyAt k h = (acct : Bytes) × (h < 2 ^ 64) × (k ≡ proxy_key acct h)

-- The keys that `ResetTo` may delete.
pub data IsStaleKey (base : ℕ) (k : Bytes) : Type 0 where
  of_account : (h : ℕ) → base < h → IsAccountAt k h → IsStaleKey base k
  of_proxy : (h : ℕ) → base < h → IsProxyAt k h → IsStaleKey base k
  of_block : IsBlockKey base k → IsStaleKey base k

module _ (b : Badger) (d : b.Db) (top : ℕ) (v : IsIndexed b d top) (base : ℕ) where
  -- An item of a forward iterator is in the database, and has the prefix.
  pub item_parts :
      (p k : Bytes) {w : Bytes}
      → find k (b.items d p) ≡ some w
      → (has_prefix p k ≡ true) × (b.get d k ≡ some w)
  item_parts p k e = elim (Bool-cases (has_prefix p k)) [
    | inl own ↦
        let here : find k (b.items d p) ≡ b.get d k = b.find-items d p k ∙ rw own in
        (own, sym here ∙ e)
    | inr other ↦
        let gone : find k (b.items d p) ≡ none = b.find-items d p k ∙ rw other in
        let clash = sym gone ∙ e in cc
  ]

  accounts : Stale 9 base IsAccountAt (b.items d (b'a' ∷ []))
  accounts = stale_keys-Stale 9 base IsAccountAt (b.items d (b'a' ∷ [])) (
      find-AllItems (Dated 9 base IsAccountAt) (b.items d (b'a' ∷ []))
        (b.items-Ascending d (b'a' ∷ []))
        (λ k w e.
          let (own, stored) = item_parts (b'a' ∷ []) k e in
          let i = v.accounts k w stored own in
          let lt : i.height < 2 ^ 64 = omega (arith, i.height_le, v.top_lt) in
          (
            i.height,
            ap (height_at 9) i.key_eq ∙ height_at-pad8 (b'a') i.acct i.height lt,
            (i.acct, lt, i.key_eq),
          )))

  proxies : Stale 9 base IsProxyAt (b.items d (b'p' ∷ []))
  proxies = stale_keys-Stale 9 base IsProxyAt (b.items d (b'p' ∷ [])) (
      find-AllItems (Dated 9 base IsProxyAt) (b.items d (b'p' ∷ []))
        (b.items-Ascending d (b'p' ∷ []))
        (λ k w e.
          let (own, stored) = item_parts (b'p' ∷ []) k e in
          let i = v.proxies k w stored own in
          let lt : i.height < 2 ^ 64 = omega (arith, i.height_le, v.top_lt) in
          (
            i.height,
            ap (height_at 9) i.key_eq ∙ height_at-pad8 (b'p') i.acct i.height lt,
            (i.acct, lt, i.key_eq),
          )))

  height_keys : AllItems IsHeightKey (b.items d (b'd' ∷ []))
  height_keys =
      find-AllItems IsHeightKey (b.items d (b'd' ∷ [])) (b.items-Ascending d (b'd' ∷ [])) (λ k w e.
        let (own, stored) = item_parts (b'd' ∷ []) k e in
        let i = v.hashes k w stored own in
        (i.height, omega (arith, i.height_le, v.top_lt), i.key_eq))

  blocks : StaleBlocks base 0 (b.items d (b'd' ∷ []))
  blocks = stale_blocks-StaleBlocks base (b.items d (b'd' ∷ [])) 0 height_keys

  -- What `ResetTo` reads of a well-formed database: every item above the base height is deleted,
  -- nothing at or below it, and the last height that is kept is the base if that has a hash.
  pub record Collection : Type 0 where
    pub kept : ℕ
    pub keys : List Bytes
    pub eq : stale b d base ≡ ok (kept, keys)
    pub sound : (k : Bytes) → mem k keys ≡ true → IsStaleKey base k
    pub has_account :
        (k : Bytes) (h : ℕ) {w : Bytes}
        → b.get d k ≡ some w
        → IsAccountAt k h
        → base < h
        → mem k keys ≡ true
    pub has_proxy :
        (k : Bytes) (h : ℕ) {w : Bytes}
        → b.get d k ≡ some w
        → IsProxyAt k h
        → base < h
        → mem k keys ≡ true
    pub has_hash :
        (h : ℕ) {w : Bytes}
        → b.get d (height2hash_key h) ≡ some w
        → h < 2 ^ 64
        → base < h
        → mem (height2hash_key h) keys ≡ true
    pub kept_eq :
        {w : Bytes} → base < 2 ^ 64 → b.get d (height2hash_key base) ≡ some w → kept ≡ base

  abbrev all_keys : List Bytes
  all_keys = accounts.keys ++ proxies.keys ++ blocks.keys

  pub listed :
      (p k : Bytes) {w : Bytes}
      → has_prefix p k ≡ true
      → b.get d k ≡ some w
      → find k (b.items d p) ≡ some w
  listed p k own e = b.find-items d p k ∙ rw own e

  in_any :
      (k : Bytes)
      → mem k all_keys ≡ ((mem k accounts.keys || mem k proxies.keys) || mem k blocks.keys)
  in_any k =
      mem-append k (accounts.keys ++ proxies.keys) blocks.keys
      ∙ ap (λ m. m || mem k blocks.keys) (mem-append k accounts.keys proxies.keys)

  all_sound : (k : Bytes) → mem k all_keys ≡ true → IsStaleKey base k
  all_sound k e = elim (Bool-cases (mem k accounts.keys)) [
    | inl m ↦ let (h, lt, q) = accounts.sound k m in of_account h lt q
    | inr n1 ↦ elim (Bool-cases (mem k proxies.keys)) [
      | inl m ↦ let (h, lt, q) = proxies.sound k m in of_proxy h lt q
      | inr n2 ↦
          let rest : mem k all_keys ≡ mem k blocks.keys = in_any k ∙ rw (n1, n2) in
          of_block (blocks.sound k (sym rest ∙ e))
    ]
  ]

  pub collection : Collection
  unfolding stale
  collection = record {
    kept = blocks.kept;
    keys = all_keys;
    eq = rw (accounts.keys_eq, proxies.keys_eq, blocks.eq);
    sound = all_sound;
    has_account = λ k h e q lt.
        let (acct, h_lt, key) = q in
        let own : has_prefix (b'a' ∷ []) k ≡ true =
          ap (has_prefix (b'a' ∷ [])) key ∙ (unfold has_prefix in refl) in
        let at = ap (height_at 9) key ∙ height_at-pad8 (b'a') acct h h_lt in
        in_any k ∙ rw (accounts.complete k h (listed (b'a' ∷ []) k own e) at lt);
    has_proxy = λ k h e q lt.
        let (acct, h_lt, key) = q in
        let own : has_prefix (b'p' ∷ []) k ≡ true =
          ap (has_prefix (b'p' ∷ [])) key ∙ (unfold has_prefix in refl) in
        let at = ap (height_at 9) key ∙ height_at-pad8 (b'p') acct h h_lt in
        let found : mem k proxies.keys ≡ true =
          proxies.complete k h (listed (b'p' ∷ []) k own e) at lt in
        in_any k ∙ (rw found (ground arith));
    has_hash = λ h e h_lt lt.
        let own : has_prefix (b'd' ∷ []) (height2hash_key h) ≡ true = (unfold has_prefix in refl) in
        let found : mem (height2hash_key h) blocks.keys ≡ true =
          blocks.complete h (listed (b'd' ∷ []) (height2hash_key h) own e) h_lt lt in
        in_any (height2hash_key h) ∙ (rw found (ground arith));
    kept_eq = λ b_lt e.
        let own : has_prefix (b'd' ∷ []) (height2hash_key base) ≡ true =
          (unfold has_prefix in refl) in
        kept_base base (b.items d (b'd' ∷ [])) 0 b_lt (b.items-Ascending d (b'd' ∷ [])) height_keys
          (listed (b'd' ∷ []) (height2hash_key base) own e) blocks.eq;
  }
