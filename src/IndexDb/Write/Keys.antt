-- ===== src/IndexDb/Write/Keys.antt =====
-- indexdb/indexdb.go: which keys the writes of `Index` leave alone, and that they keep the invariant.
use rosetta.Shared.{
  ℕ, ◌+◌, ◌^◌, ◌<◌, ◌≡◌, refl, ap, sym, ◌∙◌, true, false, none, List, [], ◌∷◌, Bytes, bytes_eq,
  has_prefix, arith, Option-cases, inl, inr,
}
use rosetta.IndexDb.{
  be64, account_key, proxy_key, block_key, hash2height_key, height2hash_key, latest_key,
}
use rosetta.IndexDb.Database.{Badger}
use rosetta.IndexDb.Indexed.{IsIndexed, account_key_parts}
use rosetta.IndexDb.Write.{set_proxies, set_block}
use rosetta.IndexDb.Write.Tracking.{AreProxyKeys}
use rosetta.IndexDb.Write.Updates.{set-IsIndexed}

module _ (b : Badger) where
  -- The block's own writes leave a key alone that is none of theirs.
  pub get-set_block_other :
      (d : b.Db) (h : ℕ) (hash bv lv k : Bytes)
      → bytes_eq (block_key h) k ≡ false
      → bytes_eq (hash2height_key hash) k ≡ false
      → bytes_eq (height2hash_key h) k ≡ false
      → bytes_eq latest_key k ≡ false
      → b.get (set_block b d h hash bv lv) k ≡ b.get d k
  unfolding set_block
  get-set_block_other d h hash bv lv k e1 e2 e3 e4 =
      b.get-set _ latest_key lv k
      ∙ rw e4 (
          b.get-set _ (height2hash_key h) hash k
          ∙ rw e3 (
              b.get-set _ (hash2height_key hash) (be64 h) k
              ∙ rw e2 (b.get-set d (block_key h) bv k ∙ rw e1)))

  pub get-set_proxies_other :
      (d : b.Db) (h : ℕ) (ks : List Bytes) (k : Bytes)
      → AreProxyKeys h ks
      → has_prefix (b'p' ∷ []) k ≡ false
      → b.get (set_proxies b d ks) k ≡ b.get d k
  unfolding set_proxies
  get-set_proxies_other d h [] k v p = refl
  get-set_proxies_other d h (x ∷ ks) k ((acct, e), v) p =
      get-set_proxies_other (b.set d x (b'1' ∷ [])) h ks k v p
      ∙ b.get-set d x (b'1' ∷ []) k
      ∙ rw (e, differs k p)
    where
      differs :
          (j : Bytes) → has_prefix (b'p' ∷ []) j ≡ false → bytes_eq (proxy_key acct h) j ≡ false
      differs [] q = unfold bytes_eq in refl
      differs (y ∷ j) q = unfold bytes_eq has_prefix in ground arith

  pub set_proxies-IsIndexed :
      (d : b.Db) (h : ℕ) (ks : List Bytes)
      → AreProxyKeys h ks
      → IsIndexed b d h
      → IsIndexed b (set_proxies b d ks) h
  unfolding set_proxies has_prefix
  set_proxies-IsIndexed d h [] v i = i
  set_proxies-IsIndexed d h (x ∷ ks) ((acct, e), v) i =
      set_proxies-IsIndexed (b.set d x (b'1' ∷ [])) h ks v (
        set-IsIndexed b d h x (b'1' ∷ []) i
          (λ p. let clash : true ≡ false = sym p ∙ ap (has_prefix (b'a' ∷ [])) e in cc)
          (λ p. record { acct = acct; height = h; key_eq = e; height_le = omega arith })
          (λ p. let clash : true ≡ false = sym p ∙ ap (has_prefix (b'd' ∷ [])) e in cc))

  pub set_block-IsIndexed :
      (d : b.Db) (h : ℕ) (hash bv lv : Bytes)
      → IsIndexed b d h
      → IsIndexed b (set_block b d h hash bv lv) h
  unfolding set_block has_prefix
  set_block-IsIndexed d h hash bv lv i =
      set-IsIndexed b _ h latest_key lv
        (set-IsIndexed b _ h (height2hash_key h) hash
          (set-IsIndexed b _ h (hash2height_key hash) (be64 h)
            (set-IsIndexed b d h (block_key h) bv i (λ p. cc) (λ p. cc) (λ p. cc)) (λ p. cc)
            (λ p. cc) (λ p. cc))
          (λ p. cc) (λ p. cc) (λ p. record { height = h; key_eq = refl; height_le = omega arith }))
        (λ p. cc) (λ p. cc) (λ p. cc)

  -- Nothing is stored for a height above the bound.
  pub fresh_above :
      (d : b.Db) (top : ℕ) (y : Bytes)
      → IsIndexed b d top
      → top + 1 < 2 ^ 64
      → b.get d (account_key y (top + 1)) ≡ none
  fresh_above d top y v lt = elim (Option-cases (b.get d (account_key y (top + 1)))) [
    | inl e ↦ e
    | inr (w, e) ↦
        let item = v.accounts (account_key y (top + 1)) w e (unfold has_prefix in refl) in
        let parts =
          account_key_parts y item.acct (top + 1) item.height lt (omega (arith, item.height_le))
            item.key_eq in
        absurd (omega (arith, item.height_le, parts.1))
  ]
