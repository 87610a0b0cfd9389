-- ===== src/IndexDb/Reset/Blocks.antt =====
-- indexdb/indexdb.go: the loop of `ResetTo` over the heights that have a hash.
use rosetta.Shared.{
  find, ℕ, ◌^◌, ◌<◌, ◌≡◌, refl, ap, sym, ◌∙◌, true, false, some, List, [], ◌∷◌, Bytes, bytes_eq,
  bytes_eq_iff, bytes_lt, bytes_lt-big_endian, arith, ltb, if◌then◌else◌, Bool-cases, inl, inr,
  ltb→lt, lt→ltb,
}
use rosetta.Shared.Results.{ok, ok_inj, >>=-eq-ok}
use rosetta.IndexDb.{block_key, hash2height_key, height2hash_key}
use rosetta.IndexDb.Database.{AllAbove, Ascending}
use rosetta.IndexDb.Indexed.{uint64-be64}
use rosetta.IndexDb.Reset.{height_at, stale_blocks}
use rosetta.IndexDb.Reset.Keys.{mem, AllItems}

abbrev pub IsHeightKey : Bytes → Bytes → Type 0
IsHeightKey k v = (h : ℕ) × (h < 2 ^ 64) × (k ≡ height2hash_key h)

height_at-hash_key : (k : Bytes) (h : ℕ) → h < 2 ^ 64 → k ≡ height2hash_key h → height_at 1 k ≡ ok h
height_at-hash_key k h lt e = ap (height_at 1) e ∙ uint64-be64 h lt

module _ (base : ℕ) where
  -- The keys of a block above the base height.
  pub data IsBlockKey (k : Bytes) : Type 0 where
    of_hash : (h : ℕ) → base < h → h < 2 ^ 64 → k ≡ height2hash_key h → IsBlockKey k
    of_block : (h : ℕ) → base < h → h < 2 ^ 64 → k ≡ block_key h → IsBlockKey k
    of_height : (hash : Bytes) → k ≡ hash2height_key hash → IsBlockKey k

  pub record StaleBlocks (last : ℕ) (l : List (Bytes × Bytes)) : Type 0 where
    pub kept : ℕ
    pub keys : List Bytes
    pub eq : stale_blocks base last l ≡ ok (kept, keys)
    pub sound : (k : Bytes) → mem k keys ≡ true → IsBlockKey k
    pub complete :
        (h : ℕ) {v : Bytes}
        → find (height2hash_key h) l ≡ some v
        → h < 2 ^ 64
        → base < h
        → mem (height2hash_key h) keys ≡ true

  blocks_cons :
      (last g : ℕ) (j w : Bytes) (l : List (Bytes × Bytes))
      → g < 2 ^ 64
      → j ≡ height2hash_key g
      → StaleBlocks (if ltb base g then last else g) l
      → StaleBlocks last ((j, w) ∷ l)
  unfolding stale_blocks bytes_eq
  blocks_cons last g j w l g_lt je st = elim (Bool-cases (ltb base g)) [
    | inl above ↦ record {
      kept = st.kept;
      keys = j ∷ block_key g ∷ hash2height_key w ∷ st.keys;
      eq = rw (height_at-hash_key j g g_lt je, st.eq, above);
      sound = λ k e. added above k e;
      complete = λ h e h_lt lt. elim (Bool-cases (bytes_eq j (height2hash_key h))) [
        | inl same ↦ rw same
        | inr other ↦
            let skip : find (height2hash_key h) ((j, w) ∷ l) ≡ find (height2hash_key h) l =
              rw other in
            rw other (st.complete h (sym skip ∙ e) h_lt lt)
      ];
    }
    | inr below ↦ record {
      kept = st.kept;
      keys = st.keys;
      eq = rw (height_at-hash_key j g g_lt je, st.eq, below);
      sound = st.sound;
      complete = λ h e h_lt lt. elim (Bool-cases (bytes_eq j (height2hash_key h))) [
        | inl same ↦
            let gh : g ≡ h = ok_inj (
              sym (height_at-hash_key j g g_lt je)
              ∙ ap (height_at 1) ((bytes_eq_iff j (height2hash_key h)).0 same)
              ∙ uint64-be64 h h_lt) in
            let clash : true ≡ false = sym (lt→ltb base h lt) ∙ ap (ltb base) (sym gh) ∙ below in cc
        | inr other ↦
            let skip : find (height2hash_key h) ((j, w) ∷ l) ≡ find (height2hash_key h) l =
              rw other in
            st.complete h (sym skip ∙ e) h_lt lt
      ];
    }
  ]
    where
      added :
          ltb base g ≡ true
          → (k : Bytes) → mem k (j ∷ block_key g ∷ hash2height_key w ∷ st.keys) ≡ true
          → IsBlockKey k
      added above k e = elim (Bool-cases (bytes_eq j k)) [
        | inl p ↦ of_hash g (ltb→lt base g above) g_lt (sym ((bytes_eq_iff j k).0 p) ∙ je)
        | inr n1 ↦ elim (Bool-cases (bytes_eq (block_key g) k)) [
          | inl p ↦ of_block g (ltb→lt base g above) g_lt (sym ((bytes_eq_iff (block_key g) k).0 p))
          | inr n2 ↦ elim (Bool-cases (bytes_eq (hash2height_key w) k)) [
            | inl p ↦ of_height w (sym ((bytes_eq_iff (hash2height_key w) k).0 p))
            | inr n3 ↦
                let skip : mem k (j ∷ block_key g ∷ hash2height_key w ∷ st.keys) ≡ mem k st.keys =
                  rw (n1, n2, n3) in
                st.sound k (sym skip ∙ e)
          ]
        ]
      ]

  pub stale_blocks-StaleBlocks :
      (l : List (Bytes × Bytes)) (last : ℕ) → AllItems IsHeightKey l → StaleBlocks last l
  unfolding stale_blocks
  stale_blocks-StaleBlocks [] last a = record {
    kept = last;
    keys = [];
    eq = refl;
    sound = λ k e. cc;
    complete = λ h e. cc;
  }
  stale_blocks-StaleBlocks ((j, w) ∷ l) last ((g, g_lt, je), a) =
      blocks_cons last g j w l g_lt je (stale_blocks-StaleBlocks l _ a)

  -- If every height is above the base, the last one that is kept is what it was.
  kept_none :
      (l : List (Bytes × Bytes)) (last : ℕ) {r : ℕ × List Bytes}
      → AllItems (λ k v. (h : ℕ) × (h < 2 ^ 64) × (k ≡ height2hash_key h) × (base < h)) l
      → stale_blocks base last l ≡ ok r
      → r.0 ≡ last
  unfolding stale_blocks
  kept_none [] last a e = ap (λ (p : ℕ × List Bytes). p.0) (sym (ok_inj e))
  kept_none ((j, w) ∷ l) last ((g, g_lt, je, lt), a) e =
      let above : ltb base g ≡ true = lt→ltb base g lt in
      let (h, e1, r1) = >>=-eq-ok (height_at 1 j) _ e in
      let hg : h ≡ g = ok_inj (sym e1 ∙ height_at-hash_key j g g_lt je) in
      let (found, e2, r2) = >>=-eq-ok (stale_blocks base (if ltb base h then last else h) l) _ r1 in
      let same : (if ltb base h then last else h) ≡ last = rw (hg, above) in
      ap (λ (p : ℕ × List Bytes). p.0) (sym (ok_inj r2))
      ∙ kept_none l (if ltb base h then last else h) a e2
      ∙ same

  higher_rest :
      (l : List (Bytes × Bytes))
      → base < 2 ^ 64
      → AllAbove (height2hash_key base) l
      → AllItems IsHeightKey l
      → AllItems (λ k v. (h : ℕ) × (h < 2 ^ 64) × (k ≡ height2hash_key h) × (base < h)) l
  unfolding bytes_lt
  higher_rest [] b_lt above a = tt
  higher_rest ((j, w) ∷ l) b_lt (lt, above) ((g, g_lt, je), a) =
      let order = ap (bytes_lt (height2hash_key base)) (sym je) ∙ lt in
      let less = sym (bytes_lt-big_endian 8 base g b_lt g_lt) ∙ order in
      ((g, g_lt, je, ltb→lt base g less), higher_rest l b_lt above a)

  -- If the base height has a hash, it is the last one that is kept.
  pub kept_base :
      (l : List (Bytes × Bytes)) (last : ℕ) {r : ℕ × List Bytes} {v : Bytes}
      → base < 2 ^ 64
      → Ascending l
      → AllItems IsHeightKey l
      → find (height2hash_key base) l ≡ some v
      → stale_blocks base last l ≡ ok r
      → r.0 ≡ base
  unfolding stale_blocks
  kept_base [] last b_lt asc a f e = cc
  kept_base ((j, w) ∷ l) last {r} {v} b_lt (above, asc) ((g, g_lt, je), a) f e =
      let (h, e1, r1) = >>=-eq-ok (height_at 1 j) _ e in
      let hg : h ≡ g = ok_inj (sym e1 ∙ height_at-hash_key j g g_lt je) in
      let next : ℕ = if ltb base h then last else h in
      let (found, e2, r2) = >>=-eq-ok (stale_blocks base next l) _ r1 in
      ap (λ (p : ℕ × List Bytes). p.0) (sym (ok_inj r2))
      ∙ elim (Bool-cases (bytes_eq j (height2hash_key base))) [
        | inl same ↦
            let jb = (bytes_eq_iff j (height2hash_key base)).0 same in
            let gb : g ≡ base = ok_inj (
              sym (height_at-hash_key j g g_lt je) ∙ ap (height_at 1) jb ∙ uint64-be64 base b_lt) in
            let next_eq : next ≡ base = ground (arith, hg, gb) in
            kept_none l next (higher_rest l b_lt (coe 0 1 (i. AllAbove (jb i) l) above) a) e2
            ∙ next_eq
        | inr other ↦
            let skip : find (height2hash_key base) ((j, w) ∷ l) ≡ find (height2hash_key base) l =
              rw other in
            kept_base l next b_lt asc a (sym skip ∙ f) e2
      ]
