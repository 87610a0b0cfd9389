-- ===== src/IndexDb/Reset/Keys.antt =====
-- indexdb/indexdb.go: the keys that `ResetTo` collects, sorts and deletes.
use rosetta.Shared.{
  find, ℕ, ◌<◌, ◌≡◌, refl, ap, sym, ◌∙◌, Bool, true, false, ◌||◌, none, some, List, [], ◌∷◌, ◌++◌,
  Bytes, bytes_eq, bytes_eq_iff, bytes_lt, bytes_lt_irrefl, arith, ltb, if◌then◌else◌, Bool-cases,
  inl, inr, ltb→lt, lt→ltb,
}
use rosetta.Shared.Results.{ok, ok_inj}
use rosetta.IndexDb.Database.{Badger, AllAbove, Ascending}
use rosetta.IndexDb.Reset.{height_at, stale_keys, insert_key, sort_keys, delete_keys}

abbrev pub mem : Bytes → List Bytes → Bool
mem k [] = false
mem k (j ∷ ks) = bytes_eq j k || mem k ks

mem-insert_key :
    (k x : Bytes) (ks : List Bytes) → mem k (insert_key x ks) ≡ (bytes_eq x k || mem k ks)
unfolding insert_key
mem-insert_key k x [] = refl
mem-insert_key k x (j ∷ ks) = ground (arith, mem-insert_key k x ks)

mem-sort_keys : (k : Bytes) (ks : List Bytes) → mem k (sort_keys ks) ≡ mem k ks
unfolding sort_keys
mem-sort_keys k [] = refl
mem-sort_keys k (j ∷ ks) =
    mem-insert_key k j (sort_keys ks) ∙ ap (λ m. bytes_eq j k || m) (mem-sort_keys k ks)

pub mem-append : (k : Bytes) (js ks : List Bytes) → mem k (js ++ ks) ≡ (mem k js || mem k ks)
mem-append k [] ks = refl
mem-append k (j ∷ js) ks = ground (arith, mem-append k js ks)

module _ (b : Badger) where
  pub get-delete_keys_from :
      (d : b.Db) (ks : List Bytes) (k : Bytes)
      → b.get (delete_keys b d ks) k ≡ (if mem k ks then none else b.get d k)
  unfolding delete_keys
  get-delete_keys_from d [] k = refl
  get-delete_keys_from d (j ∷ ks) k =
      ground (arith, get-delete_keys_from (b.delete d j) ks k, b.get-delete d j k)

  pub get-delete_keys :
      (d : b.Db) (ks : List Bytes) (k : Bytes)
      → b.get (delete_keys b d (sort_keys ks)) k ≡ (if mem k ks then none else b.get d k)
  get-delete_keys d ks k = get-delete_keys_from d (sort_keys ks) k ∙ rw (mem-sort_keys k ks)

-- An item that is above a key has another key.
pub AllAbove-find :
    (j k : Bytes) (l : List (Bytes × Bytes)) {v : Bytes}
    → AllAbove j l
    → find k l ≡ some v
    → bytes_lt j k ≡ true
AllAbove-find j k [] a e = cc
AllAbove-find j k ((i, w) ∷ l) (ji, a) e = elim (Bool-cases (bytes_eq i k)) [
  | inl same ↦ let ik = (bytes_eq_iff i k).0 same in ap (bytes_lt j) (sym ik) ∙ ji
  | inr other ↦
      let skip : find k ((i, w) ∷ l) ≡ find k l = rw other in AllAbove-find j k l a (sym skip ∙ e)
]

find-tail :
    (j k w : Bytes) (l : List (Bytes × Bytes)) {v : Bytes}
    → AllAbove j l
    → find k l ≡ some v
    → find k ((j, w) ∷ l) ≡ some v
find-tail j k w l a e = elim (Bool-cases (bytes_eq j k)) [
  | inl same ↦
      let jk = (bytes_eq_iff j k).0 same in
      let clash : true ≡ false =
        sym (AllAbove-find j k l a e) ∙ ap (bytes_lt j) (sym jk) ∙ bytes_lt_irrefl j in
      cc
  | inr other ↦ rw other e
]

-- What holds of every item of a list.
abbrev pub AllItems : (Bytes → Bytes → Type 0) → List (Bytes × Bytes) → Type 0
AllItems P [] = Unit {0}
AllItems P ((k, v) ∷ l) = P k v × AllItems P l

pub find-AllItems :
    (P : Bytes → Bytes → Type 0) (l : List (Bytes × Bytes))
    → Ascending l
    → ((k v : Bytes) → find k l ≡ some v → P k v)
    → AllItems P l
find-AllItems P [] a h = tt
find-AllItems P ((k, v) ∷ l) (above, a) h = (
  h k v (rw ((bytes_eq_iff k k).1 refl)),
  find-AllItems P l a (λ j w e. h j w (find-tail k j v l above e)),
)

module _ (n base : ℕ) (Q : Bytes → ℕ → Type 0) where
  -- A key that holds a height.
  abbrev pub Dated : Bytes → Bytes → Type 0
  Dated k v = (h : ℕ) × (height_at n k ≡ ok h) × Q k h

  -- The keys that are collected are those of the items above the base height.
  pub record Stale (l : List (Bytes × Bytes)) : Type 0 where
    pub keys : List Bytes
    pub keys_eq : stale_keys n base l ≡ ok keys
    pub sound : (k : Bytes) → mem k keys ≡ true → (h : ℕ) × (base < h) × Q k h
    pub complete :
        (k : Bytes) (h : ℕ) {v : Bytes}
        → find k l ≡ some v
        → height_at n k ≡ ok h
        → base < h
        → mem k keys ≡ true

  stale_cons :
      (j w : Bytes) (l : List (Bytes × Bytes)) (g : ℕ)
      → height_at n j ≡ ok g
      → Q j g
      → (st : Stale l) → Stale ((j, w) ∷ l)
  unfolding stale_keys
  stale_cons j w l g at q st = elim (Bool-cases (ltb base g)) [
    | inl above ↦ record {
      keys = j ∷ st.keys;
      keys_eq = rw (at, st.keys_eq, above);
      sound = λ k e. elim (Bool-cases (bytes_eq j k)) [
        | inl same ↦ (g, ltb→lt base g above, coe 0 1 (i. Q ((bytes_eq_iff j k).0 same i) g) q)
        | inr other ↦
            st.sound k (sym (let skip : mem k (j ∷ st.keys) ≡ mem k st.keys = rw other in skip) ∙ e)
      ];
      complete = λ k h e at' lt. elim (Bool-cases (bytes_eq j k)) [
        | inl same ↦ rw same
        | inr other ↦
            let skip : find k ((j, w) ∷ l) ≡ find k l = rw other in
            rw (other, st.complete k h (sym skip ∙ e) at' lt)
      ];
    }
    | inr below ↦ record {
      keys = st.keys;
      keys_eq = rw (at, st.keys_eq, below);
      sound = st.sound;
      complete = λ k h e at' lt. elim (Bool-cases (bytes_eq j k)) [
        | inl same ↦
            let gh : g ≡ h = ok_inj (sym at ∙ ap (height_at n) ((bytes_eq_iff j k).0 same) ∙ at') in
            let clash : true ≡ false = sym (lt→ltb base h lt) ∙ ap (ltb base) (sym gh) ∙ below in cc
        | inr other ↦
            let skip : find k ((j, w) ∷ l) ≡ find k l = rw other in
            st.complete k h (sym skip ∙ e) at' lt
      ];
    }
  ]

  pub stale_keys-Stale : (l : List (Bytes × Bytes)) → AllItems Dated l → Stale l
  unfolding stale_keys
  stale_keys-Stale [] a = record {
    keys = [];
    keys_eq = refl;
    sound = λ k e. cc;
    complete = λ k h e. cc;
  }
  stale_keys-Stale ((j, w) ∷ l) ((g, at, q), a) = stale_cons j w l g at q (stale_keys-Stale l a)
