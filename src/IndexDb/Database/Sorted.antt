-- ===== src/IndexDb/Database/Sorted.antt =====
-- A database that meets the interface: the items in a list, in ascending order.
use rosetta.Shared.{
  find, ◌≡◌, refl, ap, sym, ◌∙◌, true, false, Option, none, some, some_inj, List, [], ◌∷◌, Bytes,
  bytes_eq, bytes_eq_iff, bytes_lt, bytes_lt_irrefl, bytes_lt_trans, bytes_lt_total, has_prefix,
  if◌then◌else◌, arith, Bool-cases, Option-cases, inl, inr,
}
use rosetta.IndexDb.Database.{Badger, AllAbove, Ascending}

abbrev pub Items : Type 0
Items = List (Bytes × Bytes)

abbrev pub insert : Bytes → Bytes → Items → Items
insert k v [] = (k, v) ∷ []
insert k v ((j, w) ∷ l) =
    if bytes_eq j k
    then (k, v) ∷ l
    else if bytes_lt k j
    then (k, v) ∷ (j, w) ∷ l
    else (j, w) ∷ insert k v l

abbrev pub remove : Bytes → Items → Items
remove k [] = []
remove k ((j, w) ∷ l) = let rest = remove k l in if bytes_eq j k then rest else (j, w) ∷ rest

abbrev pub with_prefix : Bytes → Items → Items
with_prefix p [] = []
with_prefix p ((j, w) ∷ l) =
    let rest = with_prefix p l in if has_prefix p j then (j, w) ∷ rest else rest

abbrev pub or_else : Option (Bytes × Bytes) → Bytes × Bytes → Bytes × Bytes
or_else none x = x
or_else (some y) x = y

-- The last item that is not above the key.
abbrev pub seek : Bytes → Items → Option (Bytes × Bytes)
seek k [] = none
seek k ((j, w) ∷ l) =
    let rest = seek k l in if bytes_lt k j then none else some (or_else rest (j, w))

-- The last item below the key.
abbrev pub prev : Bytes → Items → Option (Bytes × Bytes)
prev k [] = none
prev k ((j, w) ∷ l) =
    let rest = prev k l in if bytes_lt j k then some (or_else rest (j, w)) else none

pub find-insert :
    (k v j : Bytes) (l : Items)
    → find j (insert k v l) ≡ (if bytes_eq k j then some v else find j l)
find-insert k v j [] = refl
find-insert k v j ((i, w) ∷ l) =
    ground (arith, find-insert k v j l, bytes_eq_iff i k, bytes_eq_iff i j, bytes_eq_iff k j)

pub find-remove :
    (k j : Bytes) (l : Items) → find j (remove k l) ≡ (if bytes_eq k j then none else find j l)
find-remove k j [] = ground arith
find-remove k j ((i, w) ∷ l) =
    ground (arith, find-remove k j l, bytes_eq_iff i k, bytes_eq_iff i j, bytes_eq_iff k j)

pub find-with_prefix :
    (p k : Bytes) (l : Items)
    → find k (with_prefix p l) ≡ (if has_prefix p k then find k l else none)
find-with_prefix p k [] = ground arith
find-with_prefix p k ((i, w) ∷ l) = ground (arith, find-with_prefix p k l, bytes_eq_iff i k)

AllAbove-trans : (i j : Bytes) (l : Items) → bytes_lt i j ≡ true → AllAbove j l → AllAbove i l
AllAbove-trans i j [] lt a = tt
AllAbove-trans i j ((k, w) ∷ l) lt (jk, a) = (bytes_lt_trans i j k lt jk, AllAbove-trans i j l lt a)

find_above : (j i : Bytes) (l : Items) → AllAbove j l → bytes_lt j i ≡ false → find i l ≡ none
find_above j i [] a e = refl
find_above j i ((k, w) ∷ l) (jk, a) e = elim (Bool-cases (bytes_eq k i)) [
  | inl same ↦
      let ki : k ≡ i = (bytes_eq_iff k i).0 same in
      let clash : true ≡ false = sym jk ∙ ap (bytes_lt j) ki ∙ e in cc
  | inr other ↦ rw other (find_above j i l a e)
]

AllAbove-insert :
    (i k v : Bytes) (l : Items) → bytes_lt i k ≡ true → AllAbove i l → AllAbove i (insert k v l)
AllAbove-insert i k v [] lt a = (lt, tt)
AllAbove-insert i k v ((j, w) ∷ l) lt (ij, a) = elim (Bool-cases (bytes_eq j k)) [
  | inl same ↦ rw same (lt, a)
  | inr other ↦ elim (Bool-cases (bytes_lt k j)) [
    | inl p ↦ rw (other, p) (lt, (ij, a))
    | inr p ↦ rw (other, p) (ij, AllAbove-insert i k v l lt a)
  ]
]

pub Ascending-insert : (k v : Bytes) (l : Items) → Ascending l → Ascending (insert k v l)
Ascending-insert k v [] a = (tt, tt)
Ascending-insert k v ((j, w) ∷ l) (above, a) = elim (Bool-cases (bytes_eq j k)) [
  | inl same ↦ let jk : j ≡ k = (bytes_eq_iff j k).0 same in rw same (ap' jk above, a)
  | inr other ↦ elim (Bool-cases (bytes_lt k j)) [
    | inl p ↦ rw (other, p) ((p, AllAbove-trans k j l p above), (above, a))
    | inr p ↦
        rw (other, p) (AllAbove-insert j k v l (below p other) above, Ascending-insert k v l a)
  ]
]
  where
    ap' : j ≡ k → AllAbove j l → AllAbove k l
    ap' e x = rw (← e) x

    below : bytes_lt k j ≡ false → bytes_eq j k ≡ false → bytes_lt j k ≡ true
    below p other = elim (Bool-cases (bytes_lt j k)) [
      | inl lt ↦ lt
      | inr ge ↦ let e = (bytes_eq_iff j k).1 (bytes_lt_total j k ge p) in cc
    ]

AllAbove-remove : (i k : Bytes) (l : Items) → AllAbove i l → AllAbove i (remove k l)
AllAbove-remove i k [] a = tt
AllAbove-remove i k ((j, w) ∷ l) (ij, a) = elim (Bool-cases (bytes_eq j k)) [
  | inl same ↦ rw same (AllAbove-remove i k l a)
  | inr other ↦ rw other (ij, AllAbove-remove i k l a)
]

pub Ascending-remove : (k : Bytes) (l : Items) → Ascending l → Ascending (remove k l)
Ascending-remove k [] a = tt
Ascending-remove k ((j, w) ∷ l) (above, a) = elim (Bool-cases (bytes_eq j k)) [
  | inl same ↦ rw same (Ascending-remove k l a)
  | inr other ↦ rw other (AllAbove-remove j k l above, Ascending-remove k l a)
]

AllAbove-with_prefix : (i p : Bytes) (l : Items) → AllAbove i l → AllAbove i (with_prefix p l)
AllAbove-with_prefix i p [] a = tt
AllAbove-with_prefix i p ((j, w) ∷ l) (ij, a) = elim (Bool-cases (has_prefix p j)) [
  | inl own ↦ rw own (ij, AllAbove-with_prefix i p l a)
  | inr other ↦ rw other (AllAbove-with_prefix i p l a)
]

pub Ascending-with_prefix : (p : Bytes) (l : Items) → Ascending l → Ascending (with_prefix p l)
Ascending-with_prefix p [] a = tt
Ascending-with_prefix p ((j, w) ∷ l) (above, a) = elim (Bool-cases (has_prefix p j)) [
  | inl own ↦ rw own (AllAbove-with_prefix j p l above, Ascending-with_prefix p l a)
  | inr other ↦ rw other (Ascending-with_prefix p l a)
]

pub seek-none :
    (k : Bytes) (l : Items)
    → Ascending l
    → seek k l ≡ none
    → (i : Bytes) → bytes_lt k i ≡ false
    → find i l ≡ none
seek-none k [] a e i le = refl
seek-none k ((j, w) ∷ l) (above, a) e i le = elim (Bool-cases (bytes_lt k j)) [
  | inl lt ↦ elim (Bool-cases (bytes_eq j i)) [
    | inl same ↦
        let ji : j ≡ i = (bytes_eq_iff j i).0 same in
        let clash : true ≡ false = sym lt ∙ ap (bytes_lt k) ji ∙ le in cc
    | inr other ↦ rw other (elim (Bool-cases (bytes_lt j i)) [
      | inl ji ↦ let clash : true ≡ false = sym (bytes_lt_trans k j i lt ji) ∙ le in cc
      | inr ji ↦ find_above j i l above ji
    ])
  ]
  | inr ge ↦
      let one : seek k ((j, w) ∷ l) ≡ some (or_else (seek k l) (j, w)) = rw ge in
      let clash = sym one ∙ e in cc
]

-- An item found in the list with nothing between it and the key.
abbrev pub Sought : Bytes → Items → Bytes × Bytes → Type 0
Sought k l (j, v) =
    (find j l ≡ some v)
    × (bytes_lt k j ≡ false)
    × ((i : Bytes) → bytes_lt j i ≡ true → bytes_lt k i ≡ false → find i l ≡ none)

pub seek-some :
    (k : Bytes) (l : Items) → Ascending l → (x : Bytes × Bytes) → seek k l ≡ some x → Sought k l x
seek-some k [] a x e = cc
seek-some k ((j, w) ∷ l) (above, a) x e = elim (Bool-cases (bytes_lt k j)) [
  | inl lt ↦ let stop : seek k ((j, w) ∷ l) ≡ none = rw lt in let clash = sym stop ∙ e in cc
  | inr ge ↦
      let one : seek k ((j, w) ∷ l) ≡ some (or_else (seek k l) (j, w)) = rw ge in
      let this : or_else (seek k l) (j, w) ≡ x = some_inj (sym one ∙ e) in
      elim (Option-cases (seek k l)) [
        | inl past ↦
            let x_eq : (j, w) ≡ x = sym (ap (λ o. or_else o (j, w)) past) ∙ this in
            carry x_eq (here ge past)
        | inr (y, last) ↦
            let x_eq : y ≡ x = sym (ap (λ o. or_else o (j, w)) last) ∙ this in
            carry x_eq (deeper ge y (seek-some k l a y last))
      ]
]
  where
    carry : {y z : Bytes × Bytes} → y ≡ z → Sought k ((j, w) ∷ l) y → Sought k ((j, w) ∷ l) z
    carry same h = coe 0 1 (i. Sought k ((j, w) ∷ l) (same i)) h

    later : (i : Bytes) → bytes_lt j i ≡ true → bytes_eq j i ≡ false
    later i lt = elim (Bool-cases (bytes_eq j i)) [
      | inl same ↦
          let clash : true ≡ false =
            sym lt ∙ ap (bytes_lt j) (sym ((bytes_eq_iff j i).0 same)) ∙ bytes_lt_irrefl j in
          cc
      | inr other ↦ other
    ]

    in_tail : (i : Bytes) {v : Bytes} → find i l ≡ some v → bytes_lt j i ≡ true
    in_tail i found = elim (Bool-cases (bytes_lt j i)) [
      | inl lt ↦ lt
      | inr ge ↦ let clash = sym (find_above j i l above ge) ∙ found in cc
    ]

    here : bytes_lt k j ≡ false → seek k l ≡ none → Sought k ((j, w) ∷ l) (j, w)
    here ge past =
        (rw ((bytes_eq_iff j j).1 refl), ge, λ i lt le. rw (later i lt) (seek-none k l a past i le))

    deeper : bytes_lt k j ≡ false → (y : Bytes × Bytes) → Sought k l y → Sought k ((j, w) ∷ l) y
    deeper ge (i, v) (found, le, between) = (
      rw (later i (in_tail i found)) found,
      le,
      λ i' lt le'. rw (later i' (bytes_lt_trans j i i' (in_tail i found) lt)) (between i' lt le'),
    )

abbrev pub SortedDb : Type 0
SortedDb = (l : Items) × Ascending l

-- Nothing can be said of a recycled item: here it is the key itself.
abbrev pub sorted : Badger
sorted = record {
  Db = SortedDb;
  get = λ d k. find k d.0;
  set = λ d k v. (insert k v d.0, Ascending-insert k v d.0 d.1);
  delete = λ d k. (remove k d.0, Ascending-remove k d.0 d.1);
  seek = λ d k. seek k d.0;
  prev = λ d k. prev k d.0;
  recycled = λ d k. k;
  items = λ d p. with_prefix p d.0;
  get-set = λ d k v j. find-insert k v j d.0;
  get-delete = λ d k j. find-remove k j d.0;
  seek_some = λ d k j v e. seek-some k d.0 d.1 (j, v) e;
  seek_none = λ d k e i le. seek-none k d.0 d.1 e i le;
  find-items = λ d p k. find-with_prefix p k d.0;
  items-Ascending = λ d p. Ascending-with_prefix p d.0 d.1;
}

abbrev pub empty_db : sorted.Db
empty_db = ([], tt)
