-- ===== src/Shared/Dict.antt =====
-- A Go map with string keys as an association list, whose entries stand in the order of insertion.
use mathlib.Core.Path.{◌≡◌, refl, sym, ◌∙◌}
use mathlib.Core.Option.{Option, none, some}
use mathlib.Core.List.{List, [], ◌∷◌}
use mathlib.Core.Logic.{inl, inr}
use native.Mathlib.Omega.{arith}
use rosetta.Shared.Tests.{if◌then◌else◌, Bool-cases, some_inj}
use rosetta.Shared.ByteStrings.{Bytes, bytes_eq, bytes_eq_iff}

module _ {ℓ} {V : Type ℓ} where
  abbrev pub find : Bytes → List (Bytes × V) → Option V
  find k [] = none
  find k ((j, v) ∷ l) = if bytes_eq j k then some v else find k l

  -- `m[k] = v`
  unfoldable pub put : Bytes → V → List (Bytes × V) → List (Bytes × V)
  put k v [] = (k, v) ∷ []
  put k v ((j, w) ∷ m) = let rest = put k v m in if bytes_eq j k then (j, v) ∷ m else (j, w) ∷ rest

  -- `delete(m, k)`
  unfoldable pub delete_key : Bytes → List (Bytes × V) → List (Bytes × V)
  delete_key k [] = []
  delete_key k ((j, w) ∷ m) =
      let rest = delete_key k m in if bytes_eq j k then rest else (j, w) ∷ rest

  -- No key stands twice.
  abbrev pub IsMap : List (Bytes × V) → Type ℓ
  IsMap [] = Unit
  IsMap ((k, v) ∷ m) = (find k m ≡ none) × IsMap m

  -- `m[k]`, with Go's zero value for a key that is not there.
  abbrev pub find_or : V → Bytes → List (Bytes × V) → V
  find_or d k [] = d
  find_or d k ((j, v) ∷ l) = if bytes_eq j k then v else find_or d k l

  pub find-delete_key :
      (k j : Bytes) (m : List (Bytes × V))
      → find j (delete_key k m) ≡ (if bytes_eq k j then none else find j m)
  unfolding delete_key
  find-delete_key k j [] = ground arith
  find-delete_key k j ((i, w) ∷ m) =
      ground (arith, find-delete_key k j m, bytes_eq_iff i k, bytes_eq_iff i j, bytes_eq_iff k j)

  pub find-put_exact :
      (a x : Bytes) (k : V) (m : List (Bytes × V))
      → find a (put x k m) ≡ (if bytes_eq x a then some k else find a m)
  unfolding put
  find-put_exact a x k [] = ground arith
  find-put_exact a x k ((j, w) ∷ m) =
      ground (arith, find-put_exact a x k m, bytes_eq_iff j x, bytes_eq_iff j a, bytes_eq_iff x a)

  pub find_or-put :
      (d : V) (a x : Bytes) (v : V) (m : List (Bytes × V))
      → find_or d a (put x v m) ≡ (if bytes_eq x a then v else find_or d a m)
  unfolding put
  find_or-put d a x v [] = ground arith
  find_or-put d a x v ((j, w) ∷ m) =
      ground (arith, find_or-put d a x v m, bytes_eq_iff j x, bytes_eq_iff j a, bytes_eq_iff x a)

  pub find_or-none :
      (d : V) (a : Bytes) (m : List (Bytes × V)) → find a m ≡ none → find_or d a m ≡ d
  find_or-none d a [] e = refl
  find_or-none d a ((j, w) ∷ m) e = ground (arith, find_or-none d a m)

  pub find_or-some :
      (d : V) (a : Bytes) (m : List (Bytes × V)) {v : V} → find a m ≡ some v → find_or d a m ≡ v
  find_or-some d a [] e = cc
  find_or-some d a ((j, w) ∷ m) e = elim (Bool-cases (bytes_eq j a)) [
    | inl same ↦
        let here : find a ((j, w) ∷ m) ≡ some w = rw same in rw same (some_inj (sym here ∙ e))
    | inr other ↦
        let skip : find a ((j, w) ∷ m) ≡ find a m = rw other in
        rw other (find_or-some d a m (sym skip ∙ e))
  ]

  pub put-IsMap : (k : Bytes) (v : V) (m : List (Bytes × V)) → IsMap m → IsMap (put k v m)
  unfolding put
  put-IsMap k v [] u = (refl, tt)
  put-IsMap k v ((j, w) ∷ m) (new, u) = elim (Bool-cases (bytes_eq j k)) [
    | inl same ↦ rw same (new, u)
    | inr other ↦
        let skip : find j (put k v m) ≡ none =
          ground (arith, new, other, find-put_exact j k v m, bytes_eq_iff j k, bytes_eq_iff k j) in
        rw other (skip, put-IsMap k v m u)
  ]
