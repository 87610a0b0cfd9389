-- ===== src/IndexDb/Indexed.antt =====
-- The invariant of a database that holds indexed blocks, and facts about the keys.
use rosetta.Shared.{
  ℕ, ◌^◌, ◌≤◌, ◌<◌, ◌≡◌, refl, ap, sym, ◌∙◌, true, some, List, [], ◌∷◌, ◌++◌, Bytes, has_prefix,
  bytes_lt, bytes_eq, bytes_eq_iff, length, take, drop, replicate, length-append, length-take,
  arith, ltb, bytes_lt-append, bytes_lt-big_endian, from_big_endian-big_endian, length-big_endian,
  has_prefix_same, has_prefix-append, big_endian_inj, ap₂, Bool-cases, inl, inr, ==_iff, ◌&&◌, ◌==◌,
}
use rosetta.Shared.Results.{ok}
use rosetta.IndexDb.{be64, uint64, pad8, account_prefix, account_key, proxy_key, height2hash_key}
use rosetta.IndexDb.Database.{Badger}

pub record IsAccountItem (top : ℕ) (key val : Bytes) : Type 0 where
  pub acct : Bytes
  pub height : ℕ
  pub amount : ℕ
  pub key_eq : key ≡ account_key acct height
  pub height_le : height ≤ top
  pub amount_lt : amount < 2 ^ 63
  pub val_eq : val ≡ be64 amount

pub record IsProxyItem (top : ℕ) (key : Bytes) : Type 0 where
  pub acct : Bytes
  pub height : ℕ
  pub key_eq : key ≡ proxy_key acct height
  pub height_le : height ≤ top

pub record IsHashItem (top : ℕ) (key : Bytes) : Type 0 where
  pub height : ℕ
  pub key_eq : key ≡ height2hash_key height
  pub height_le : height ≤ top

-- Every key of the three kinds that carry a height is well formed, and none is above `top`.
pub record IsIndexed (b : Badger) (d : b.Db) (top : ℕ) : Type 0 where
  pub top_lt : top < 2 ^ 64
  pub accounts :
      (k v : Bytes) → b.get d k ≡ some v → has_prefix (b'a' ∷ []) k ≡ true → IsAccountItem top k v
  pub proxies :
      (k v : Bytes) → b.get d k ≡ some v → has_prefix (b'p' ∷ []) k ≡ true → IsProxyItem top k
  pub hashes :
      (k v : Bytes) → b.get d k ≡ some v → has_prefix (b'd' ∷ []) k ≡ true → IsHashItem top k

pub take_all {ℓ} : {A : Type ℓ} (xs : List A) → take (length xs) xs ≡ xs
take_all [] = refl
take_all (x ∷ xs) = ap (◌∷◌ x) (take_all xs)

pub take_append {ℓ} : {A : Type ℓ} (xs ys : List A) → take (length xs) (xs ++ ys) ≡ xs
take_append [] ys = refl
take_append (x ∷ xs) ys = ap (◌∷◌ x) (take_append xs ys)

pub length-pad8 : (a : Bytes) → length (pad8 a) ≡ 8
unfolding pad8
length-pad8 a = omega (arith, length-take 8 (a ++ replicate 8 0), length-append a (replicate 8 0))

-- An address of 8 bytes is its own key.
pub pad8_eq : (a : Bytes) → length a ≡ 8 → pad8 a ≡ a
unfolding pad8
pad8_eq a h = ap (λ (n : ℕ). take n (a ++ replicate 8 0)) (sym h) ∙ take_append a (replicate 8 0)

pub uint64-be64 : (n : ℕ) → n < 2 ^ 64 → uint64 (be64 n) ≡ ok n
uint64-be64 n h =
    let len = length-big_endian 8 n in
    let all : take 8 (be64 n) ≡ be64 n =
      ap (λ (k : ℕ). take k (be64 n)) (sym len) ∙ take_all (be64 n) in
    rw (len, all, from_big_endian-big_endian 8 n h)

-- The keys of one account are in the order of their heights.
pub bytes_lt-account_key :
    (a : Bytes) (h k : ℕ)
    → h < 2 ^ 64
    → k < 2 ^ 64
    → bytes_lt (account_key a h) (account_key a k) ≡ ltb h k
bytes_lt-account_key a h k p q =
    bytes_lt-append (account_prefix a) (be64 h) (be64 k) ∙ bytes_lt-big_endian 8 h k p q

pub account_prefix_same :
    (a a' : Bytes) (h : ℕ)
    → has_prefix (account_prefix a) (account_key a' h) ≡ true
    → pad8 a ≡ pad8 a'
unfolding has_prefix
account_prefix_same a a' h e =
    has_prefix_same (pad8 a) (pad8 a') (be64 h) (length-pad8 a ∙ sym (length-pad8 a')) e

pub account_prefix_a :
    (a k : Bytes) → has_prefix (account_prefix a) k ≡ true → has_prefix (b'a' ∷ []) k ≡ true
unfolding has_prefix
account_prefix_a a [] e = cc
account_prefix_a a (x ∷ k) e = ground arith

drop_append {ℓ} : {A : Type ℓ} (xs ys : List A) → drop (length xs) (xs ++ ys) ≡ ys
drop_append [] ys = refl
drop_append (x ∷ xs) ys = drop_append xs ys

-- One key for each account and height.
pub account_key_parts :
    (x y : Bytes) (h i : ℕ)
    → h < 2 ^ 64
    → i < 2 ^ 64
    → account_key x h ≡ account_key y i
    → (pad8 x ≡ pad8 y) × (h ≡ i)
account_key_parts x y h i hl il e =
    let fronts : pad8 x ≡ pad8 y = account_prefix_same x y i (
      ap (has_prefix (account_prefix x)) (sym e) ∙ has_prefix-append (account_prefix x) (be64 h)) in
    let backs : be64 h ≡ be64 i =
      sym (drop_append (pad8 x) (be64 h))
      ∙ ap₂ drop (ap length fronts) (ap (drop 1) e)
      ∙ drop_append (pad8 y) (be64 i) in
    (fronts, big_endian_inj 8 h i hl il backs)

pub account_key_inj :
    (x y : Bytes) (h i : ℕ)
    → length x ≡ 8
    → length y ≡ 8
    → h < 2 ^ 64
    → i < 2 ^ 64
    → account_key x h ≡ account_key y i
    → (x ≡ y) × (h ≡ i)
account_key_inj x y h i lx ly hl il e =
    let (fronts, hi) = account_key_parts x y h i hl il e in
    (sym (pad8_eq x lx) ∙ fronts ∙ pad8_eq y ly, hi)

pub bytes_eq-account_key :
    (x y : Bytes) (h i : ℕ)
    → length x ≡ 8
    → length y ≡ 8
    → h < 2 ^ 64
    → i < 2 ^ 64
    → bytes_eq (account_key x h) (account_key y i) ≡ (bytes_eq x y && i == h)
bytes_eq-account_key x y h i lx ly hl il =
    elim (Bool-cases (bytes_eq (account_key x h) (account_key y i))) [
      | inl same ↦
          let (xy, hi) =
            account_key_inj x y h i lx ly hl il
              ((bytes_eq_iff (account_key x h) (account_key y i)).0 same) in
          rw (same, (bytes_eq_iff x y).1 xy, (==_iff i h).1 (sym hi))
      | inr other ↦ elim (Bool-cases (bytes_eq x y && i == h)) [
        | inl p ↦
            let xy : x ≡ y = (bytes_eq_iff x y).0 (ground arith) in
            let hi : h ≡ i = ground arith in
            let clash =
              (bytes_eq_iff (account_key x h) (account_key y i)).1 (ap₂ account_key xy hi) in
            cc
        | inr p ↦ rw (other, p)
      ]
    ]
