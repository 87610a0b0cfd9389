-- ===== src/IndexDb/Purge/Marks.antt =====
-- indexdb/indexdb.go: the keys that `PurgeProxyAccounts` collects.
use rosetta.Shared.{
  find, put, ℕ, ◌≤◌, ◌≡◌, refl, ap, sym, ◌∙◌, Bool, true, false, ◌||◌, ◌&&◌, some, List, [], ◌∷◌,
  ◌++◌, Bytes, bytes_eq, bytes_eq_iff, has_prefix, arith, if◌then◌else◌, Bool-cases, inl, inr,
  length, drop, take, map, length-append,
}
use rosetta.Shared.Results.{ok}
use rosetta.IndexDb.{pad8, be64}
use rosetta.IndexDb.Indexed.{length-pad8, take_append}
use rosetta.IndexDb.Reset.Keys.{mem, AllItems}
use rosetta.IndexDb.Purge.{account_of, proxy_marks, balance_keys, is_some}

-- The address in a key.
abbrev pub address : Bytes → Bytes
address k = take 8 (drop 1 k)

-- Whether an item of the list belongs to the account.
unfoldable pub marked : Bytes → List (Bytes × Bytes) → Bool
marked a [] = false
marked a ((k, v) ∷ l) = bytes_eq (address k) a || marked a l

abbrev pub IsMark : Bytes → Bytes → Type 0
IsMark k v = (9 ≤ length k) × (has_prefix (b'p' ∷ []) k ≡ true)

pub address-key : (x : ℕ) (acct : Bytes) (h : ℕ) → address ((x ∷ pad8 acct) ++ be64 h) ≡ pad8 acct
address-key x acct h =
    ap (λ (n : ℕ). take n (pad8 acct ++ be64 h)) (sym (length-pad8 acct))
    ∙ take_append (pad8 acct) (be64 h)

pub length-key : (x : ℕ) (acct : Bytes) (h : ℕ) → 9 ≤ length ((x ∷ pad8 acct) ++ be64 h)
length-key x acct h = omega (arith, length-append (pad8 acct) (be64 h), length-pad8 acct)

pub account_of-address : (k : Bytes) → 9 ≤ length k → account_of k ≡ ok (address k)
unfolding account_of
account_of-address k le = ground arith

find-put :
    (a x k : Bytes) (m : List (Bytes × Bytes))
    → is_some (find a (put x k m)) ≡ (bytes_eq x a || is_some (find a m))
unfolding put
find-put a x k [] = ground arith
find-put a x k ((j, w) ∷ m) =
    ground (arith, find-put a x k m, bytes_eq_iff j x, bytes_eq_iff j a, bytes_eq_iff x a)

put-AllItems :
    (x k : Bytes) (m : List (Bytes × Bytes))
    → has_prefix (b'p' ∷ []) k ≡ true
    → AllItems (λ j w. has_prefix (b'p' ∷ []) w ≡ true) m
    → AllItems (λ j w. has_prefix (b'p' ∷ []) w ≡ true) (put x k m)
unfolding put
put-AllItems x k [] p a = (p, tt)
put-AllItems x k ((j, w) ∷ m) p (q, a) = elim (Bool-cases (bytes_eq j x)) [
  | inl same ↦ rw same (p, a)
  | inr other ↦ rw other (q, put-AllItems x k m p a)
]

-- The marks found: one for each account that has one, each with its own kind of key.
pub record Marked (l m0 : List (Bytes × Bytes)) : Type 0 where
  pub marks : List (Bytes × Bytes)
  pub eq : proxy_marks l m0 ≡ ok marks
  pub own : AllItems (λ j w. has_prefix (b'p' ∷ []) w ≡ true) marks
  pub found : (a : Bytes) → is_some (find a marks) ≡ (is_some (find a m0) || marked a l)

pub proxy_marks-Marked :
    (l m0 : List (Bytes × Bytes))
    → AllItems IsMark l
    → AllItems (λ j w. has_prefix (b'p' ∷ []) w ≡ true) m0
    → Marked l m0
unfolding proxy_marks marked
proxy_marks-Marked [] m0 a own = record {
  marks = m0;
  eq = refl;
  own = own;
  found = λ x. ground arith;
}
proxy_marks-Marked ((k, v) ∷ l) m0 ((long, p), a) own =
    let rest =
      proxy_marks-Marked l (put (address k) k m0) a (put-AllItems (address k) k m0 p own) in
    record {
      marks = rest.marks;
      eq = rw (account_of-address k long) rest.eq;
      own = rest.own;
      found = λ x. ground (arith, rest.found x, find-put x (address k) k m0);
    }

pub record Owned (accts l : List (Bytes × Bytes)) : Type 0 where
  pub keys : List Bytes
  pub eq : balance_keys accts l ≡ ok keys
  pub member : (k : Bytes) → mem k keys ≡ (is_some (find k l) && is_some (find (address k) accts))

pub balance_keys-Owned :
    (accts l : List (Bytes × Bytes)) → AllItems (λ k v. 9 ≤ length k) l → Owned accts l
unfolding balance_keys
balance_keys-Owned accts [] a = record { keys = []; eq = refl; member = λ k. refl }
balance_keys-Owned accts ((j, w) ∷ l) (long, a) =
    let rest = balance_keys-Owned accts l a in
    record {
      keys = if is_some (find (address j) accts) then j ∷ rest.keys else rest.keys;
      eq = rw (account_of-address j long, rest.eq);
      member = λ k. elim (Bool-cases (bytes_eq j k)) [
        | inl same ↦
            let jk = (bytes_eq_iff j k).0 same in
            let addr : is_some (find (address j) accts) ≡ is_some (find (address k) accts) =
              ap (λ (x : Bytes). is_some (find (address x) accts)) jk in
            ground (arith, same, addr, rest.member k)
        | inr other ↦ ground (arith, other, rest.member k)
      ];
    }

pub marked_item :
    (a k : Bytes) (l : List (Bytes × Bytes)) {v : Bytes}
    → find k l ≡ some v
    → address k ≡ a
    → marked a l ≡ true
unfolding marked
marked_item a k [] f e = cc
marked_item a k ((j, w) ∷ l) f e = elim (Bool-cases (bytes_eq j k)) [
  | inl same ↦
      let ja : address j ≡ a = ap (λ (x : Bytes). address x) ((bytes_eq_iff j k).0 same) ∙ e in
      rw ((bytes_eq_iff (address j) a).1 ja)
  | inr other ↦
      let skip : find k ((j, w) ∷ l) ≡ find k l = rw other in
      let rest : marked a l ≡ true = marked_item a k l (sym skip ∙ f) e in ground (arith, rest)
]

pub not_marked :
    (a : Bytes) (l : List (Bytes × Bytes))
    → AllItems (λ k v. bytes_eq (address k) a ≡ false) l
    → marked a l ≡ false
unfolding marked
not_marked a [] h = refl
not_marked a ((j, w) ∷ l) (n, h) = rw (n, not_marked a l h)

pub mem-own :
    (k : Bytes) (m : List (Bytes × Bytes))
    → AllItems (λ j w. has_prefix (b'p' ∷ []) w ≡ true) m
    → has_prefix (b'p' ∷ []) k ≡ false
    → mem k (map (λ e. e.1) m) ≡ false
mem-own k [] a p = refl
mem-own k ((j, w) ∷ m) (q, a) p = elim (Bool-cases (bytes_eq w k)) [
  | inl same ↦
      let clash : true ≡ false =
        sym q ∙ ap (has_prefix (b'p' ∷ [])) ((bytes_eq_iff w k).0 same) ∙ p in
      cc
  | inr other ↦ rw (other, mem-own k m a p)
]
