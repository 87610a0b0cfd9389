-- ===== src/State/Transactions/Grouping.antt =====
-- state/process.go: the fast path's grouping of a block's transactions, against the collections that
-- they come from.
use rosetta.Shared.{
  ℕ, zero, suc, ◌≡◌, refl, subst, ap, ap₂, sym, ◌∙◌, true, false, some, List, [], ◌∷◌, ◌++◌, Bytes,
  bytes_eq, bytes_eq_iff, get_elem?, drop, map, append-nil, append_assoc,
}
use rosetta.State.Transactions.{
  Transaction, TransactionResult, CollectionData, empty_collection, add_result, group_from, group,
}

-- The transactions of a collection that is not empty, with their results.
pub record Segment : Type 0 where
  pub head : Transaction × TransactionResult
  pub tail : List (Transaction × TransactionResult)

abbrev pub id_of : Segment → Bytes
id_of s = s.head.1.collection_id

abbrev pub collection_of : Segment → CollectionData
collection_of s = record {
  system = false;
  txns = s.head.0 ∷ map (λ e. e.0) s.tail;
  txn_results = s.head.1 ∷ map (λ e. e.1) s.tail;
}

abbrev pub txns_of : List Segment → List Transaction
txns_of [] = []
txns_of (s ∷ segs) = s.head.0 ∷ map (λ e. e.0) s.tail ++ txns_of segs

abbrev pub results_of : List Segment → List TransactionResult
results_of [] = []
results_of (s ∷ segs) = s.head.1 ∷ map (λ e. e.1) s.tail ++ results_of segs

abbrev pub AreOf : Bytes → List (Transaction × TransactionResult) → Type 0
AreOf id [] = Unit {0}
AreOf id (e ∷ es) = (e.1.collection_id ≡ id) × AreOf id es

-- The results of a segment name one collection, and the next segment's another.
abbrev pub AreSegments : Bytes → List Segment → Type 0
AreSegments prev [] = Unit {0}
AreSegments prev (s ∷ segs) =
    (bytes_eq (id_of s) prev ≡ false) × AreOf (id_of s) s.tail × AreSegments (id_of s) segs

-- The last collection is the system's.
abbrev pub close : CollectionData → List CollectionData → List CollectionData
close col [] = record col { system = true } ∷ []
close col (c ∷ cols) = col ∷ close c cols

abbrev extend : CollectionData → List (Transaction × TransactionResult) → CollectionData
extend col [] = col
extend col (e ∷ es) =
    extend
      (record col { txns = col.txns ++ (e.0 ∷ []); txn_results = col.txn_results ++ (e.1 ∷ []) }) es

extend_exact :
    (col : CollectionData) (es : List (Transaction × TransactionResult))
    → extend col es ≡ record col {
      txns = col.txns ++ map (λ e. e.0) es;
      txn_results = col.txn_results ++ map (λ e. e.1) es;
    }
extend_exact col [] =
    ap₂
      (λ (xs : List Transaction) (ys : List TransactionResult). record {
        system = col.system;
        txns = xs;
        txn_results = ys;
      })
      (sym (append-nil col.txns)) (sym (append-nil col.txn_results))
extend_exact col (e ∷ es) =
    extend_exact
      (record col { txns = col.txns ++ (e.0 ∷ []); txn_results = col.txn_results ++ (e.1 ∷ []) }) es
    ∙ ap₂
        (λ (xs : List Transaction) (ys : List TransactionResult). record {
          system = col.system;
          txns = xs;
          txn_results = ys;
        })
        (append_assoc col.txns (e.0 ∷ []) (map (λ x. x.0) es))
        (append_assoc col.txn_results (e.1 ∷ []) (map (λ x. x.1) es))

drop-suc :
    {A : Type 0} (xs : List A) (n : ℕ) (x : A) (rest : List A)
    → drop n xs ≡ x ∷ rest
    → (get_elem? xs n ≡ some x) × (drop (suc n) xs ≡ rest)
drop-suc [] zero x rest e = cc
drop-suc [] (suc n) x rest e = cc
drop-suc (y ∷ xs) zero x rest e = (cc, cc)
drop-suc (y ∷ xs) (suc n) x rest e = drop-suc xs n x rest e

group_from_exact :
    (txns : List Transaction) (es : List (Transaction × TransactionResult)) (segs : List Segment)
    (idx : ℕ) (prev : Bytes) (col : CollectionData)
    → drop idx txns ≡ map (λ e. e.0) es ++ txns_of segs
    → AreOf prev es
    → AreSegments prev segs
    → group_from txns idx prev col (map (λ e. e.1) es ++ results_of segs)
      ≡ close (extend col es) (map collection_of segs)
unfolding group_from add_result
group_from_exact txns [] [] idx prev col at same apart = refl
group_from_exact txns [] (s ∷ segs) idx prev col at same (other, own, apart) =
    let (here, next) = drop-suc txns idx s.head.0 (map (λ e. e.0) s.tail ++ txns_of segs) at in
    let rest =
      group_from_exact txns s.tail segs (suc idx) (id_of s)
        (record empty_collection { txns = s.head.0 ∷ []; txn_results = s.head.1 ∷ [] }) next own
        apart in
    rw (other, here)
      (ap (λ (cols : List CollectionData). col ∷ cols)
        (rest
          ∙ ap (λ (c : CollectionData). close c (map collection_of segs)) (extend_exact _ s.tail)))
group_from_exact txns ((t, r) ∷ es) segs idx prev col at (is, same) apart =
    let (here, next) = drop-suc txns idx t (map (λ e. e.0) es ++ txns_of segs) at in
    let of_prev = (bytes_eq_iff r.collection_id prev).1 is in
    let rest =
      group_from_exact txns es segs (suc idx) r.collection_id
        (record col { txns = col.txns ++ (t ∷ []); txn_results = col.txn_results ++ (r ∷ []) }) next
        (subst (λ (p : Bytes). AreOf p es) (sym is) same)
        (subst (λ (p : Bytes). AreSegments p segs) (sym is) apart) in
    rw (of_prev, here) rest

-- If a block's transactions, and its results, are those of some collections in their order, none of
-- them empty, where the results of one name it and the next one has another name, then the fast path
-- finds these collections, and marks the last as the system's.
pub group_exact :
    (s : Segment) (segs : List Segment)
    → AreOf (id_of s) s.tail
    → AreSegments (id_of s) segs
    → group (txns_of (s ∷ segs)) (results_of (s ∷ segs))
      ≡ close (collection_of s) (map collection_of segs)
unfolding group add_result
group_exact s segs own apart =
    group_from_exact (txns_of (s ∷ segs)) s.tail segs 1 (id_of s)
      (record empty_collection { txns = s.head.0 ∷ []; txn_results = s.head.1 ∷ [] }) refl own apart
    ∙ ap (λ (c : CollectionData). close c (map collection_of segs)) (extend_exact _ s.tail)
