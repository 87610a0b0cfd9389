-- ===== src/IndexDb/Write/Applied.antt =====
-- indexdb/indexdb.go: what the loop over the account updates of `Index` leaves in the database.
use rosetta.Shared.{
  find, ℕ, ◌^◌, ◌≤◌, ◌<◌, ◌≡◌, refl, ap, sym, ◌∙◌, Bool, true, false, Option, none, some, [], ◌∷◌,
  Bytes, bytes_eq, bytes_eq_iff, has_prefix, arith, leb, leb→le, if◌then◌else◌, ◌&&◌, length,
  Bool-cases, ◌⊎◌, inl, inr, ◌==◌, ==_iff, some_inj, from_big_endian, from_big_endian-big_endian,
}
use rosetta.Shared.Results.{ok, err}
use rosetta.IndexDb.{invalid_balance, be64, account_key}
use rosetta.IndexDb.Database.{Badger}
use rosetta.IndexDb.Indexed.{IsIndexed, bytes_eq-account_key}
use rosetta.IndexDb.Changes.{latest_change, latest_change_ext}
use rosetta.IndexDb.Balances.{change}
use rosetta.IndexDb.Write.{Diffs, add64, apply_update, apply_updates, updates_of}
use rosetta.IndexDb.Write.Totals.{IsDiffs}
use rosetta.IndexDb.Write.Updates.{set-IsIndexed, current-seek}
use mathlib.Core.Option

pub length_of_find : (y : Bytes) (m : Diffs) {e : ℕ} → IsDiffs m → find y m ≡ some e → length y ≡ 8
length_of_find y [] v fe = cc
length_of_find y ((x, n) ∷ m) (l, new, vm) fe = elim (Bool-cases (bytes_eq x y)) [
  | inl same ↦ rw (← (bytes_eq_iff x y).0 same) l
  | inr other ↦ length_of_find y m vm (rw other at fe)
]

-- What has an entry differs from what has none.
other_name :
    (x y : Bytes) (m : Diffs) {e : ℕ} → find x m ≡ none → find y m ≡ some e → bytes_eq x y ≡ false
other_name x y m {e} new fe = elim (Bool-cases (bytes_eq x y)) [
  | inl same ↦
      let xy : x ≡ y = (bytes_eq_iff x y).0 same in
      let clash : none ≡ some e = sym new ∙ ap (λ (k : Bytes). find k m) xy ∙ fe in cc
  | inr other ↦ other
]

module _ (b : Badger) (h : ℕ) where
  -- The balance that an update gives an account.
  abbrev pub next_balance : b.Db → Bytes → ℕ → ℕ
  next_balance d y diff = add64 (latest_change (change b d y) h) diff

  abbrev pub next_change : b.Db → Bytes → Option ℕ → Option ℕ
  next_change d y none = change b d y h
  next_change d y (some diff) = some (next_balance d y diff)

  -- Database `d'` is `d` with the changes of `m` at the height `h`.
  pub record Applied (d d' : b.Db) (m : Diffs) : Type 0 where
    pub indexed : IsIndexed b d' h
    pub others : (k : Bytes) → has_prefix (b'a' ∷ []) k ≡ false → b.get d' k ≡ b.get d k
    pub changes :
        (y : Bytes) (i : ℕ)
        → length y ≡ 8
        → i < 2 ^ 64
        → change b d' y i ≡ (if i == h then next_change d y (find y m) else change b d y i)
    pub nonneg : (y : Bytes) (diff : ℕ) → find y m ≡ some diff → next_balance d y diff < 2 ^ 63

  -- Some entry of `m` would make a balance negative.
  pub record Rejected (d : b.Db) (m : Diffs) : Type 0 where
    pub acct : Bytes
    pub diff : ℕ
    pub entry : find acct m ≡ some diff
    pub negative : 2 ^ 63 ≤ next_balance d acct diff

  unfoldable pub Fresh : b.Db → Diffs → Type 0
  Fresh d m =
      (y : Bytes) (diff : ℕ)
      → length y ≡ 8
      → find y m ≡ some diff
      → b.get d (account_key y h) ≡ none

  change-set :
      (d : b.Db) (x y : Bytes) (i n : ℕ)
      → length x ≡ 8
      → length y ≡ 8
      → h < 2 ^ 64
      → i < 2 ^ 64
      → n < 2 ^ 64
      → change b (b.set d (account_key x h) (be64 n)) y i
        ≡ (if bytes_eq x y && i == h then some n else change b d y i)
  unfolding change
  change-set d x y i n lx ly hl il nl =
      ap (Option.map (from_big_endian 0)) (
        b.get-set d (account_key x h) (be64 n) (account_key y i)
        ∙ ap (λ (t : Bool). if t then some (be64 n) else b.get d (account_key y i))
            (bytes_eq-account_key x y h i lx ly hl il))
      ∙ read (bytes_eq x y && i == h)
    where
      read :
          (t : Bool)
          → Option.map (from_big_endian 0) (if t then some (be64 n) else b.get d (account_key y i))
            ≡ (if t then some n else Option.map (from_big_endian 0) (b.get d (account_key y i)))
      read true = ap some (from_big_endian-big_endian 8 n nl)
      read false = refl

  module _ (d : b.Db) (v : IsIndexed b d h) (x : Bytes) (lx : length x ≡ 8) (diff : ℕ)
      (small : next_balance d x diff < 2 ^ 63) where
    written : b.Db
    written = b.set d (account_key x h) (be64 (next_balance d x diff))

    written-IsIndexed : IsIndexed b written h
    unfolding written
    written-IsIndexed =
        set-IsIndexed b d h (account_key x h) (be64 (next_balance d x diff)) v
          (λ p. record {
            acct = x;
            height = h;
            amount = next_balance d x diff;
            key_eq = refl;
            height_le = omega arith;
            amount_lt = small;
            val_eq = refl;
          })
          (λ p. unfold has_prefix in cc) (λ p. unfold has_prefix in cc)

    written_others : (k : Bytes) → has_prefix (b'a' ∷ []) k ≡ false → b.get written k ≡ b.get d k
    unfolding written has_prefix bytes_eq
    written_others [] p = b.get-set d (account_key x h) _ []
    written_others (c ∷ k) p = b.get-set d (account_key x h) _ (c ∷ k) ∙ ground arith

    written_changes :
        (y : Bytes) (i : ℕ)
        → length y ≡ 8
        → i < 2 ^ 64
        → change b written y i
          ≡ (if bytes_eq x y && i == h then some (next_balance d x diff) else change b d y i)
    unfolding written
    written_changes y i ly il =
        change-set d x y i (next_balance d x diff) lx ly v.top_lt il (omega arith)

    latest_stays :
        (y : Bytes)
        → length y ≡ 8
        → bytes_eq x y ≡ false
        → latest_change (change b written y) h ≡ latest_change (change b d y) h
    latest_stays y ly other =
        latest_change_ext (change b written y) (change b d y) h
          (λ i p. written_changes y i ly (omega (arith, v.top_lt)) ∙ rw other)

    module _ (m : Diffs) (new : find x m ≡ none) (vm : IsDiffs m) where
      other_of : (y : Bytes) (e : ℕ) → find y m ≡ some e → bytes_eq x y ≡ false
      other_of y e fe = other_name x y m new fe

      written-Fresh : Fresh d m → Fresh written m
      unfolding written Fresh
      written-Fresh fr y e ly fe =
          b.get-set d (account_key x h) (be64 (next_balance d x diff)) (account_key y h)
          ∙ rw (bytes_eq-account_key x y h h lx ly v.top_lt v.top_lt, other_of y e fe)
              (fr y e ly fe)

      cons_changes :
          (y : Bytes) (i : ℕ)
          → length y ≡ 8
          → i < 2 ^ 64
          → (if i == h then next_change written y (find y m) else change b written y i)
            ≡ (if i == h then next_change d y (find y ((x, diff) ∷ m)) else change b d y i)
      cons_changes y i ly il = elim (Bool-cases (bytes_eq x y)) [
        | inl same ↦
            let xy : x ≡ y = (bytes_eq_iff x y).0 same in
            let gone : find y m ≡ none = ap (λ (k : Bytes). find k m) (sym xy) ∙ new in
            let same_next : next_balance d x diff ≡ next_balance d y diff =
              ap (λ (k : Bytes). next_balance d k diff) xy in
            rw
              (
                same,
                gone,
                written_changes y i ly il,
                written_changes y h ly v.top_lt,
                same,
                ← same_next,
              )
              (ground arith)
        | inr other ↦ rw (other, written_changes y i ly il, other) (kept other (find y m))
      ]
        where
          kept :
              bytes_eq x y ≡ false
              → (o : Option ℕ)
              → (if i == h then next_change written y o else change b d y i)
                ≡ (if i == h then next_change d y o else change b d y i)
          kept other none =
              ap (λ (c : Option ℕ). if i == h then c else change b d y i)
                (written_changes y h ly v.top_lt ∙ rw other)
          kept other (some e) =
              ap (λ (l : ℕ). if i == h then some (add64 l e) else change b d y i)
                (latest_stays y ly other)

      next_stays :
          (y : Bytes) (e : ℕ) → find y m ≡ some e → next_balance written y e ≡ next_balance d y e
      next_stays y e fe =
          ap (λ (l : ℕ). add64 l e) (latest_stays y (length_of_find y m vm fe) (other_of y e fe))

      cons_nonneg :
          ((y : Bytes) (e : ℕ) → find y m ≡ some e → next_balance written y e < 2 ^ 63)
          → (y : Bytes) (e : ℕ) → find y ((x, diff) ∷ m) ≡ some e
          → next_balance d y e < 2 ^ 63
      cons_nonneg nonneg y e fe = elim (Bool-cases (bytes_eq x y)) [
        | inl same ↦
            let xy : x ≡ y = (bytes_eq_iff x y).0 same in
            let de : diff ≡ e = some_inj (rw same at fe) in rw (← de, ← xy) small
        | inr other ↦
            let fm : find y m ≡ some e = rw other at fe in rw (← next_stays y e fm) (nonneg y e fm)
      ]

      Applied-cons : (d' : b.Db) → Applied written d' m → Applied d d' ((x, diff) ∷ m)
      Applied-cons d' done = record {
        indexed = done.indexed;
        others = λ k p. done.others k p ∙ written_others k p;
        changes = λ y i ly il. done.changes y i ly il ∙ cons_changes y i ly il;
        nonneg = cons_nonneg done.nonneg;
      }

      Rejected-cons : Rejected written m → Rejected d ((x, diff) ∷ m)
      Rejected-cons r = record {
        acct = r.acct;
        diff = r.diff;
        entry = rw (other_of r.acct r.diff r.entry) r.entry;
        negative = rw (← next_stays r.acct r.diff r.entry) r.negative;
      }

  apply_one :
      (d : b.Db) (x : Bytes) (diff : ℕ)
      → IsIndexed b d h
      → b.get d (account_key x h) ≡ none
      → apply_update b d (account_key x h, diff) ≡ (
          if leb (2 ^ 63) (next_balance d x diff)
          then err invalid_balance
          else ok (b.set d (account_key x h) (be64 (next_balance d x diff))))
  unfolding apply_update
  apply_one d x diff v empty = rw (current-seek b d h v x empty)

  -- The loop over the updates ends with every change written, or at an account whose balance would
  -- be negative.
  pub apply_updates_cases :
      (m : Diffs) (d : b.Db)
      → IsIndexed b d h
      → IsDiffs m
      → Fresh d m
      → ((d' : b.Db) × (apply_updates b d (updates_of b h m) ≡ ok d') × Applied d d' m)
        ⊎ ((apply_updates b d (updates_of b h m) ≡ err invalid_balance) × Rejected d m)
  unfolding apply_updates updates_of
  apply_updates_cases [] d v vm fr = inl (
    d,
    refl,
    record {
      indexed = v;
      others = λ k p. refl;
      changes = λ y i ly il. nothing y i;
      nonneg = λ y e fe. cc;
    },
  )
    where
      nothing :
          (y : Bytes) (i : ℕ) → change b d y i ≡ (if i == h then change b d y h else change b d y i)
      nothing y i = elim (Bool-cases (i == h)) [
        | inl e ↦ rw e (ap (change b d y) ((==_iff i h).0 e))
        | inr e ↦ rw e
      ]
  apply_updates_cases ((x, diff) ∷ m) d v (lx, new, vm) fr =
      elim (Bool-cases (leb (2 ^ 63) (next_balance d x diff))) [
        | inl neg ↦ inr (
          rw (apply_one d x diff v empty, neg),
          record {
            acct = x;
            diff = diff;
            entry = rw ((bytes_eq_iff x x).1 refl);
            negative = leb→le (2 ^ 63) (next_balance d x diff) neg;
          },
        )
        | inr pos ↦
            let small : next_balance d x diff < 2 ^ 63 = ground arith in
            elim (apply_updates_cases m (written d v x lx diff small)
              (written-IsIndexed d v x lx diff small) vm
              (written-Fresh d v x lx diff small m new vm rest)) [
                | inl (d', e, done) ↦ inl (
                  d',
                  rw (apply_one d x diff v empty, pos) (unfold written in e),
                  Applied-cons d v x lx diff small m new vm d' done,
                )
                | inr (e, r) ↦ inr (
                  rw (apply_one d x diff v empty, pos) (unfold written in e),
                  Rejected-cons d v x lx diff small m new vm r,
                )
              ]
      ]
    where
      empty : b.get d (account_key x h) ≡ none
      empty = unfold Fresh in fr x diff lx (rw ((bytes_eq_iff x x).1 refl))

      rest : Fresh d m
      rest = unfold Fresh in λ y e ly fe. fr y e ly (rw (other y e fe) fe)
        where
          other : (y : Bytes) (e : ℕ) → find y m ≡ some e → bytes_eq x y ≡ false
          other y e fe = other_name x y m new fe
