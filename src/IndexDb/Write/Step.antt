-- ===== src/IndexDb/Write/Step.antt =====
-- indexdb/indexdb.go: a call of `Index` for the height behind the latest one, taken apart.
use rosetta.Shared.{
  ℕ, ◌+◌, ◌^◌, ◌<◌, ◌≡◌, ap, sym, ◌∙◌, true, false, some, Bytes, arith, leb, ◌==◌, ==_iff,
}
use rosetta.Shared.Results.{ok, or_crash, or_crash_ok, >>=-eq-ok, ok_inj}
use rosetta.Model.{BlockMeta, IndexedBlock}
use rosetta.IndexDb.{Store}
use rosetta.IndexDb.Database.{Badger, Codec}
use rosetta.IndexDb.Indexed.{IsIndexed}
use rosetta.IndexDb.Write.{
  Collected, add64, collect, nothing_yet, apply_updates, updates_of, set_proxies, set_block,
  index_txn, index_next, index, indexed_meta,
}

module _ (b : Badger) (c : Codec) where
  -- A store whose memory and database hold blocks up to `top`.
  pub record IsStore (s : Store b) (top : BlockMeta) : Type 0 where
    pub latest_eq : s.latest ≡ some top
    pub indexed : IsIndexed b s.db top.height

  -- What a successful call computed on its way.
  pub record Stepped (s s' : Store b) (h : ℕ) (hash : Bytes) (block : IndexedBlock) : Type 0 where
    pub col : Collected
    pub block_value : Bytes
    pub latest_value : Bytes
    pub mid : b.Db
    pub collected : collect h nothing_yet block.transactions ≡ ok col
    pub block_eq : c.encode_block block ≡ some block_value
    pub latest_eq : c.encode_meta (indexed_meta b c h hash block) ≡ some latest_value
    pub applied : apply_updates b s.db (updates_of b h col.accts) ≡ ok mid
    pub db_eq :
        s'.db ≡ set_block b (set_proxies b mid col.proxy_accts) h hash block_value latest_value
    pub meta_eq : s'.latest ≡ some (indexed_meta b c h hash block)
    pub genesis_eq : s'.genesis ≡ s.genesis

  index_next-Stepped :
      (s s' : Store b) (top : BlockMeta) (h : ℕ) (hash : Bytes) (block : IndexedBlock)
      → h ≡ add64 top.height 1
      → index_next b c s top h hash block ≡ ok s'
      → Stepped s s' h hash block
  unfolding index_next index_txn
  index_next-Stepped s s' top h hash block next e =
      let (col, e1, r1) = >>=-eq-ok (collect h nothing_yet block.transactions) _ e in
      let (bv, e2, r2) = >>=-eq-ok (or_crash (c.encode_block block)) _ r1 in
      let (lv, e3, r3) =
        >>=-eq-ok (or_crash (c.encode_meta (indexed_meta b c h hash block))) _ r2 in
      let (d, e4, r4) = >>=-eq-ok (index_txn b s.db h hash col bv lv) _ r3 in
      let (mid, e5, r5) = >>=-eq-ok (apply_updates b s.db (updates_of b h col.accts)) _ e4 in
      let same = ok_inj r4 in
      record {
        col = col;
        block_value = bv;
        latest_value = lv;
        mid = mid;
        collected = e1;
        block_eq = or_crash_ok (c.encode_block block) e2;
        latest_eq = or_crash_ok (c.encode_meta (indexed_meta b c h hash block)) e3;
        applied = e5;
        db_eq = sym (ap (λ (x : Store b). x.db) same) ∙ sym (ok_inj r5);
        meta_eq =
            sym (ap (λ (x : Store b). x.latest) same) ∙ rw ((==_iff h (add64 top.height 1)).1 next);
        genesis_eq = sym (ap (λ (x : Store b). x.genesis) same);
      }

  -- For the next height the call gets past its two guards.
  pub index_guards :
      (s : Store b) (top : BlockMeta) (hash : Bytes) (block : IndexedBlock)
      → s.latest ≡ some top
      → top.height + 1 < 2 ^ 64
      → index b c s (top.height + 1) hash block ≡ index_next b c s top (top.height + 1) hash block
  unfolding index
  index_guards s top hash block e lt =
      let past : leb (top.height + 1) top.height ≡ false = ground arith in
      let next : (top.height + 1 == add64 top.height 1) ≡ true =
        (==_iff (top.height + 1) (add64 top.height 1)).1 (omega arith) in
      rw (e, past, next)

  pub index-Stepped :
      (s s' : Store b) (top : BlockMeta) (hash : Bytes) (block : IndexedBlock)
      → s.latest ≡ some top
      → top.height + 1 < 2 ^ 64
      → index b c s (top.height + 1) hash block ≡ ok s'
      → Stepped s s' (top.height + 1) hash block
  index-Stepped s s' top hash block e lt run =
      index_next-Stepped s s' top (top.height + 1) hash block (omega arith)
        (sym (index_guards s top hash block e lt) ∙ run)
