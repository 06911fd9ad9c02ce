-- ===== src/Purchase/Sync/Again.antt =====
-- A synchronisation that is sent again.
use materials_manager.Base.{
  ℕ, ◌≡◌, refl, sym, ap, subst, ◌∙◌, inl, inr, Text, Bool, true, false, List, [], ◌∷◌, not, ◌||◌,
  any, contains, Bool-cases, truthy, strip, arith,
}
use materials_manager.Core.Tx.{ok, pure}
use materials_manager.Core.Tx.Ensures.{
  Ensures, Ensures-bind, Ensures-gets, Ensures-raise_if, Ensures-modify, Ensures-pure,
}
use materials_manager.Core.Tx.Runs.{bind-ok, gets-ok, modify-ok, raise_if-passes}
use materials_manager.Model.Purchase.{PurchaseRequest, PurchaseRequestLine}
use materials_manager.Model.Database.{Db}
use materials_manager.Purchase.Sync.{
  PurchaseRecordSyncTraceUpdate, PurchaseRecordSyncResultRead, sync_request, sync_line, pass,
  on_trace, request_ids, write_sync, apply_trace_sync,
}
use materials_manager.Purchase.Sync.Laws.{sync_request-again, sync_line-again, pass-again}

list_eq : {m n : ℕ} {ms ns : List ℕ} → m ≡ n → ms ≡ ns → (m ∷ ms) ≡ (n ∷ ns)
list_eq h k = cc

module _ (trace : Text) (update : PurchaseRecordSyncTraceUpdate) where
  abbrev synced : List PurchaseRequestLine → List PurchaseRequestLine
  synced lines = (pass (on_trace trace) (sync_line update) lines).0

  line_stays : (l : PurchaseRequestLine) → on_trace trace (sync_line update l).0 ≡ on_trace trace l
  unfolding on_trace sync_line
  line_stays l = refl

  same_request :
      (l : PurchaseRequestLine) → (sync_line update l).0.purchase_request_id ≡ l.purchase_request_id
  unfolding sync_line
  same_request l = refl

  same_id : (r : PurchaseRequest) → (sync_request update r).0.id ≡ r.id
  unfolding sync_request
  same_id r = refl

  synced-hit :
      (l : PurchaseRequestLine) (ls : List PurchaseRequestLine)
      → on_trace trace l ≡ true
      → synced (l ∷ ls) ≡ ((sync_line update l).0 ∷ synced ls)
  unfolding pass
  synced-hit l ls h = rw (synced, h) refl

  synced-miss :
      (l : PurchaseRequestLine) (ls : List PurchaseRequestLine)
      → on_trace trace l ≡ false
      → synced (l ∷ ls) ≡ (l ∷ synced ls)
  unfolding pass
  synced-miss l ls h = rw (synced, h) refl

  request_ids-hit :
      (l : PurchaseRequestLine) (ls : List PurchaseRequestLine)
      → on_trace trace l ≡ true
      → request_ids trace (l ∷ ls) ≡ (l.purchase_request_id ∷ request_ids trace ls)
  request_ids-hit l ls h = rw h refl

  request_ids-miss :
      (l : PurchaseRequestLine) (ls : List PurchaseRequestLine)
      → on_trace trace l ≡ false
      → request_ids trace (l ∷ ls) ≡ request_ids trace ls
  request_ids-miss l ls h = rw h refl

  request_ids-synced :
      (lines : List PurchaseRequestLine)
      → request_ids trace (synced lines) ≡ request_ids trace lines
  unfolding pass
  request_ids-synced [] = refl
  request_ids-synced (l ∷ ls) = elim (Bool-cases (on_trace trace l)) [
    | inl h ↦
        ap (request_ids trace) (synced-hit l ls h)
        ∙ request_ids-hit (sync_line update l).0 (synced ls) (line_stays l ∙ h)
        ∙ list_eq (same_request l) (request_ids-synced ls)
        ∙ sym (request_ids-hit l ls h)
    | inr h ↦
        ap (request_ids trace) (synced-miss l ls h)
        ∙ request_ids-miss l (synced ls) h
        ∙ request_ids-synced ls
        ∙ sym (request_ids-miss l ls h)
  ]

  any-synced :
      (lines : List PurchaseRequestLine)
      → any (on_trace trace) (synced lines) ≡ any (on_trace trace) lines
  unfolding pass
  any-synced [] = refl
  any-synced (l ∷ ls) = elim (Bool-cases (on_trace trace l)) [
    | inl h ↦
        ap (any (on_trace trace)) (synced-hit l ls h)
        ∙ ap (λ (b : Bool). b || any (on_trace trace) (synced ls)) (line_stays l ∙ h)
        ∙ sym (ap (λ (b : Bool). b || any (on_trace trace) ls) h)
    | inr h ↦
        ap (any (on_trace trace)) (synced-miss l ls h)
        ∙ ap (λ (b : Bool). on_trace trace l || b) (any-synced ls)
  ]

  write_sync-again :
      (db : Db)
      → write_sync trace update (write_sync trace update db).1
        ≡ (record { affected_headers = 0; affected_lines = 0 }, (write_sync trace update db).1)
  unfolding write_sync
  write_sync-again db =
      rw
        (
          request_ids-synced db.purchase_request_lines,
          pass-again (λ r. contains r.id (request_ids trace db.purchase_request_lines))
              (sync_request update)
              (λ r.
                ap (λ (n : ℕ). contains n (request_ids trace db.purchase_request_lines))
                  (same_id r))
              (sync_request-again update) db.purchase_requests,
          pass-again (on_trace trace) (sync_line update) line_stays (sync_line-again update)
              db.purchase_request_lines,
        )
        refl

known-again :
    (trace : Text) (update : PurchaseRecordSyncTraceUpdate) (db : Db)
    → any (on_trace trace) db.purchase_request_lines ≡ true
    → any (on_trace trace) (write_sync trace update db).1.purchase_request_lines ≡ true
unfolding write_sync
known-again trace update db h = any-synced trace update db.purchase_request_lines ∙ h

-- A run of `apply_trace_sync`: the guards that let it pass, and what it writes.
record IsRun (trace_no : Text) (update : PurchaseRecordSyncTraceUpdate) (db : Db)
    (result : PurchaseRecordSyncResultRead) (db' : Db) : Type 0 where
  named : truthy (strip trace_no) ≡ true
  known : any (on_trace (strip trace_no)) db.purchase_request_lines ≡ true
  written : (result, db') ≡ write_sync (strip trace_no) update db

module _ (trace_no : Text) (update : PurchaseRecordSyncTraceUpdate) (db : Db) where
  abbrev trace : Text
  trace = strip trace_no

  written_by :
      {result : PurchaseRecordSyncResultRead} {s : Db}
      → result ≡ (write_sync trace update db).0
      → s ≡ db
      → (result, (write_sync trace update s).1) ≡ write_sync trace update db
  written_by h e = cc

  apply_trace_sync-Ensures :
      Ensures (λ s. s ≡ db) (apply_trace_sync trace_no update) (IsRun trace_no update db)
  unfolding apply_trace_sync
  apply_trace_sync-Ensures =
      Ensures-bind (λ _ s. (s ≡ db) × (not (truthy trace) ≡ false))
        (Ensures-raise_if (not (truthy trace)) _ (λ s c h. (h, c)))
        λ _.
          Ensures-bind
            (λ found s.
              (s ≡ db)
              × (not (truthy trace) ≡ false)
              × (any (on_trace trace) db.purchase_request_lines ≡ found))
            (Ensures-gets _ (λ s h.
              (h.0, h.1, ap (λ (t : Db). any (on_trace trace) t.purchase_request_lines) (sym h.0))))
            λ found.
              Ensures-bind
                (λ _ s.
                  (s ≡ db)
                  × (not (truthy trace) ≡ false)
                  × (any (on_trace trace) db.purchase_request_lines ≡ true))
                (Ensures-raise_if (not found) _ (λ s c h. (h.0, h.1, ground (arith, h.2))))
                λ _.
                  Ensures-bind
                    (λ result s.
                      (s ≡ db)
                      × (not (truthy trace) ≡ false)
                      × (any (on_trace trace) db.purchase_request_lines ≡ true)
                      × (result ≡ (write_sync trace update db).0))
                    (Ensures-gets _
                      (λ s h. (h.0, h.1, h.2, ap (λ (t : Db). (write_sync trace update t).0) h.0)))
                    λ result.
                      Ensures-bind (λ _. IsRun trace_no update db result)
                        (Ensures-modify _ (λ s h. record {
                          named = ground (arith, h.1);
                          known = h.2;
                          written = written_by h.3 h.0;
                        }))
                        λ _. Ensures-pure result (λ s h. h)

  apply_trace_sync-runs :
      truthy trace ≡ true
      → any (on_trace trace) db.purchase_request_lines ≡ true
      → apply_trace_sync trace_no update db ≡ ok (write_sync trace update db)
  unfolding apply_trace_sync pure
  apply_trace_sync-runs t f =
      bind-ok _ _ db tt db (raise_if-passes (not (truthy trace)) _ db (ap not t))
      ∙ bind-ok _ _ db _ db (gets-ok _ db)
      ∙ bind-ok _ _ db tt db (raise_if-passes _ _ db (ap not f))
      ∙ bind-ok _ _ db _ db (gets-ok _ db)
      ∙ bind-ok _ _ db tt _ (modify-ok _ db)
      ∙ refl

-- If a synchronisation has run, then running it again with the same trace number and the same data
-- succeeds, reports no changed record and no changed line, and leaves the database as it is.
pub apply_trace_sync_again :
    (trace_no : Text) (update : PurchaseRecordSyncTraceUpdate) (db : Db)
    (result : PurchaseRecordSyncResultRead) (db' : Db)
    → apply_trace_sync trace_no update db ≡ ok (result, db')
    → apply_trace_sync trace_no update db'
      ≡ ok (record { affected_headers = 0; affected_lines = 0 }, db')
apply_trace_sync_again trace_no update db result db' e =
    let run = (apply_trace_sync-Ensures trace_no update db).at db refl result db' e in
    let left : db' ≡ (write_sync (strip trace_no) update db).1 =
      ap (λ (q : PurchaseRecordSyncResultRead × Db). q.1) run.written in
    subst
      (λ (s : Db).
        apply_trace_sync trace_no update s
        ≡ ok (record { affected_headers = 0; affected_lines = 0 }, s))
      (sym left)
      (apply_trace_sync-runs trace_no update (write_sync (strip trace_no) update db).1 run.named
          (known-again (strip trace_no) update db run.known)
        ∙ ap ok (write_sync-again (strip trace_no) update db))
