-- ===== src/Ingestion/Transitions/Consistent.antt =====
-- The rows of the table in repositories/ingestion_batch_repository.py.
use bisfin.Base.Int.{pos}
use bisfin.Base.Result.{Result, ◌>>◌, ok, err}
use bisfin.Base.Texts.{Text}
use bisfin.Ingestion.Batches.{
  IngestionBatch, create_batch_if_absent, BatchTable, create_batch, insert_row, NewBatch, check_row,
  IngestionBatchStatus, is_running, IngestionError, row_of, as_created, is_negative, insert_or_find,
  has_feed, existing, running, validate_counts, succeeded, failed,
}
use bisfin.Ingestion.Transitions.{
  marked_failed, run_operations, finalize_batch, after, update_rows, record_acquisition,
  valid_update, mark_running, Acquisition, table_of, mark_failed, Finalization, Operation,
  transition, create, is_open, finalized, start, mark, open_row, acquired, acquire, finalize,
  succeed, fail, marked_failed,
}
use bisfin.Base.{
  ℕ, All, Option, List, ◌≡◌, true, false, Bool-cases, arith, ◌∷◌, some, inr, none, inl, All-append,
  is_some, not, refl, [], ◌||◌, ◌&&◌,
}

-- An open batch has no end and no result yet; a closed one has an end. The counts of its rows are not
-- negative, and those accepted and rejected are no more than those received.
pub record IsConsistent (b : IngestionBatch) : Type 0 where
  pub checked : check_row b ≡ true
  pub unfinished :
      is_running b.status ≡ true
      → (b.finished_at ≡ none) × (b.accepted_row_count ≡ pos 0) × (b.rejected_row_count ≡ pos 0)
  pub finished : is_running b.status ≡ false → is_some b.finished_at ≡ true

abbrev pub AreConsistent : BatchTable → Type 0
AreConsistent t = All IsConsistent t.batches

-- An update that keeps the open rows consistent, if the constraints hold.
Keeps : (IngestionBatch → IngestionBatch) → Type 0
Keeps f =
    (c : IngestionBatch)
    → IsConsistent c
    → is_running c.status ≡ true
    → check_row (f c) ≡ true
    → IsConsistent (f c)

update_rows-IsConsistent :
    (i : ℕ) (f : IngestionBatch → IngestionBatch) (bs : List IngestionBatch)
    → Keeps f
    → valid_update i f bs ≡ true
    → All IsConsistent bs
    → All IsConsistent (update_rows i f bs)
unfolding update_rows valid_update Keeps
update_rows-IsConsistent i f [] k v h = tt
update_rows-IsConsistent i f (b ∷ bs) k v h = elim (Bool-cases (is_open i b)) [
  | inl e ↦
      rw e (k b h.0 (opened e) (checked e v), update_rows-IsConsistent i f bs k (ground arith) h.1)
  | inr e ↦ rw e (h.0, update_rows-IsConsistent i f bs k (ground arith) h.1)
]
  where
    opened : is_open i b ≡ true → is_running b.status ≡ true
    opened e = ground arith

    checked :
        is_open i b ≡ true
        → ((not (is_open i b) || check_row (f b)) && valid_update i f bs) ≡ true
        → check_row (f b) ≡ true
    checked e w = ground arith

transition-AreConsistent :
    (j : ℕ) (target : IngestionBatchStatus) (f : IngestionBatch → IngestionBatch) (t : BatchTable)
    (o : Option IngestionBatch)
    → Keeps f
    → AreConsistent t
    → AreConsistent (table_of t (transition j target f t o))
transition-AreConsistent j target f t none k h = h
transition-AreConsistent j target f t (some c) k h =
    elim (Bool-cases (valid_update j f t.batches)) [
      | inl e ↦ rw e (update_rows-IsConsistent j f t.batches k e h)
      | inr e ↦ rw e h
    ]

row_of-IsConsistent :
    (now i : ℕ) (n : NewBatch) → check_row (row_of now i n) ≡ true → IsConsistent (row_of now i n)
row_of-IsConsistent now i n e = record {
  checked = e;
  unfinished = λ r. (refl, refl, refl);
  finished = λ r. absurd (ground arith);
}

insert_row-AreConsistent :
    (now : ℕ) (n : NewBatch) (t : BatchTable)
    → check_row (row_of now t.next_id n) ≡ true
    → AreConsistent t
    → AreConsistent (table_of t (insert_row now n t))
unfolding insert_row
insert_row-AreConsistent now n t e h = elim (Bool-cases (has_feed n.feed_id t.feeds)) [
  | inr q ↦ rw q h
  | inl q ↦ rw q (
      All-append IsConsistent t.batches (row_of now t.next_id n ∷ []) h
        (row_of-IsConsistent now t.next_id n e, tt))
]

create_batch-AreConsistent :
    (now : ℕ) (n : NewBatch) (t : BatchTable)
    → AreConsistent t
    → AreConsistent (table_of t (create_batch now n t))
unfolding create_batch
create_batch-AreConsistent now n t h = elim (Bool-cases (check_row (row_of now t.next_id n))) [
  | inr e ↦ rw e h
  | inl e ↦ elim (Bool-cases (is_some (existing n n.request_id t))) [
    | inl q ↦ rw (e, q) h
    | inr q ↦ rw (e, q) (insert_row-AreConsistent now n t e h)
  ]
]

as_created-AreConsistent :
    (t : BatchTable) (r : Result IngestionError (IngestionBatch × BatchTable))
    → AreConsistent (table_of t r)
    → AreConsistent (table_of t (as_created r))
as_created-AreConsistent t (ok (c, t')) h = h
as_created-AreConsistent t (err e) h = h

insert_or_find-AreConsistent :
    (now : ℕ) (n : NewBatch) (t : BatchTable) (o : Option IngestionBatch)
    → check_row (row_of now t.next_id n) ≡ true
    → AreConsistent t
    → AreConsistent (table_of t (insert_or_find now n t o))
insert_or_find-AreConsistent now n t (some c) e h = h
insert_or_find-AreConsistent now n t none e h =
    as_created-AreConsistent t (insert_row now n t) (insert_row-AreConsistent now n t e h)

create_batch_if_absent-AreConsistent :
    (now : ℕ) (n : NewBatch) (t : BatchTable)
    → AreConsistent t
    → AreConsistent (table_of t (create_batch_if_absent now n t))
unfolding create_batch_if_absent
create_batch_if_absent-AreConsistent now n t h =
    elim (Bool-cases (check_row (row_of now t.next_id n))) [
      | inr e ↦ rw e h
      | inl e ↦ rw e (insert_or_find-AreConsistent now n t (existing n n.request_id t) e h)
    ]

finalize_batch-AreConsistent :
    (redact : Text → Text) (now j : ℕ) (f : Finalization) (t : BatchTable)
    → AreConsistent t
    → AreConsistent (table_of t (finalize_batch redact now j f t))
unfolding finalize_batch Keeps
finalize_batch-AreConsistent redact now j f t h = elim (Bool-cases (is_running f.status)) [
  | inl e ↦ rw e h
  | inr e ↦
      rw e
        (counted e (validate_counts f.received_row_count f.accepted_row_count f.rejected_row_count))
]
  where
    counted :
        is_running f.status ≡ false
        → (r : Result IngestionError Unit)
        → AreConsistent (
            table_of t
              (r >> transition j f.status (finalized redact now f) t (open_row j t.batches)))
    counted e (ok u) =
        transition-AreConsistent j f.status (finalized redact now f) t (open_row j t.batches)
          (λ c k o v. record {
            checked = v;
            unfinished = λ r. absurd (ground arith);
            finished = λ r. refl;
          })
          h
    counted e (err x) = h

record_acquisition-AreConsistent :
    (j : ℕ) (a : Acquisition) (t : BatchTable)
    → AreConsistent t
    → AreConsistent (table_of t (record_acquisition j a t))
unfolding record_acquisition Keeps
record_acquisition-AreConsistent j a t h = elim (Bool-cases (is_negative a.received_row_count)) [
  | inl e ↦ rw e h
  | inr e ↦ rw e (
      transition-AreConsistent j running (acquired a) t (open_row j t.batches)
        (λ c k o v. record { checked = v; unfinished = k.unfinished; finished = k.finished }) h)
]

after-AreConsistent :
    (redact : Text → Text) (now : ℕ) (op : Operation) (t : BatchTable)
    → AreConsistent t
    → AreConsistent (after redact now op t)
unfolding after mark_running mark_failed Keeps
after-AreConsistent redact now (create n) t h = create_batch-AreConsistent now n t h
after-AreConsistent redact now (start n) t h = create_batch_if_absent-AreConsistent now n t h
after-AreConsistent redact now (mark j) t h =
    transition-AreConsistent j running (λ c. record c { status = running }) t (open_row j t.batches)
      (λ c k o v. record {
        checked = v;
        unfinished = λ r. k.unfinished o;
        finished = λ r. absurd (ground arith);
      })
      h
after-AreConsistent redact now (acquire j a) t h = record_acquisition-AreConsistent j a t h
after-AreConsistent redact now (finalize j f) t h = finalize_batch-AreConsistent redact now j f t h
after-AreConsistent redact now (succeed j f) t h =
    finalize_batch-AreConsistent redact now j
      (record f { status = succeeded; error_summary = none }) t h
after-AreConsistent redact now (fail j f) t h =
    transition-AreConsistent j failed (marked_failed now f) t (open_row j t.batches)
      (λ c k o v. record {
        checked = v;
        unfinished = λ r. absurd (ground arith);
        finished = λ r. refl;
      })
      h

-- Calls in any order and number, on a table whose rows are consistent, leave every row consistent:
-- an open batch has no end and no accepted or rejected rows, a closed one has an end, and the
-- constraints on counts and instants hold.
pub run_operations-AreConsistent :
    (redact : Text → Text) (ops : List (ℕ × Operation)) (t : BatchTable)
    → AreConsistent t
    → AreConsistent (run_operations redact ops t)
unfolding run_operations
run_operations-AreConsistent redact [] t h = h
run_operations-AreConsistent redact ((now, op) ∷ ops) t h =
    run_operations-AreConsistent redact ops (after redact now op t)
      (after-AreConsistent redact now op t h)
