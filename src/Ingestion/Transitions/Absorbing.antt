-- ===== src/Ingestion/Transitions/Absorbing.antt =====
-- Closed batches of repositories/ingestion_batch_repository.py.
use bisfin.Base.Result.{Result, ◌>>◌, ok, err}
use bisfin.Base.Texts.{Text}
use bisfin.Base.{
  ℕ, List, ◌≡◌, some, ◌++◌, false, arith, ◌∷◌, [], Option, Bool-cases, inl, inr, is_some, none,
  refl,
}
use bisfin.Ingestion.Transitions.{
  update_rows, finalize_batch, record_acquisition, after, run_operations, mark_running, Acquisition,
  table_of, transition, Operation, Finalization, mark_failed, create, start, finalized, mark,
  open_row, acquire, acquired, finalize, succeed, fail, marked_failed, valid_update,
}
use bisfin.Ingestion.Batches.{
  get_by_id, IngestionBatch, is_running, BatchTable, create_batch, IngestionBatchStatus, NewBatch,
  create_batch_if_absent, insert_row, IngestionError, check_row, has_feed, is_negative, running,
  validate_counts, succeeded, failed, row_of, existing, as_created, insert_or_find,
}

get_by_id-append :
    (i : ℕ) (bs cs : List IngestionBatch) (b : IngestionBatch)
    → get_by_id i bs ≡ some b
    → get_by_id i (bs ++ cs) ≡ some b
unfolding get_by_id
get_by_id-append i [] cs b e = absurd (ground arith)
get_by_id-append i (c ∷ bs) cs b e = ground (arith, get_by_id-append i bs cs b)

get_by_id-update_rows :
    (i j : ℕ) (f : IngestionBatch → IngestionBatch) (bs : List IngestionBatch) (b : IngestionBatch)
    → ((c : IngestionBatch) → (f c).ingestion_batch_id ≡ c.ingestion_batch_id)
    → is_running b.status ≡ false
    → get_by_id i bs ≡ some b
    → get_by_id i (update_rows j f bs) ≡ some b
unfolding get_by_id update_rows
get_by_id-update_rows i j f [] b same closed e = absurd (ground arith)
get_by_id-update_rows i j f (c ∷ bs) b same closed e =
    ground (arith, same c, get_by_id-update_rows i j f bs b same closed)

module _ (i : ℕ) (b : IngestionBatch) (closed : is_running b.status ≡ false) where
  abbrev Holds : BatchTable → Type 0
  Holds t = get_by_id i t.batches ≡ some b

  transition-Holds :
      (j : ℕ) (target : IngestionBatchStatus) (f : IngestionBatch → IngestionBatch) (t : BatchTable)
      (o : Option IngestionBatch)
      → ((c : IngestionBatch) → (f c).ingestion_batch_id ≡ c.ingestion_batch_id)
      → Holds t
      → Holds (table_of t (transition j target f t o))
  transition-Holds j target f t none same h = h
  transition-Holds j target f t (some c) same h = elim (Bool-cases (valid_update j f t.batches)) [
    | inl e ↦ rw e (get_by_id-update_rows i j f t.batches b same closed h)
    | inr e ↦ rw e h
  ]

  insert_row-Holds :
      (now : ℕ) (n : NewBatch) (t : BatchTable) → Holds t → Holds (table_of t (insert_row now n t))
  unfolding insert_row
  insert_row-Holds now n t h = elim (Bool-cases (has_feed n.feed_id t.feeds)) [
    | inr e ↦ rw e h
    | inl e ↦ rw e (get_by_id-append i t.batches (row_of now t.next_id n ∷ []) b h)
  ]

  create_batch-Holds :
      (now : ℕ) (n : NewBatch) (t : BatchTable)
      → Holds t
      → Holds (table_of t (create_batch now n t))
  unfolding create_batch
  create_batch-Holds now n t h = elim (Bool-cases (check_row (row_of now t.next_id n))) [
    | inr e ↦ rw e h
    | inl e ↦ elim (Bool-cases (is_some (existing n n.request_id t))) [
      | inl q ↦ rw (e, q) h
      | inr q ↦ rw (e, q) (insert_row-Holds now n t h)
    ]
  ]

  as_created-Holds :
      (t : BatchTable) (r : Result IngestionError (IngestionBatch × BatchTable))
      → Holds (table_of t r)
      → Holds (table_of t (as_created r))
  as_created-Holds t (ok (c, t')) h = h
  as_created-Holds t (err e) h = h

  insert_or_find-Holds :
      (now : ℕ) (n : NewBatch) (t : BatchTable) (o : Option IngestionBatch)
      → Holds t
      → Holds (table_of t (insert_or_find now n t o))
  insert_or_find-Holds now n t (some c) h = h
  insert_or_find-Holds now n t none h =
      as_created-Holds t (insert_row now n t) (insert_row-Holds now n t h)

  create_batch_if_absent-Holds :
      (now : ℕ) (n : NewBatch) (t : BatchTable)
      → Holds t
      → Holds (table_of t (create_batch_if_absent now n t))
  unfolding create_batch_if_absent
  create_batch_if_absent-Holds now n t h = elim (Bool-cases (check_row (row_of now t.next_id n))) [
    | inr e ↦ rw e h
    | inl e ↦ rw e (insert_or_find-Holds now n t (existing n n.request_id t) h)
  ]

  finalize_batch-Holds :
      (redact : Text → Text) (now j : ℕ) (f : Finalization) (t : BatchTable)
      → Holds t
      → Holds (table_of t (finalize_batch redact now j f t))
  unfolding finalize_batch
  finalize_batch-Holds redact now j f t h = elim (Bool-cases (is_running f.status)) [
    | inl e ↦ rw e h
    | inr e ↦
        rw e
          (counted (validate_counts f.received_row_count f.accepted_row_count f.rejected_row_count))
  ]
    where
      counted :
          (r : Result IngestionError Unit)
          → Holds (
              table_of t
                (r >> transition j f.status (finalized redact now f) t (open_row j t.batches)))
      counted (ok u) =
          transition-Holds j f.status (finalized redact now f) t (open_row j t.batches) (λ c. refl)
            h
      counted (err e) = h

  record_acquisition-Holds :
      (j : ℕ) (a : Acquisition) (t : BatchTable)
      → Holds t
      → Holds (table_of t (record_acquisition j a t))
  unfolding record_acquisition
  record_acquisition-Holds j a t h = elim (Bool-cases (is_negative a.received_row_count)) [
    | inl e ↦ rw e h
    | inr e ↦ rw e (transition-Holds j running (acquired a) t (open_row j t.batches) (λ c. refl) h)
  ]

  after-Holds :
      (redact : Text → Text) (now : ℕ) (op : Operation) (t : BatchTable)
      → Holds t
      → Holds (after redact now op t)
  unfolding after mark_running mark_failed
  after-Holds redact now (create n) t h = create_batch-Holds now n t h
  after-Holds redact now (start n) t h = create_batch_if_absent-Holds now n t h
  after-Holds redact now (mark j) t h =
      transition-Holds j running (λ c. record c { status = running }) t (open_row j t.batches)
        (λ c. refl) h
  after-Holds redact now (acquire j a) t h = record_acquisition-Holds j a t h
  after-Holds redact now (finalize j f) t h = finalize_batch-Holds redact now j f t h
  after-Holds redact now (succeed j f) t h =
      finalize_batch-Holds redact now j (record f { status = succeeded; error_summary = none }) t h
  after-Holds redact now (fail j f) t h =
      transition-Holds j failed (marked_failed now f) t (open_row j t.batches) (λ c. refl) h

-- A batch of the table whose status is not RUNNING stays as it is, whatever calls follow.
pub run_operations_closed :
    (redact : Text → Text) (ops : List (ℕ × Operation)) (t : BatchTable) (i : ℕ)
    (b : IngestionBatch)
    → get_by_id i t.batches ≡ some b
    → is_running b.status ≡ false
    → get_by_id i (run_operations redact ops t).batches ≡ some b
unfolding run_operations
run_operations_closed redact [] t i b h closed = h
run_operations_closed redact ((now, op) ∷ ops) t i b h closed =
    run_operations_closed redact ops (after redact now op t) i b
      (after-Holds i b closed redact now op t h) closed
