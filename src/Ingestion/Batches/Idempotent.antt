-- ===== src/Ingestion/Batches/Idempotent.antt =====
-- A second start of a batch in repositories/ingestion_batch_repository.py.
use bisfin.Base.Result.{ok, ok_injective}
use bisfin.Base.Texts.{Text, same_text_refl}
use bisfin.Base.{
  ◌+◌, ℕ, List, ◌≡◌, some, none, ◌==◌, Option, true, refl, ◌++◌, ◌∷◌, subst, [], arith, ◌+◌,
  Bool-cases, inr, false, inl, sym, ◌∙◌,
}
use bisfin.Ingestion.Batches.{
  NewBatch, get_by_request_id, IngestionBatch, BatchTable, insert_row, existing,
  IngestionBatchStartResult, insert_or_find, same_request, has_feed, row_of, create_batch_if_absent,
  as_created, check_row,
}

pub get_by_request_id-append :
    (feed : ℕ) (r : Text) (bs : List IngestionBatch) (b : IngestionBatch)
    → get_by_request_id feed r bs ≡ none
    → (b.feed_id == feed) ≡ true
    → same_request r b.request_id ≡ true
    → get_by_request_id feed r (bs ++ b ∷ []) ≡ some b
unfolding get_by_request_id
get_by_request_id-append feed r [] b e p q = ground arith
get_by_request_id-append feed r (c ∷ bs) b e p q =
    ground (arith, get_by_request_id-append feed r bs b)

module _ (n : NewBatch) (r : Text) (requested : n.request_id ≡ some r) where
  pub existing_of :
      (t : BatchTable) → existing n n.request_id t ≡ get_by_request_id n.feed_id r t.batches
  existing_of t = rw requested refl

  -- What a start leaves behind: the batch that it returned is found under the request.
  started :
      (now : ℕ) (t : BatchTable) (o : Option IngestionBatch) (s : IngestionBatchStartResult)
      (t' : BatchTable)
      → existing n n.request_id t ≡ o
      → insert_or_find now n t o ≡ ok (s, t')
      → existing n n.request_id t' ≡ some s.batch
  unfolding insert_row
  started now t (some b) s t' e h =
      subst
        (λ (x : IngestionBatchStartResult × BatchTable).
          existing n n.request_id x.1 ≡ some x.0.batch)
        (ok_injective h) e
  started now t none s t' e h = elim (Bool-cases (has_feed n.feed_id t.feeds)) [
    | inr q ↦ absurd (ground arith)
    | inl q ↦
        subst
          (λ (x : IngestionBatchStartResult × BatchTable).
            existing n n.request_id x.1 ≡ some x.0.batch)
          (ok_injective (sym (inserted q) ∙ h))
          (existing_of (grown q)
            ∙ get_by_request_id-append n.feed_id r t.batches (row_of now t.next_id n)
                (sym (existing_of t) ∙ e) (ground arith) (rw requested (same_text_refl r)))
  ]
    where
      grown : has_feed n.feed_id t.feeds ≡ true → BatchTable
      grown q = record t {
        batches = t.batches ++ row_of now t.next_id n ∷ [];
        next_id = t.next_id + 1;
      }

      inserted :
          (q : has_feed n.feed_id t.feeds ≡ true)
          → as_created (insert_row now n t)
            ≡ ok (record { batch = row_of now t.next_id n; created = true }, grown q)
      inserted q = rw q refl

-- After a start under a request identifier, a second start of the same request at any instant returns
-- the same batch, says that it did not create it, and leaves the table as it is.
pub create_batch_if_absent_again :
    (now later : ℕ) (n : NewBatch) (r : Text) (t t' : BatchTable) (s : IngestionBatchStartResult)
    → n.request_id ≡ some r
    → create_batch_if_absent now n t ≡ ok (s, t')
    → create_batch_if_absent later n t' ≡ ok (record { batch = s.batch; created = false }, t')
unfolding create_batch_if_absent check_row
create_batch_if_absent_again now later n r t t' s q e =
    elim (Bool-cases (check_row (row_of now t.next_id n))) [
      | inr c ↦ absurd (refused c)
      | inl c ↦ rw (c, started n r q now t (existing n n.request_id t) s t' refl (accepted c)) refl
    ]
  where
    refused : check_row (row_of now t.next_id n) ≡ false → ⊥
    refused c = ground arith

    accepted :
        check_row (row_of now t.next_id n) ≡ true
        → insert_or_find now n t (existing n n.request_id t) ≡ ok (s, t')
    accepted c = ground arith
