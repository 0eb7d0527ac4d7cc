-- ===== src/Ingestion/Service/Followed.antt =====
-- The started batch through the transactions of ingestion/service.py.
use bisfin.Repositories.Catalog.{CatalogTables}
use bisfin.Ingestion.Service.Canonicalize.{ResultOf}
use bisfin.Ingestion.Transitions.Followed.{finalize_batch-IsFrom, record_acquisition-IsFresh}
use bisfin.Base.Result.{ok, >>=-inv, ◌>>=◌, ok_injective, map_err, commit-inv, map_err-inv}
use bisfin.Ingestion.Service.Finish.{finalized_as}
use bisfin.Ingestion.Transitions.Single.{IsOnly, IsFrom, IsFresh}
use bisfin.Brsapi.Json.{JsonObject, get}
use bisfin.Ingestion.Batches.{IngestionBatch, BatchTable, is_running}
use bisfin.Ingestion.Transitions.{Acquisition, Finalization, record_acquisition, finalize_batch}
use bisfin.Base.{ℕ, ◌≡◌, some, false, none, subst, sym, refl, ◌∙◌}
use bisfin.Base.Texts.{Text, codes}
use bisfin.Ingestion.Service.{
  World, Started, Step, DailyBarIngestionResult, Store, result_from_batch, batch, database,
}

-- The effective request identifier, and the catalog before the run.
abbrev pub Request : Type 0
Request = Text × CatalogTables

-- The row stands for the request in the table, and the catalog is what it was.
abbrev IsHeld : Request → IngestionBatch → Store → Type 0
IsHeld (r, c) b s = IsOnly r b s.batches × (s.catalog ≡ c)

module _ (w : World) (symbol : Text) (begun : Started) (r : Request) where
  -- The batch is open in the table.
  abbrev pub IsOpened : Store → Type 0
  IsOpened s = (b : IngestionBatch) × IsHeld r b s × IsFrom begun.batch b × IsFresh b

  -- The batch is closed in the table.
  abbrev pub IsEnded : Store → Type 0
  IsEnded s =
      (b : IngestionBatch) × IsHeld r b s × IsFrom begun.batch b × (is_running b.status ≡ false)

  -- The batch is closed, and the result is made from its row.
  abbrev pub IsReported : DailyBarIngestionResult × Store → Type 0
  IsReported (d, s) =
      (b : IngestionBatch) × IsHeld r b s
      × IsFrom begun.batch b
      × (is_running b.status ≡ false)
      × (d ≡ result_from_batch b begun.provider.provider_code begun.feed.feed_code symbol false)

  -- A finalization that succeeded, inside any transaction.
  pub finalized-IsReported :
      (now : ℕ) (f : Finalization) (m : JsonObject) (s s' : Store)
      → f.metadata ≡ some m
      → get (codes "symbol") m ≡ none
      → IsOpened s
      → (z : IngestionBatch × BatchTable)
      → finalize_batch w.redact now begun.batch.ingestion_batch_id f s.batches ≡ ok z
      → s'.batches ≡ z.1
      → s'.catalog ≡ s.catalog
      → IsReported
          (result_from_batch z.0 begun.provider.provider_code begun.feed.feed_code symbol false, s')
  finalized-IsReported now f m s s' e unnamed (b, (only, held), from, fresh) z k t q =
      let (a, c, d) =
        finalize_batch-IsFrom begun.batch r.0 b s.batches only from fresh w.redact now f m e unnamed
          k in
      (z.0, (subst (λ (t' : BatchTable). IsOnly r.0 z.0 t') (sym t) a, q ∙ held), c, d, refl)

  pub finalized_as-IsReported :
      (step : Step) (f : Finalization) (m : JsonObject) (s : Store)
      {x : DailyBarIngestionResult × Store}
      → f.metadata ≡ some m
      → get (codes "symbol") m ≡ none
      → IsOpened s
      → finalized_as w symbol begun step f s ≡ ok x
      → IsReported x
  finalized_as-IsReported step f m s e unnamed h k =
      let closing =
        finalize_batch w.redact (w.current step) begun.batch.ingestion_batch_id f s.batches in
      let (z, h1, h2) =
        >>=-inv (map_err batch closing) (λ (z : IngestionBatch × BatchTable). ending z)
          (commit-inv (w.faults step) database
            (map_err batch closing >>= λ (z : IngestionBatch × BatchTable). ending z) k) in
      subst IsReported (ok_injective h2) (
        finalized-IsReported (w.current step) f m s (record s { batches = z.1 }) e unnamed h z
          (map_err-inv batch closing h1) refl refl)
    where
      ending : IngestionBatch × BatchTable → ResultOf
      ending z = ok (
        result_from_batch z.0 begun.provider.provider_code begun.feed.feed_code symbol false,
        record s { batches = z.1 },
      )

  -- An acquisition that succeeded.
  pub acquired-IsOpened :
      (a : Acquisition) (m : JsonObject) (s s' : Store) (z : IngestionBatch × BatchTable)
      → a.metadata ≡ some m
      → get (codes "symbol") m ≡ none
      → IsOpened s
      → record_acquisition begun.batch.ingestion_batch_id a s.batches ≡ ok z
      → s'.batches ≡ z.1
      → s'.catalog ≡ s.catalog
      → IsOpened s'
  acquired-IsOpened a m s s' z e unnamed (b, (only, held), from, fresh) k t q =
      let (x, c, d) =
        record_acquisition-IsFresh begun.batch r.0 b s.batches only from fresh a m e unnamed k in
      (z.0, (subst (λ (t' : BatchTable). IsOnly r.0 z.0 t') (sym t) x, q ∙ held), c, d)
