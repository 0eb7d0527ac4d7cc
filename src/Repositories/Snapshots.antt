-- ===== src/Repositories/Snapshots.antt =====
-- snapshot_repository.py, with the tables `data_snapshot` and `data_snapshot_component`. A snapshot is
-- built, and then frozen or failed. Digests are texts of 64 characters, and `now` is CURRENT_TIMESTAMP.
pub mod Final
use bisfin.Repositories.{RepositoryError, invalid_state_transition, integrity_violation}
use bisfin.Base.Sort.{sorted}
use bisfin.Base.{
  ℕ, List, Bool, Option, if◌then◌else◌, true, ◌&&◌, ◌==◌, none, ◌∷◌, false, some, ◌||◌, keep, [],
  ltb, is_some, not, ◌++◌, ◌+◌,
}
use bisfin.Base.Texts.{Text, same_text}
use bisfin.Base.Result.{Result, ok, err, raise_if, ◌>>◌, ◌>>=◌}
use bisfin.Brsapi.Json.{JsonObject}

pub data ReplayMode : Type 0 where
  public_replay actual_system_replay : ReplayMode

pub data SnapshotStatus : Type 0 where
  building frozen failed deprecated : SnapshotStatus

pub record SnapshotRecord : Type 0 where
  pub data_snapshot_id : ℕ
  pub snapshot_code : Text
  pub knowledge_cutoff_ts : ℕ
  pub availability_mode : ReplayMode
  pub manifest_sha256 : Option Text
  pub status : SnapshotStatus
  pub created_at : ℕ
  pub frozen_at : Option ℕ
  pub metadata : JsonObject

-- `SnapshotComponentResult`, with what the repository and a backtest read of it.
pub record SnapshotComponentResult : Type 0 where
  pub component_key : Text
  pub bar_series_id : ℕ
  pub feed_id : ℕ
  pub event_from : ℕ
  pub event_to : ℕ
  pub max_available_at : Option ℕ
  pub max_system_available_at : Option ℕ
  pub row_count : ℕ
  pub component_sha256 : Text
  pub storage_uri : Text

-- A row of `data_snapshot_component`.
pub record SnapshotComponent : Type 0 where
  pub snapshot : ℕ
  pub component : SnapshotComponentResult

pub record SnapshotTables : Type 0 where
  pub snapshots : List SnapshotRecord
  pub next_snapshot_id : ℕ
  pub components : List SnapshotComponent
  pub has_feed : ℕ → Bool

abbrev pub is_building : SnapshotStatus → Bool
is_building building = true
is_building frozen = false
is_building failed = false
is_building deprecated = false

unfoldable pub snapshot_by_code : Text → List SnapshotRecord → Option SnapshotRecord
snapshot_by_code code [] = none
snapshot_by_code code (r ∷ rs) =
    let rest = snapshot_by_code code rs in if same_text r.snapshot_code code then some r else rest

unfoldable pub snapshot_by_id : ℕ → List SnapshotRecord → Option SnapshotRecord
snapshot_by_id i [] = none
snapshot_by_id i (r ∷ rs) =
    let rest = snapshot_by_id i rs in if r.data_snapshot_id == i then some r else rest

abbrev pub new_snapshot : ℕ → ℕ → Text → ℕ → ReplayMode → JsonObject → SnapshotRecord
new_snapshot now i code cutoff mode metadata = record {
  data_snapshot_id = i;
  snapshot_code = code;
  knowledge_cutoff_ts = cutoff;
  availability_mode = mode;
  manifest_sha256 = none;
  status = building;
  created_at = now;
  frozen_at = none;
  metadata = metadata;
}

abbrev pub Snapshot : Type 0
Snapshot = SnapshotRecord × SnapshotTables

-- The code of a snapshot is unique.
unfoldable pub create_building :
    ℕ → Text → ℕ → ReplayMode → JsonObject → SnapshotTables → Result RepositoryError Snapshot
unfolding snapshot_by_code
create_building now code cutoff mode metadata t = do
  raise_if (is_some (snapshot_by_code code t.snapshots)) integrity_violation
  let r = new_snapshot now t.next_snapshot_id code cutoff mode metadata
  ok (r, record t { snapshots = t.snapshots ++ r ∷ []; next_snapshot_id = t.next_snapshot_id + 1 })

abbrev pub is_component_of : ℕ → SnapshotComponent → Bool
is_component_of i c = c.snapshot == i

-- The components of a snapshot in the order of the database's collation.
unfoldable pub list_components : (Text → Text → Bool) → ℕ → SnapshotTables → List SnapshotComponent
list_components before i t =
    sorted (λ (c d : SnapshotComponent). before c.component.component_key d.component.component_key)
      (keep (is_component_of i) t.components)

unfoldable has_component : ℕ → Text → List SnapshotComponent → Bool
has_component i key [] = false
has_component i key (c ∷ cs) =
    (is_component_of i c && same_text c.component.component_key key) || has_component i key cs

-- The CHECK constraint and the keys of a row.
abbrev is_valid_component : (ℕ → Bool) → ℕ → SnapshotComponentResult → List SnapshotComponent → Bool
is_valid_component has_feed i c rows =
    has_feed c.feed_id && ltb c.event_from c.event_to && not (has_component i c.component_key rows)

-- The insert of the values, which is refused as a whole.
unfoldable pub insert_rows :
    (ℕ → Bool)
    → ℕ
    → List SnapshotComponentResult
    → List SnapshotComponent
    → Result RepositoryError (List SnapshotComponent)
unfolding has_component
insert_rows has_feed i [] rows = ok rows
insert_rows has_feed i (c ∷ cs) rows = do
  raise_if (not (is_valid_component has_feed i c rows)) integrity_violation
  insert_rows has_feed i cs (rows ++ record { snapshot = i; component = c } ∷ [])

-- `existing is None or existing.status is not SnapshotStatus.BUILDING`, negated.
abbrev pub is_open : Option SnapshotRecord → Bool
is_open none = false
is_open (some r) = is_building r.status

unfoldable pub insert_components :
    ℕ → List SnapshotComponentResult → SnapshotTables → Result RepositoryError SnapshotTables
unfolding snapshot_by_id insert_rows
insert_components i cs t = do
  raise_if (not (is_open (snapshot_by_id i t.snapshots))) invalid_state_transition
  rows ← insert_rows t.has_feed i cs t.components
  ok (record t { components = rows })

unfoldable pub update_snapshots :
    ℕ → (SnapshotRecord → SnapshotRecord) → List SnapshotRecord → List SnapshotRecord
update_snapshots i f [] = []
update_snapshots i f (r ∷ rs) =
    (if r.data_snapshot_id == i then f r else r) ∷ update_snapshots i f rs

abbrev pub as_frozen : Text → ℕ → JsonObject → SnapshotRecord → SnapshotRecord
as_frozen digest at metadata r = record r {
  status = frozen;
  manifest_sha256 = some digest;
  frozen_at = some at;
  metadata = metadata;
}

abbrev frozen_as :
    ℕ
    → Text
    → ℕ
    → JsonObject
    → SnapshotTables
    → Option SnapshotRecord
    → Result RepositoryError Snapshot
frozen_as i digest at metadata t none = err invalid_state_transition
frozen_as i digest at metadata t (some r) =
    if is_building r.status
    then ok (
      as_frozen digest at metadata r,
      record t { snapshots = update_snapshots i (as_frozen digest at metadata) t.snapshots },
    )
    else err invalid_state_transition

unfoldable pub freeze : ℕ → Text → ℕ → JsonObject → SnapshotTables → Result RepositoryError Snapshot
unfolding snapshot_by_id update_snapshots
freeze i digest at metadata t = frozen_as i digest at metadata t (snapshot_by_id i t.snapshots)

abbrev pub as_failed : JsonObject → SnapshotRecord → SnapshotRecord
as_failed metadata r = record r { status = failed; metadata = metadata }

unfoldable pub mark_failed : ℕ → JsonObject → SnapshotTables → SnapshotTables
unfolding snapshot_by_id update_snapshots
mark_failed i metadata t =
    if is_open (snapshot_by_id i t.snapshots)
    then record t { snapshots = update_snapshots i (as_failed metadata) t.snapshots }
    else t
