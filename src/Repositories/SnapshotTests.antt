-- ===== src/Repositories/SnapshotTests.antt =====
-- A frozen snapshot, calls that follow, and the rows that one revision gives.
use bisfin.Repositories.Tests.{opened, first_revision}
use bisfin.Base.Sort.{IsSorted, sorted}
use bisfin.Repositories.SnapshotBars.Eligible.{IsVisible, eligible_revisions-IsVisible}
use bisfin.Repositories.SnapshotBars.{eligible_revisions, SnapshotRow, row_le}
use bisfin.Repositories.Snapshots.Final.{
  run_calls, SnapshotCall, creating, failing, inserting, freezing, run_calls_final,
}
use bisfin.Repositories.Snapshots.{
  snapshot_by_id, SnapshotRecord, SnapshotTables, SnapshotComponentResult, public_replay, frozen,
  list_components, actual_system_replay,
}
use bisfin.Brsapi.Json.{empty_object}
use bisfin.Base.Texts.{codes, Text}
use bisfin.Base.{ℕ, [], ◌∷◌, ◌≡◌, true, refl, In, some, ◌↔◌, ◌+◌, List, Bool, keep}

abbrev frozen_snapshot : SnapshotRecord
frozen_snapshot = record {
  data_snapshot_id = 1;
  snapshot_code = codes "s1";
  knowledge_cutoff_ts = 40;
  availability_mode = public_replay;
  manifest_sha256 = some (codes "ab");
  status = frozen;
  created_at = 10;
  frozen_at = some 50;
  metadata = empty_object;
}

abbrev component_result : ℕ → SnapshotComponentResult
component_result rows = record {
  component_key = codes "bars";
  bar_series_id = 7;
  feed_id = 3;
  event_from = 10;
  event_to = 20;
  max_available_at = some 30;
  max_system_available_at = some 35;
  row_count = rows;
  component_sha256 = codes "cd";
  storage_uri = codes "file";
}

abbrev snapshot_tables : SnapshotTables
snapshot_tables = record {
  snapshots = frozen_snapshot ∷ [];
  next_snapshot_id = 2;
  components = record { snapshot = 1; component = component_result 5 } ∷ [];
  has_feed = λ i. true;
}

-- Another snapshot is created and fails, and the frozen one is asked for more.
abbrev snapshot_calls : List SnapshotCall
snapshot_calls =
    creating 60 (codes "s2") 40 public_replay empty_object
    ∷ failing 2 empty_object
    ∷ inserting 1 (component_result 7 ∷ [])
    ∷ freezing 1 (codes "ef") 70 empty_object
    ∷ []

one_frozen : snapshot_by_id 1 snapshot_tables.snapshots ≡ some frozen_snapshot
unfolding snapshot_by_id
one_frozen = refl

run_calls_final_example :
    (snapshot_by_id 1 (run_calls snapshot_calls snapshot_tables).snapshots ≡ some frozen_snapshot)
    × ((before : Text → Text → Bool)
        → list_components before 1 (run_calls snapshot_calls snapshot_tables)
          ≡ list_components before 1 snapshot_tables)
run_calls_final_example =
    run_calls_final 1 frozen_snapshot snapshot_calls snapshot_tables refl one_frozen

eligible_revisions-IsVisible_example :
    ((x : SnapshotRow)
      → In x (
          eligible_revisions actual_system_replay 5 opened
            (opened + 1)
            (opened + 40)
            (first_revision ∷ []))
        ↔ IsVisible actual_system_replay 5 opened
            (opened + 1)
            (opened + 40)
            (first_revision ∷ [])
            x)
    × IsSorted row_le (
        eligible_revisions actual_system_replay 5 opened
          (opened + 1)
          (opened + 40)
          (first_revision ∷ []))
eligible_revisions-IsVisible_example =
    eligible_revisions-IsVisible actual_system_replay 5 opened (opened + 1) (opened + 40)
      (first_revision ∷ [])

-- The revision is not known before the instant that the mode looks at.
not_yet_known :
    eligible_revisions actual_system_replay 5 opened
      (opened + 1)
      (opened + 29)
      (first_revision ∷ [])
    ≡ []
unfolding eligible_revisions keep sorted
not_yet_known = refl

one_known :
    eligible_revisions public_replay 5 opened (opened + 1) (opened + 29) (first_revision ∷ [])
    ≡ record { revision = first_revision; effective_available_at = opened + 20 } ∷ []
unfolding eligible_revisions keep sorted
one_known = refl
