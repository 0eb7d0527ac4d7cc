-- ===== src/Repositories/Snapshots/Final.antt =====
-- Snapshots that are frozen, failed or deprecated are final.
use bisfin.Base.Sort.{sorted}
use bisfin.Repositories.{RepositoryError, integrity_violation}
use bisfin.Base.{
  List, ℕ, keep, Bool, ◌∷◌, ◌≡◌, some, false, ◌==◌, [], arith, ◌++◌, ◌∙◌, ap, Bool-cases, Option,
  true, sym, inr, refl, is_some, inl, subst, ==_iff, not, none,
}
use bisfin.Repositories.Snapshots.{
  create_building, list_components, snapshot_by_id, SnapshotTables, insert_rows, update_snapshots,
  SnapshotRecord, insert_components, SnapshotComponentResult, ReplayMode, SnapshotComponent, freeze,
  is_building, Snapshot, mark_failed, is_component_of, is_open, frozen_as, snapshot_by_code,
  new_snapshot, as_frozen, as_failed, is_valid_component,
}
use bisfin.Base.Result.{ok, err, Result, ◌>>=◌, ok_injective, raise_if-inv}
use bisfin.Base.Texts.{Text}
use bisfin.Brsapi.Json.{JsonObject}

-- A call of the repository that writes.
pub data SnapshotCall : Type 0 where
  creating : ℕ → Text → ℕ → ReplayMode → JsonObject → SnapshotCall
  inserting : ℕ → List SnapshotComponentResult → SnapshotCall
  freezing : ℕ → Text → ℕ → JsonObject → SnapshotCall
  failing : ℕ → JsonObject → SnapshotCall

abbrev snapshot_tables : SnapshotTables → Result RepositoryError Snapshot → SnapshotTables
snapshot_tables t (err e) = t
snapshot_tables t (ok (r, t')) = t'

abbrev component_tables : SnapshotTables → Result RepositoryError SnapshotTables → SnapshotTables
component_tables t (err e) = t
component_tables t (ok t') = t'

-- The tables after a call; one that raises is rolled back.
unfoldable after_call : SnapshotCall → SnapshotTables → SnapshotTables
unfolding create_building insert_components freeze mark_failed
after_call (creating now code cutoff mode metadata) t =
    snapshot_tables t (create_building now code cutoff mode metadata t)
after_call (inserting i cs) t = component_tables t (insert_components i cs t)
after_call (freezing i digest at metadata) t = snapshot_tables t (freeze i digest at metadata t)
after_call (failing i metadata) t = mark_failed i metadata t

unfoldable pub run_calls : List SnapshotCall → SnapshotTables → SnapshotTables
unfolding after_call
run_calls [] t = t
run_calls (call ∷ calls) t = run_calls calls (after_call call t)

snapshot_by_id-append :
    (i : ℕ) (rs : List SnapshotRecord) (q r : SnapshotRecord)
    → snapshot_by_id i rs ≡ some r
    → snapshot_by_id i (rs ++ q ∷ []) ≡ some r
unfolding snapshot_by_id
snapshot_by_id-append i [] q r e = absurd (ground arith)
snapshot_by_id-append i (s ∷ rs) q r e = ground (arith, snapshot_by_id-append i rs q r)

snapshot_by_id-other :
    (i j : ℕ) (f : SnapshotRecord → SnapshotRecord) (rs : List SnapshotRecord)
    → ((c : SnapshotRecord) → (f c).data_snapshot_id ≡ c.data_snapshot_id)
    → (j == i) ≡ false
    → snapshot_by_id i (update_snapshots j f rs) ≡ snapshot_by_id i rs
unfolding snapshot_by_id update_snapshots
snapshot_by_id-other i j f [] same other = refl
snapshot_by_id-other i j f (c ∷ rs) same other =
    ground (arith, same c, snapshot_by_id-other i j f rs same other)

keep-other :
    (i j : ℕ) (c : SnapshotComponentResult) (rows : List SnapshotComponent)
    → (j == i) ≡ false
    → keep (is_component_of i) (rows ++ record { snapshot = j; component = c } ∷ [])
      ≡ keep (is_component_of i) rows
unfolding keep
keep-other i j c [] other = rw other refl
keep-other i j c (d ∷ rows) other = ground (arith, keep-other i j c rows other)

insert_rows-other :
    (has_feed : ℕ → Bool) (i j : ℕ) (cs : List SnapshotComponentResult)
    (rows : List SnapshotComponent) {rows' : List SnapshotComponent}
    → (j == i) ≡ false
    → insert_rows has_feed j cs rows ≡ ok rows'
    → keep (is_component_of i) rows' ≡ keep (is_component_of i) rows
unfolding insert_rows
insert_rows-other has_feed i j [] rows other h =
    ap (keep (is_component_of i)) (sym (ok_injective h))
insert_rows-other has_feed i j (c ∷ cs) rows other h =
    let more = rows ++ record { snapshot = j; component = c } ∷ [] in
    let (_, h1) =
      raise_if-inv (not (is_valid_component has_feed j c rows)) integrity_violation
        (insert_rows has_feed j cs more) h in
    insert_rows-other has_feed i j cs more other h1 ∙ keep-other i j c rows other

module _ (i : ℕ) (r : SnapshotRecord) (final : is_building r.status ≡ false) where
  -- The snapshot is the record, and its components are those of the other tables.
  abbrev IsKept : SnapshotTables → SnapshotTables → Type 0
  IsKept t t' =
      (snapshot_by_id i t'.snapshots ≡ some r)
      × (keep (is_component_of i) t'.components ≡ keep (is_component_of i) t.components)

  opened_other :
      (j : ℕ) (t : SnapshotTables)
      → snapshot_by_id i t.snapshots ≡ some r
      → is_open (snapshot_by_id j t.snapshots) ≡ true
      → (j == i) ≡ false
  opened_other j t h opened = elim (Bool-cases (j == i)) [
    | inr other ↦ other
    | inl same ↦ absurd (
        cc (
          subst (λ (k : ℕ). is_open (snapshot_by_id k t.snapshots) ≡ true) ((==_iff j i).0 same)
              opened,
          h,
          final,
        ))
  ]

  creating-IsKept :
      (now : ℕ) (code : Text) (cutoff : ℕ) (mode : ReplayMode) (metadata : JsonObject)
      (t : SnapshotTables)
      → snapshot_by_id i t.snapshots ≡ some r
      → IsKept t (snapshot_tables t (create_building now code cutoff mode metadata t))
  unfolding create_building
  creating-IsKept now code cutoff mode metadata t h =
      elim (Bool-cases (is_some (snapshot_by_code code t.snapshots))) [
        | inl known ↦ rw known (h, refl)
        | inr new ↦ rw new (
          snapshot_by_id-append i t.snapshots
              (new_snapshot now t.next_snapshot_id code cutoff mode metadata) r h,
          refl,
        )
      ]

  inserting-IsKept :
      (j : ℕ) (cs : List SnapshotComponentResult) (t : SnapshotTables)
      → snapshot_by_id i t.snapshots ≡ some r
      → IsKept t (component_tables t (insert_components j cs t))
  unfolding insert_components
  inserting-IsKept j cs t h = elim (Bool-cases (is_open (snapshot_by_id j t.snapshots))) [
    | inr closed ↦ rw closed (h, refl)
    | inl opened ↦
        rw opened
          (inserted (opened_other j t h opened) (insert_rows t.has_feed j cs t.components) refl)
  ]
    where
      inserted :
          (j == i) ≡ false
          → (o : Result RepositoryError (List SnapshotComponent))
          → insert_rows t.has_feed j cs t.components ≡ o
          → IsKept t (component_tables t (o >>= λ rows. ok (record t { components = rows })))
      inserted other (err e) q = (h, refl)
      inserted other (ok rows) q = (h, insert_rows-other t.has_feed i j cs t.components other q)

  frozen-IsKept :
      (j : ℕ) (digest : Text) (at : ℕ) (metadata : JsonObject) (t : SnapshotTables)
      (o : Option SnapshotRecord)
      → snapshot_by_id i t.snapshots ≡ some r
      → snapshot_by_id j t.snapshots ≡ o
      → IsKept t (snapshot_tables t (frozen_as j digest at metadata t o))
  frozen-IsKept j digest at metadata t none h q = (h, refl)
  frozen-IsKept j digest at metadata t (some c) h q = elim (Bool-cases (is_building c.status)) [
    | inr closed ↦ rw closed (h, refl)
    | inl opened ↦ rw opened (
      snapshot_by_id-other i j (as_frozen digest at metadata) t.snapshots (λ d. refl)
            (opened_other j t h (ap is_open q ∙ opened))
          ∙ h,
      refl,
    )
  ]

  failing-IsKept :
      (j : ℕ) (metadata : JsonObject) (t : SnapshotTables)
      → snapshot_by_id i t.snapshots ≡ some r
      → IsKept t (mark_failed j metadata t)
  unfolding mark_failed
  failing-IsKept j metadata t h = elim (Bool-cases (is_open (snapshot_by_id j t.snapshots))) [
    | inr closed ↦ rw closed (h, refl)
    | inl opened ↦ rw opened (
      snapshot_by_id-other i j (as_failed metadata) t.snapshots (λ d. refl)
            (opened_other j t h opened)
          ∙ h,
      refl,
    )
  ]

  after_call-IsKept :
      (call : SnapshotCall) (t : SnapshotTables)
      → snapshot_by_id i t.snapshots ≡ some r
      → IsKept t (after_call call t)
  unfolding after_call freeze
  after_call-IsKept (creating now code cutoff mode metadata) t h =
      creating-IsKept now code cutoff mode metadata t h
  after_call-IsKept (inserting j cs) t h = inserting-IsKept j cs t h
  after_call-IsKept (freezing j digest at metadata) t h =
      frozen-IsKept j digest at metadata t (snapshot_by_id j t.snapshots) h refl
  after_call-IsKept (failing j metadata) t h = failing-IsKept j metadata t h

  kept_all :
      (calls : List SnapshotCall) (t : SnapshotTables)
      → snapshot_by_id i t.snapshots ≡ some r
      → IsKept t (run_calls calls t)
  unfolding run_calls
  kept_all [] t h = (h, refl)
  kept_all (call ∷ calls) t h =
      let (h1, same) = after_call-IsKept call t h in
      let (h2, later) = kept_all calls (after_call call t) h1 in (h2, later ∙ same)

-- A snapshot that is frozen, failed or deprecated stays as it is, with the components that it has,
-- whatever calls follow.
pub run_calls_final :
    (i : ℕ) (r : SnapshotRecord) (calls : List SnapshotCall) (t : SnapshotTables)
    → is_building r.status ≡ false
    → snapshot_by_id i t.snapshots ≡ some r
    → (snapshot_by_id i (run_calls calls t).snapshots ≡ some r)
      × ((before : Text → Text → Bool)
          → list_components before i (run_calls calls t) ≡ list_components before i t)
unfolding list_components
run_calls_final i r calls t final h =
    let (same, kept) = kept_all i r final calls t h in
    (
      same,
      λ before.
          ap
            (sorted (λ (c d : SnapshotComponent).
              before c.component.component_key d.component.component_key))
            kept,
    )
