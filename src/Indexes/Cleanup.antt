-- ===== src/Indexes/Cleanup.antt =====
-- The cleanup of collections that no version needs any more: `_cleanup` of
-- backend/app/services/search_index.py.
use praktika.Prelude.{
  ℕ, ◌+◌, Bool, true, false, ◌&&◌, ◌||◌, not, Option, none, some, List, [], ◌∷◌, ◌++◌, ◌==◌, leb,
  ltb, if◌then◌else◌, Result, ok, err, Error,
}
use praktika.Text.{Text}
use praktika.Table.{sort}
use praktika.Indexes.{Version, VectorStore, World, is_active, is_retired, is_failed, mem}

-- The settings that the cleanup reads; the retention is in the unit of the timestamps.
pub record CleanupSettings : Type 0 where
  pub qdrant_alias : Text
  pub index_retain_retired_count : ℕ
  pub index_failed_collection_retention : ℕ

-- What the loop over the versions has seen.
pub record Scan : Type 0 where
  pub protected : List Text
  pub retired_seen : ℕ
  pub candidates : List Text

-- The audit event, and the job's result.
pub record Report : Type 0 where
  pub dry_run : Bool
  pub candidates : List Text
  pub deleted : List Text

-- `order_by(created_at.desc(), id.desc())`
unfoldable pub newer : Version → Version → Bool
newer a b = ltb b.created_at a.created_at || (b.created_at == a.created_at && ltb b.id a.id)

unfoldable pub scan_candidate : List Text → Version → Scan → Scan
unfolding mem
scan_candidate collections v s =
    if mem v.collection_name collections
    then record s { candidates = s.candidates ++ (v.collection_name ∷ []) }
    else s

unfoldable pub protect : Version → Scan → Scan
protect v s = record s { protected = v.collection_name ∷ s.protected }

unfoldable pub is_recent_failure : CleanupSettings → ℕ → Version → Bool
unfolding is_failed
is_recent_failure settings now v =
    is_failed v.status && ltb now (v.created_at + settings.index_failed_collection_retention)

-- The end of the loop's body, for a version that is neither active nor a retained retired one.
unfoldable pub scan_rest : CleanupSettings → ℕ → List Text → Version → Scan → Scan
unfolding is_recent_failure protect scan_candidate
scan_rest settings now collections v s =
    if is_recent_failure settings now v then protect v s else scan_candidate collections v s

-- The body of the loop over the versions.
unfoldable pub scan_version : CleanupSettings → ℕ → List Text → Version → Scan → Scan
unfolding is_active is_retired protect scan_rest
scan_version settings now collections v s =
    if is_active v.status
    then protect v s
    else if is_retired v.status
    then (let seen : Scan = record s { retired_seen = s.retired_seen + 1 } in
        if leb seen.retired_seen settings.index_retain_retired_count
        then protect v seen
        else scan_rest settings now collections v seen)
    else scan_rest settings now collections v s

unfoldable pub scan : CleanupSettings → ℕ → List Text → List Version → Scan → Scan
unfolding scan_version
scan settings now collections [] s = s
scan settings now collections (v ∷ vs) s =
    scan settings now collections vs (scan_version settings now collections v s)

-- `{alias_target} if alias_target else set()`
unfoldable pub first_protected : Option Text → List Text
first_protected none = []
first_protected (some []) = []
first_protected (some (c ∷ cs)) = (c ∷ cs) ∷ []

module _ {S : Type 0} (q : VectorStore S) where
  -- The loop that deletes; what it has deleted stays deleted when a call raises, and the call that
  -- raises may have deleted as well.
  unfoldable pub delete_all : List Text → List Text → List Text → S → S × Result (List Text)
  unfolding mem
  delete_all protected [] deleted s = (s, ok deleted)
  delete_all protected (name ∷ names) deleted s =
      let skipped = delete_all protected names deleted s in
      let call = q.delete_collection name s in
      let rest = delete_all protected names (deleted ++ (name ∷ [])) call.0 in
      if mem name protected then skipped else elim call.1 [ none ↦ rest | some e ↦ (call.0, err e) ]

  unfoldable pub scanned : CleanupSettings → ℕ → World S → Scan
  unfolding scan first_protected newer
  scanned settings now w =
      scan settings now (q.list_collections w.vectors) (sort newer w.versions) (record {
        protected = first_protected (q.alias_target settings.qdrant_alias w.vectors);
        retired_seen = 0;
        candidates = [];
      })

  -- The last transaction: the audit event.
  unfoldable pub finish : Bool → Report → List Report → Result Report × List Report
  finish true report audit = (ok report, report ∷ audit)
  finish false report audit = (err Error.database_error, audit)

  -- What follows the loop of a cleanup that deletes.
  unfoldable pub end_of_cleanup :
      Bool → List Text → List Report → S × Result (List Text) → S × (Result Report × List Report)
  unfolding finish
  end_of_cleanup commits candidates audit (s, err e) = (s, (err e, audit))
  end_of_cleanup commits candidates audit (s, ok deleted) = (
    s,
    finish commits (record { dry_run = false; candidates = candidates; deleted = deleted }) audit,
  )

  -- The vectors and the audit events afterwards, and the job's result. `commits` says whether the
  -- database takes the audit event.
  unfoldable pub cleanup :
      CleanupSettings
      → Bool
      → ℕ
      → Bool
      → Bool
      → World S
      → List Report
      → S × (Result Report × List Report)
  unfolding scanned delete_all finish end_of_cleanup
  cleanup settings commits now dry_run confirm w audit =
      let plan = scanned settings now w in
      if not dry_run && not confirm
      then (w.vectors, (err Error.cleanup_confirmation_required, audit))
      else if dry_run
      then (
        w.vectors,
        finish commits (record { dry_run = dry_run; candidates = plan.candidates; deleted = [] })
            audit,
      )
      else end_of_cleanup commits plan.candidates audit
          (delete_all plan.protected plan.candidates [] w.vectors)
