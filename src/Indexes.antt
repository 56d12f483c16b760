-- ===== src/Indexes.antt =====
-- The versions of the search index: the activation of a built version, its failure, and the cleanup of
-- collections, from backend/app/services/search_index.py (`SearchIndexJobHandler`), over the rows of
-- SearchIndexVersion in backend/app/db/models/operations.py. The vector store is a service of its own
-- and a parameter, `VectorStore`.
pub mod Steps
pub mod Idle
pub mod OneActive
pub mod Activated
pub mod Activation
pub mod Cleanup
pub mod Scanned
pub mod Protects
pub mod Tests
use praktika.Prelude.{
  ℕ, Bool, true, false, ◌&&◌, ◌||◌, not, Option, none, some, List, ◌∷◌, map, ◌==◌, leb,
  if◌then◌else◌, any, Result, ok, err, Error, raise_if, ◌>>=◌, ◌>>◌,
}
use praktika.Text.{Text, text_eq}
use praktika.Table.{find, put}

pub data VersionStatus : Type 0 where
  building ready active failed retired : VersionStatus

-- A row of `search_index_versions`, without what describes the models and the schema.
pub record Version : Type 0 where
  pub id : ℕ
  pub collection_name : Text
  pub alias_name : Text
  pub status : VersionStatus
  pub point_count : ℕ
  pub eligible_chunk_count : ℕ
  pub created_at : ℕ
  pub build_started_at : Option ℕ
  pub build_finished_at : Option ℕ
  pub activated_at : Option ℕ
  pub retired_at : Option ℕ
  pub failure_code : Option Text
  pub failure_message : Option Text

-- What the code calls of the vector store, whose state is `S`. A call that changes the store leaves a
-- store and raises or not; one that raises may have taken effect, since a request that timed out is
-- sent again and in the end raised. The two reads raise before a change and end the job there; these
-- ends are left out.
pub record VectorStore (S : Type 0) : Type 0 where
  pub list_collections : S → List Text
  pub alias_target : Text → S → Option Text
  pub switch_alias : Text → Text → S → S × Option Error
  pub remove_alias : Text → S → S × Option Error
  pub delete_collection : Text → S → S × Option Error

abbrev pub version_key : Version → ℕ
version_key v = v.id

unfoldable pub is_active : VersionStatus → Bool
is_active active = true
is_active _ = false

unfoldable pub is_retired : VersionStatus → Bool
is_retired retired = true
is_retired _ = false

unfoldable pub is_failed : VersionStatus → Bool
is_failed failed = true
is_failed _ = false

unfoldable pub mem : Text → List Text → Bool
unfolding text_eq
mem name names = any (text_eq name) names

-- `session.add(version)` of `_prepare_full_version`; the id and the name of the collection are unique.
unfoldable pub add_version : Version → List Version → Result (List Version)
add_version v versions = do
  raise_if
      (any (λ other. other.id == v.id || text_eq other.collection_name v.collection_name) versions)
      Error.integrity_error
  ok (v ∷ versions)

unfoldable pub new_version : ℕ → Text → Text → ℕ → Version
new_version id collection_name alias_name now = record {
  id = id;
  collection_name = collection_name;
  alias_name = alias_name;
  status = building;
  point_count = 0;
  eligible_chunk_count = 0;
  created_at = now;
  build_started_at = some now;
  build_finished_at = none;
  activated_at = none;
  retired_at = none;
  failure_code = none;
  failure_message = none;
}

-- The row of a version that is built and checked.
unfoldable pub ready_row : ℕ → ℕ → Version → Version
ready_row point_count now v = record v {
  status = ready;
  point_count = point_count;
  build_finished_at = some now;
}

unfoldable pub mark_ready : ℕ → ℕ → ℕ → List Version → Result (List Version)
unfolding ready_row
mark_ready version_id point_count now versions = elim (find version_key version_id versions) [
  | none ↦ err Error.index_version_lost
  | some locked ↦ ok (put version_key (ready_row point_count now locked) versions)
]

-- What `_mark_failure` does to the version of a full reindex.
unfoldable pub failed_row : Bool → Text → Text → ℕ → Version → Version
failed_row is_last code message now v =
    if is_last
    then record v {
      failure_code = some code;
      failure_message = some message;
      status = failed;
      build_finished_at = some now;
    }
    else record v { failure_code = some code; failure_message = some message }

unfoldable pub mark_failure : ℕ → Bool → ℕ → ℕ → Text → Text → ℕ → List Version → List Version
unfolding failed_row
mark_failure version_id retryable attempt max_attempts code message now versions =
    elim (find version_key version_id versions) [
      | none ↦ versions
      | some v ↦
          put version_key
            (failed_row (not retryable || leb max_attempts attempt) code message now v) versions
    ]

-- The versions that were active before give way.
unfoldable pub retire_row : ℕ → ℕ → Version → Version
unfolding is_active
retire_row version_id now v =
    if is_active v.status && not (v.id == version_id)
    then record v { status = retired; retired_at = some now }
    else v

unfoldable pub active_row : ℕ → Version → Version
active_row now v = record v {
  status = active;
  activated_at = some now;
  failure_code = none;
  failure_message = none;
}

-- The transaction of the activation.
unfoldable pub activate_version : ℕ → ℕ → List Version → Result (List Version)
unfolding retire_row active_row
activate_version version_id now versions = elim (find version_key version_id versions) [
  | none ↦ err Error.index_version_lost
  | some locked ↦
      ok (put version_key (active_row now locked) (map (retire_row version_id now) versions))
]

pub record World (S : Type 0) : Type 0 where
  pub versions : List Version
  pub vectors : S

-- How the block of the transaction goes: its statements run and it is committed, unless the version is
-- not found; or SQLAlchemy raises, at a statement or at the commit; or something else is raised in it,
-- as by a cancellation or by the driver's connection. A block that is left by an exception has changed
-- no row; a commit that took effect and was reported as failed is left out.
pub data TransactionEnd : Type 0 where
  runs fails escapes : TransactionEnd

module _ {S : Type 0} (q : VectorStore S) where
  -- The call that takes the alias back.
  unfoldable pub restore_alias : Text → Option Text → S → S × Option Error
  restore_alias alias_name none s = q.remove_alias alias_name s
  restore_alias alias_name (some target) s = q.switch_alias alias_name target s

  -- `except (SQLAlchemyError, SearchIndexServiceError)`: the alias goes back, and the exception on.
  unfoldable pub take_back : Text → Option Text → Error → World S → S → World S × Option Error
  unfolding restore_alias
  take_back alias_name previous raised w switched =
      let call = restore_alias alias_name previous switched in
      elim call.1 [
        | none ↦ (record w { vectors = call.0 }, some raised)
        | some e ↦ (record w { vectors = call.0 }, some e)
      ]

  -- The `try` around the transaction. An exception of another class is not caught.
  unfoldable pub run_transaction :
      TransactionEnd → ℕ → Version → World S → S → World S × Option Error
  unfolding take_back
  run_transaction runs now version w switched = elim (activate_version version.id now w.versions) [
    | err e ↦
        take_back version.alias_name (q.alias_target version.alias_name w.vectors) e w switched
    | ok versions ↦ (record { versions = versions; vectors = switched }, none)
  ]
  run_transaction fails now version w switched =
      take_back version.alias_name (q.alias_target version.alias_name w.vectors)
        Error.database_error w switched
  run_transaction escapes now version w switched =
      (record w { vectors = switched }, some Error.other_exception)

  -- The end of `_full_reindex`, from the switch of the alias on. Tables and vectors stay as they are
  -- left when an exception is raised.
  unfoldable pub activate : TransactionEnd → ℕ → Version → World S → World S × Option Error
  unfolding run_transaction
  activate transaction now version w =
      let call = q.switch_alias version.alias_name version.collection_name w.vectors in
      elim call.1 [
        | some e ↦ (record w { vectors = call.0 }, some e)
        | none ↦ run_transaction transaction now version w call.0
      ]
