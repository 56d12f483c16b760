-- ===== src/Editor.antt =====
-- What editors do to documents: backend/app/services/editor.py, over the rows of documents and their
-- chunks (backend/app/db/models/content.py) and the queue of jobs. Tags, the text that a chunk gets
-- for its embedding, and audit events are left out; the digest of a chunk's key is a parameter.
pub mod Requests
pub mod Edited
pub mod Current
pub mod Bulk
pub mod Counted
pub mod Tests
use praktika.Prelude.{
  ℕ, ◌+◌, Bool, true, false, ◌||◌, not, Option, none, some, List, map, if◌then◌else◌, Result, ok,
  Error, or_raise, raise_if, ◌>>=◌, ◌>>◌,
}
use praktika.Text.{Text, strip}
use praktika.Table.{find, put}
use praktika.Jobs.Model.{Job, JobType, Store}
use praktika.Admin.{new_job, add_or_conflict, enqueue_document_reindex}

pub data DocumentStatus : Type 0 where
  active hidden pending failed outdated : DocumentStatus

pub data IndexStatus : Type 0 where
  ready pending failed not_indexed outdated : IndexStatus

pub record DocumentChunk : Type 0 where
  pub ordinal : ℕ
  pub content_hash : Text
  pub document_version : ℕ
  pub chunk_key : Text

pub record Document : Type 0 where
  pub id : ℕ
  pub source_id : ℕ
  pub normalized_title : Text
  pub editorial_note : Text
  pub status : DocumentStatus
  pub bm25_status : IndexStatus
  pub vector_status : IndexStatus
  pub hidden_reason : Option Text
  pub last_edited_by : Option ℕ
  pub last_edited_at : Option ℕ
  pub version : ℕ
  pub chunks : List DocumentChunk

pub record Corpus : Type 0 where
  pub documents : List Document
  pub queue : Store

-- Who edits, when, the number of the job that may be made, and the settings that are read.
pub record Edit : Type 0 where
  pub actor_id : ℕ
  pub now : ℕ
  pub new_job_id : ℕ
  pub auto_enqueue_document_reindex : Bool
  pub index_job_max_attempts : ℕ

abbrev pub document_key : Document → ℕ
document_key d = d.id

-- ACTIVE or OUTDATED.
unfoldable pub can_hide : DocumentStatus → Bool
can_hide DocumentStatus.active = true
can_hide DocumentStatus.outdated = true
can_hide _ = false

unfoldable pub is_hidden : DocumentStatus → Bool
is_hidden DocumentStatus.hidden = true
is_hidden _ = false

unfoldable pub is_outdated : IndexStatus → Bool
is_outdated IndexStatus.outdated = true
is_outdated _ = false

-- `_outdated`
unfoldable pub outdate : IndexStatus → IndexStatus
outdate IndexStatus.not_indexed = IndexStatus.not_indexed
outdate _ = IndexStatus.outdated

-- `get_document`
unfoldable pub get_document : ℕ → Corpus → Result Document
get_document document_id w = or_raise Error.not_found (find document_key document_id w.documents)

unfoldable pub save_document : Document → Corpus → Corpus
save_document d w = record w { documents = put document_key d w.documents }

-- The assignments that every edit makes.
unfoldable pub touch : Edit → Document → Document
touch e d = record d {
  version = d.version + 1;
  last_edited_by = some e.actor_id;
  last_edited_at = some e.now;
}

-- The document is written back and, if it is to be, queued for a reindex.
unfoldable pub commit_edit : Edit → Bool → Document → Corpus → Corpus
unfolding save_document
commit_edit e force d w = record (save_document d w) {
  queue =
      (enqueue_document_reindex e.new_job_id e.auto_enqueue_document_reindex force d.id
        (some d.source_id) (some e.actor_id) e.index_job_max_attempts e.now w.queue).1;
}

unfoldable pub titled : Text → Text → Document → Document
titled title note d = record d { normalized_title = title; editorial_note = note }

unfoldable pub hide : Text → Document → Document
unfolding strip
hide reason d = record d { status = DocumentStatus.hidden; hidden_reason = some (strip reason) }

unfoldable pub restored_status : Document → DocumentStatus
unfolding is_outdated
restored_status d =
    if is_outdated d.bm25_status || is_outdated d.vector_status
    then DocumentStatus.outdated
    else DocumentStatus.active

unfoldable pub show : DocumentStatus → Document → Document
show status d = record d { status = status; hidden_reason = none }

unfoldable pub pending_index : Document → Document
pending_index d = record d {
  bm25_status = IndexStatus.pending;
  vector_status = IndexStatus.pending;
}

-- `max_attempts` keeps the default of its column.
unfoldable pub create_reindex_job : Edit → Document → Corpus → Result (Job × Corpus)
unfolding new_job add_or_conflict save_document pending_index
create_reindex_job e d w = do
  let job =
      new_job e.new_job_id JobType.document_reindex 1 (some d.source_id) (some d.id)
        (some e.actor_id) 5 e.now
  queue ← add_or_conflict job w.queue
  ok (job, save_document (pending_index d) (record w { queue = queue }))

unfoldable pub reindex_document : Edit → ℕ → Corpus → Result (Job × Corpus)
unfolding get_document create_reindex_job
reindex_document e document_id w = do
  document ← get_document document_id w
  create_reindex_job e document w

-- `hashlib.sha256(...)` of the four parts of a key.
module _ (stable_chunk_key : ℕ → ℕ → ℕ → Text → Text) where
  unfoldable pub rebase_chunk : ℕ → ℕ → DocumentChunk → DocumentChunk
  rebase_chunk document_id version chunk = record chunk {
    document_version = version;
    chunk_key = stable_chunk_key document_id version chunk.ordinal chunk.content_hash;
  }

  -- `_rebase_chunks_after_editor_change` and the two assignments that follow each call of it.
  unfoldable pub rebase : Document → Document
  unfolding rebase_chunk outdate
  rebase d = record d {
    chunks = map (rebase_chunk d.id d.version) d.chunks;
    bm25_status = outdate d.bm25_status;
    vector_status = outdate d.vector_status;
  }

  unfoldable pub update_metadata : Edit → ℕ → Text → Text → Corpus → Result Corpus
  unfolding get_document titled touch rebase commit_edit
  update_metadata e document_id title note w = do
    document ← get_document document_id w
    ok (commit_edit e false (rebase (touch e (titled title note document))) w)

  unfoldable pub hide_document : Edit → ℕ → Text → Corpus → Result Corpus
  unfolding get_document can_hide hide touch rebase commit_edit
  hide_document e document_id reason w = do
    document ← get_document document_id w
    raise_if (not (can_hide document.status)) Error.conflict
    ok (commit_edit e true (rebase (touch e (hide reason document))) w)

  unfoldable pub restore_document : Edit → ℕ → Corpus → Result Corpus
  unfolding get_document is_hidden show restored_status touch rebase commit_edit
  restore_document e document_id w = do
    document ← get_document document_id w
    raise_if (not (is_hidden document.status)) Error.conflict
    ok (commit_edit e true (rebase (touch e (show (restored_status document) document))) w)
