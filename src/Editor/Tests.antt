-- ===== src/Editor/Tests.antt =====
-- Edits of a small corpus.
use praktika.Prelude.{
  ℕ, ◌+◌, ◌≡◌, refl, true, none, some, List, [], ◌∷◌, map, All, ok, Result, or_raise,
}
use praktika.Text.{Text, codes}
use praktika.Table.{find, put}
use praktika.Editor.{
  DocumentStatus, IndexStatus, Document, Corpus, Edit, document_key, can_hide, hide_document,
  restore_document,
}
use praktika.Editor.Bulk.{BulkAction, Outcome, bulk_documents}
use praktika.Editor.Requests.{EditRequest, edit_all}
use praktika.Editor.Edited.{IsCurrent}
use praktika.Editor.Current.{edit_all-AreCurrent}
use praktika.Editor.Counted.{back, bulk_documents-IsCounted, restore-hide}

-- A key that is the content's hash behind the version.
abbrev key : ℕ → ℕ → ℕ → Text → Text
key document_id version ordinal content_hash = version ∷ ordinal ∷ content_hash

abbrev document : ℕ → DocumentStatus → Document
document id status = record {
  id = id;
  source_id = 4;
  normalized_title = codes "t";
  editorial_note = [];
  status = status;
  bm25_status = IndexStatus.ready;
  vector_status = IndexStatus.ready;
  hidden_reason = none;
  last_edited_by = none;
  last_edited_at = none;
  version = 1;
  chunks =
      record {
        ordinal = 0;
        content_hash = codes "h";
        document_version = 1;
        chunk_key = key id 1 0 (codes "h");
      }
      ∷ [];
}

abbrev corpus : Corpus
corpus = record {
  documents = document 1 DocumentStatus.active ∷ document 2 DocumentStatus.pending ∷ [];
  queue = record { jobs = []; workers = []; events = [] };
}

abbrev by : ℕ → Edit
by new_job_id = record {
  actor_id = 9;
  now = 50;
  new_job_id = new_job_id;
  auto_enqueue_document_reindex = true;
  index_job_max_attempts = 5;
}

abbrev edits : List (Edit × EditRequest)
edits =
    (by 1, EditRequest.metadata 1 (codes "n") [])
    ∷ (by 2, EditRequest.hiding 1 (codes " spam "))
    ∷ (by 3, EditRequest.hiding 1 (codes "again"))
    ∷ (by 4, EditRequest.bulk BulkAction.restore_all [] (1 ∷ 2 ∷ 3 ∷ []))
    ∷ (by 7, EditRequest.reindexing 2)
    ∷ []

corpus-AreCurrent : All (IsCurrent key) corpus.documents
corpus-AreCurrent = (
  record { keyed = ((refl, refl), tt); reason = refl },
  (record { keyed = ((refl, refl), tt); reason = refl }, tt),
)

edit_all-AreCurrent_example : All (IsCurrent key) (edit_all key edits corpus).documents
edit_all-AreCurrent_example = edit_all-AreCurrent key edits corpus corpus-AreCurrent

bulk_documents-IsCounted_example :
    (map {B = ℕ}
        (λ item. item.document_id)
        (bulk_documents key BulkAction.hide_all (codes "r") (by 1) (1 ∷ 2 ∷ 3 ∷ []) corpus).0.items
      ≡ 1 ∷ 2 ∷ 3 ∷ [])
    × ((bulk_documents key BulkAction.hide_all
            (codes "r")
            (by 1)
            (1 ∷ 2 ∷ 3 ∷ [])
            corpus).0.success_count
          + (bulk_documents key BulkAction.hide_all
              (codes "r")
              (by 1)
              (1 ∷ 2 ∷ 3 ∷ [])
              corpus).0.skipped_count
          + (bulk_documents key BulkAction.hide_all
              (codes "r")
              (by 1)
              (1 ∷ 2 ∷ 3 ∷ [])
              corpus).0.failed_count
        ≡ 3)
bulk_documents-IsCounted_example =
    bulk_documents-IsCounted key BulkAction.hide_all (codes "r") (by 1) (1 ∷ 2 ∷ 3 ∷ []) corpus

-- One is hidden, one has another status, one is not there.
hide_all_run :
    map {B = Outcome}
      (λ item. item.outcome)
      (bulk_documents key BulkAction.hide_all (codes "r") (by 1) (1 ∷ 2 ∷ 3 ∷ []) corpus).0.items
    ≡ Outcome.success ∷ Outcome.skipped ∷ Outcome.failed ∷ []
unfolding bulk_documents or_raise find put
hide_all_run = refl

restore-hide_example :
    (hidden shown : Corpus) × (k : Document) × (hide_document key (by 1) 1 (codes "r") corpus
      ≡ ok hidden)
    × (restore_document key (by 2) 1 hidden ≡ ok shown)
    × (find document_key 1 shown.documents ≡ some k)
    × (k.status ≡ back (document 1 DocumentStatus.active))
    × (k.hidden_reason ≡ none)
    × (k.version ≡ 1 + 2)
    × (k.normalized_title ≡ codes "t")
    × (k.editorial_note ≡ [])
unfolding find can_hide
restore-hide_example =
    restore-hide key (by 1) (by 2) 1 (codes "r") corpus (document 1 DocumentStatus.active) refl refl

-- The statuses after a document is hidden and then restored, alone or with others.
abbrev statuses : Result Corpus → List DocumentStatus
statuses (ok w) = map (λ d. d.status) w.documents
statuses _ = []

abbrev hidden_corpus : Corpus
hidden_corpus = record corpus {
  documents =
      record (document 1 DocumentStatus.hidden) {
        bm25_status = IndexStatus.outdated;
        hidden_reason = some [];
      }
      ∷ [];
}

restored_alone :
    statuses (restore_document key (by 2) 1 hidden_corpus) ≡ DocumentStatus.outdated ∷ []
unfolding restore_document or_raise find put
restored_alone = refl

restored_with_others :
    statuses (ok (bulk_documents key BulkAction.restore_all [] (by 2) (1 ∷ []) hidden_corpus).1)
    ≡ DocumentStatus.active ∷ []
unfolding bulk_documents or_raise find put
restored_with_others = refl
