-- ===== src/Editor/Bulk.antt =====
-- The operation on many documents: `bulk_documents` of backend/app/services/editor.py. Each document
-- has a savepoint of its own, which an exception rolls back.
use praktika.Prelude.{
  ℕ, ◌+◌, Bool, true, false, Option, none, some, List, [], ◌∷◌, if◌then◌else◌, ok, err,
}
use praktika.Text.{Text}
use praktika.Editor.{
  DocumentStatus, Document, Corpus, Edit, can_hide, is_hidden, get_document, rebase, touch,
  commit_edit, hide, show, create_reindex_job,
}

pub data BulkAction : Type 0 where
  hide_all restore_all reindex_all : BulkAction

pub data Outcome : Type 0 where
  success skipped failed : Outcome

pub record BulkItem : Type 0 where
  pub document_id : ℕ
  pub outcome : Outcome
  pub job_id : Option ℕ

pub record BulkResult : Type 0 where
  pub items : List BulkItem
  pub success_count : ℕ
  pub skipped_count : ℕ
  pub failed_count : ℕ

abbrev pub is_success : Outcome → Bool
is_success Outcome.success = true
is_success _ = false

abbrev pub is_skipped : Outcome → Bool
is_skipped Outcome.skipped = true
is_skipped _ = false

abbrev pub is_failed_item : Outcome → Bool
is_failed_item Outcome.failed = true
is_failed_item _ = false

-- `sum(item.outcome == ... for item in items)`
unfoldable pub count_items : (Outcome → Bool) → List BulkItem → ℕ
count_items p [] = 0
count_items p (item ∷ items) =
    let rest = count_items p items in if p item.outcome then 1 + rest else rest

abbrev pub item_of : ℕ → Outcome → BulkItem
item_of document_id outcome = record { document_id = document_id; outcome = outcome; job_id = none }

module _ (stable_chunk_key : ℕ → ℕ → ℕ → Text → Text) where
  -- The end of the loop's body, for a document that was hidden or restored.
  unfoldable pub bulk_edited : Edit → ℕ → Document → Corpus → BulkItem × Corpus
  unfolding rebase touch commit_edit
  bulk_edited e document_id d w = (
    item_of document_id Outcome.success,
    commit_edit e true (rebase stable_chunk_key (touch e d)) w,
  )

  unfoldable pub bulk_reindexed : Edit → ℕ → Document → Corpus → BulkItem × Corpus
  unfolding create_reindex_job
  bulk_reindexed e document_id d w = elim (create_reindex_job e d w) [
    | err raised ↦ (item_of document_id Outcome.failed, w)
    | ok made ↦ (
      record { document_id = document_id; outcome = Outcome.success; job_id = some made.0.id },
      made.1,
    )
  ]

  -- The body of the loop for a document that is there.
  unfoldable pub bulk_found : BulkAction → Text → Edit → ℕ → Document → Corpus → BulkItem × Corpus
  unfolding can_hide is_hidden hide show bulk_edited bulk_reindexed
  bulk_found BulkAction.hide_all reason e document_id d w =
      if can_hide d.status
      then bulk_edited e document_id (hide reason d) w
      else (item_of document_id Outcome.skipped, w)
  bulk_found BulkAction.restore_all reason e document_id d w =
      if is_hidden d.status
      then bulk_edited e document_id (show DocumentStatus.active d) w
      else (item_of document_id Outcome.skipped, w)
  bulk_found BulkAction.reindex_all reason e document_id d w = bulk_reindexed e document_id d w

  unfoldable pub bulk_item : BulkAction → Text → Edit → ℕ → Corpus → BulkItem × Corpus
  unfolding get_document bulk_found
  bulk_item action reason e document_id w = elim (get_document document_id w) [
    | err raised ↦ (item_of document_id Outcome.failed, w)
    | ok document ↦ bulk_found action reason e document_id document w
  ]

  -- The loop; each document may make a job, with a number of its own.
  unfoldable pub bulk_loop : BulkAction → Text → Edit → List ℕ → Corpus → List BulkItem × Corpus
  unfolding bulk_item
  bulk_loop action reason e [] w = ([], w)
  bulk_loop action reason e (document_id ∷ document_ids) w =
      let (item, w') = bulk_item action reason e document_id w in
      let (items, w'') =
        bulk_loop action reason (record e { new_job_id = e.new_job_id + 1 }) document_ids w' in
      (item ∷ items, w'')

  unfoldable pub bulk_documents : BulkAction → Text → Edit → List ℕ → Corpus → BulkResult × Corpus
  unfolding bulk_loop count_items
  bulk_documents action reason e document_ids w =
      let (items, w') = bulk_loop action reason e document_ids w in
      (
        record {
          items = items;
          success_count = count_items is_success items;
          skipped_count = count_items is_skipped items;
          failed_count = count_items is_failed_item items;
        },
        w',
      )
