-- ===== src/Editor/Counted.antt =====
-- What an operation on many documents reports, and what hiding and restoring leave of a document.
use praktika.Prelude.{
  ℕ, suc, ◌+◌, ◌≡◌, refl, sym, ◌∙◌, ap, Bool, true, false, ◌&&◌, ◌||◌, not, none, some, List, [],
  ◌∷◌, map, length, arith, if◌then◌else◌, ok, or_raise, Bool-cases, Result-cases, inl, inr,
}
use praktika.Text.{Text}
use praktika.Table.{find}
use praktika.Table.Rows.{find-put_self, key-find}
use praktika.Table.Members.{length-map}
use praktika.Editor.{
  DocumentStatus, IndexStatus, Document, Corpus, Edit, document_key, can_hide, is_hidden,
  is_outdated, outdate, get_document, save_document, touch, commit_edit, hide, restored_status,
  show, create_reindex_job, rebase, hide_document, restore_document,
}
use praktika.Editor.Bulk.{
  BulkAction, BulkItem, Outcome, is_success, is_skipped, is_failed_item, count_items, bulk_edited,
  bulk_reindexed, bulk_found, bulk_item, bulk_loop, bulk_documents,
}

counted_once :
    (items : List BulkItem)
    → count_items is_success items + count_items is_skipped items + count_items is_failed_item items
      ≡ length items
unfolding count_items
counted_once [] = refl
counted_once (item ∷ items) = one item.outcome (counted_once items)
  where
    one :
        (o : Outcome)
        → count_items is_success items
            + count_items is_skipped items
            + count_items is_failed_item items
          ≡ length items
        → (if is_success o then 1 + count_items is_success items else count_items is_success items)
            + (if is_skipped o
                then 1 + count_items is_skipped items
                else count_items is_skipped items)
            + (if is_failed_item o
                then 1 + count_items is_failed_item items
                else count_items is_failed_item items)
          ≡ suc (length items)
    one Outcome.success h = omega arith
    one Outcome.skipped h = omega arith
    one Outcome.failed h = omega arith

abbrev is_not_indexed : IndexStatus → Bool
is_not_indexed IndexStatus.not_indexed = true
is_not_indexed _ = false

is_outdated-outdate : (s : IndexStatus) → is_outdated (outdate s) ≡ not (is_not_indexed s)
unfolding is_outdated outdate
is_outdated-outdate IndexStatus.ready = refl
is_outdated-outdate IndexStatus.pending = refl
is_outdated-outdate IndexStatus.failed = refl
is_outdated-outdate IndexStatus.not_indexed = refl
is_outdated-outdate IndexStatus.outdated = refl

either :
    (a b : Bool)
    → (if not a || not b then DocumentStatus.outdated else DocumentStatus.active)
      ≡ (if a && b then DocumentStatus.active else DocumentStatus.outdated)
either true b = not_else b
  where
    not_else :
        (c : Bool)
        → (if not c then DocumentStatus.outdated else DocumentStatus.active)
          ≡ (if c then DocumentStatus.active else DocumentStatus.outdated)
    not_else true = refl
    not_else false = refl
either false b = refl

-- The status of a document that was hidden and restored_status.
abbrev pub back : Document → DocumentStatus
back d =
    if is_not_indexed d.bm25_status && is_not_indexed d.vector_status
    then DocumentStatus.active
    else DocumentStatus.outdated

module _ (stable_chunk_key : ℕ → ℕ → ℕ → Text → Text) where
  found_id :
      (action : BulkAction) (reason : Text) (e : Edit) (id : ℕ) (d : Document) (w : Corpus)
      → (bulk_found stable_chunk_key action reason e id d w).0.document_id ≡ id
  unfolding bulk_found bulk_edited bulk_reindexed
  found_id BulkAction.hide_all reason e id d w = elim (Bool-cases (can_hide d.status)) [
    | inl able ↦ rw able refl
    | inr other ↦ rw other refl
  ]
  found_id BulkAction.restore_all reason e id d w = elim (Bool-cases (is_hidden d.status)) [
    | inl able ↦ rw able refl
    | inr other ↦ rw other refl
  ]
  found_id BulkAction.reindex_all reason e id d w = elim (Result-cases (create_reindex_job e d w)) [
    | inl made ↦ rw (made.1, bulk_reindexed) refl
    | inr refused ↦ rw (refused.1, bulk_reindexed) refl
  ]

  item_id :
      (action : BulkAction) (reason : Text) (e : Edit) (id : ℕ) (w : Corpus)
      → (bulk_item stable_chunk_key action reason e id w).0.document_id ≡ id
  unfolding bulk_item
  item_id action reason e id w = elim (Result-cases (get_document id w)) [
    | inr missing ↦ rw (missing.1, bulk_item) refl
    | inl found ↦ rw (found.1, bulk_item) (found_id action reason e id found.0 w)
  ]

  items_ids :
      (action : BulkAction) (reason : Text) (e : Edit) (ids : List ℕ) (w : Corpus)
      → map {B = ℕ} (λ item. item.document_id) (bulk_loop stable_chunk_key action reason e ids w).0
        ≡ ids
  unfolding bulk_loop
  items_ids action reason e [] w = refl
  items_ids action reason e (id ∷ ids) w = rw (item_id action reason e id w) (
      ap (λ rest. id ∷ rest)
        (items_ids action reason (record e { new_job_id = e.new_job_id + 1 }) ids
          (bulk_item stable_chunk_key action reason e id w).1))

  -- An operation on many documents reports on each of them once, in the order of the request, and its
  -- counts add up to their number, whatever fails or is skipped.
  pub bulk_documents-IsCounted :
      (action : BulkAction) (reason : Text) (e : Edit) (ids : List ℕ) (w : Corpus)
      → (map {B = ℕ}
            (λ item. item.document_id)
            (bulk_documents stable_chunk_key action reason e ids w).0.items
          ≡ ids)
        × ((bulk_documents stable_chunk_key action reason e ids w).0.success_count
              + (bulk_documents stable_chunk_key action reason e ids w).0.skipped_count
              + (bulk_documents stable_chunk_key action reason e ids w).0.failed_count
            ≡ length ids)
  unfolding bulk_documents
  bulk_documents-IsCounted action reason e ids w = (
    items_ids action reason e ids w,
    counted_once (bulk_loop stable_chunk_key action reason e ids w).0
        ∙ sym (
            length-map (λ item. item.document_id)
              (bulk_loop stable_chunk_key action reason e ids w).0)
        ∙ ap length (items_ids action reason e ids w),
  )

  abbrev hidden_row : Edit → Text → Document → Document
  hidden_row e reason d = rebase stable_chunk_key (touch e (hide reason d))

  abbrev restored_row : Edit → Document → Document
  restored_row e d = rebase stable_chunk_key (touch e (show (restored_status d) d))

  hide_document_ok :
      (e : Edit) (id : ℕ) (reason : Text) (w : Corpus) (d : Document)
      → find document_key id w.documents ≡ some d
      → can_hide d.status ≡ true
      → hide_document stable_chunk_key e id reason w
        ≡ ok (commit_edit e true (hidden_row e reason d) w)
  unfolding hide_document get_document or_raise
  hide_document_ok e id reason w d found able = rw (found, hide_document) (rw able refl)

  restore_document_ok :
      (e : Edit) (id : ℕ) (w : Corpus) (d : Document)
      → find document_key id w.documents ≡ some d
      → is_hidden d.status ≡ true
      → restore_document stable_chunk_key e id w ≡ ok (commit_edit e true (restored_row e d) w)
  unfolding restore_document get_document or_raise
  restore_document_ok e id w d found able = rw (found, restore_document) (rw able refl)

  find-commit_edit :
      (e : Edit) (id : ℕ) (d row : Document) (w : Corpus)
      → find document_key id w.documents ≡ some d
      → row.id ≡ id
      → find document_key id (commit_edit e true row w).documents ≡ some row
  unfolding commit_edit save_document
  find-commit_edit e id d row w found same =
      find-put_self document_key id row w.documents d same found

  restored_back :
      (e : Edit) (reason : Text) (d : Document) → restored_status (hidden_row e reason d) ≡ back d
  unfolding restored_status rebase touch hide
  restored_back e reason d =
      rw (is_outdated-outdate d.bm25_status, is_outdated-outdate d.vector_status)
        (either (is_not_indexed d.bm25_status) (is_not_indexed d.vector_status))

  -- An editor who hides a document that can be hidden and then restores it, with nothing in between,
  -- gets no exception. The document then has two versions more and no reason, its other texts are as
  -- before, and it is active if neither index had it, and outdated otherwise.
  pub restore-hide :
      (e e' : Edit) (id : ℕ) (reason : Text) (w : Corpus) (d : Document)
      → find document_key id w.documents ≡ some d
      → can_hide d.status ≡ true
      → (hidden shown : Corpus) × (k : Document) × (hide_document stable_chunk_key e id reason w
          ≡ ok hidden)
        × (restore_document stable_chunk_key e' id hidden ≡ ok shown)
        × (find document_key id shown.documents ≡ some k)
        × (k.status ≡ back d)
        × (k.hidden_reason ≡ none)
        × (k.version ≡ d.version + 2)
        × (k.normalized_title ≡ d.normalized_title)
        × (k.editorial_note ≡ d.editorial_note)
  unfolding rebase touch hide show is_hidden
  restore-hide e e' id reason w d found able = (
    after_hide,
    commit_edit e' true (restored_row e' row) after_hide,
    restored_row e' row,
    hide_document_ok e id reason w d found able,
    restore_document_ok e' id after_hide row in_hidden refl,
    find-commit_edit e' id row (restored_row e' row) after_hide in_hidden its_key,
    restored_back e reason d,
    refl,
    omega arith,
    refl,
    refl,
  )
    where
      row : Document
      row = hidden_row e reason d

      after_hide : Corpus
      after_hide = commit_edit e true row w

      its_key : d.id ≡ id
      its_key = key-find document_key id w.documents d found

      in_hidden : find document_key id after_hide.documents ≡ some row
      in_hidden = find-commit_edit e id d row w found its_key
