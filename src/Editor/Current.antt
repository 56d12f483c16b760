-- ===== src/Editor/Current.antt =====
-- Every edit leaves the chunks at the version of their document, and a reason exactly where it is
-- hidden.
use praktika.Prelude.{
  ℕ, ◌+◌, refl, List, [], ◌∷◌, All, Result, ok, err, Ensures, Ensures-ok, Ensures-err, Ensures-bind,
  Bool-cases, inl, inr, Result-cases, ◌>>=◌,
}
use praktika.Text.{Text}
use praktika.Jobs.Model.{Job}
use praktika.Editor.{
  DocumentStatus, Document, Corpus, Edit, can_hide, is_hidden, get_document, create_reindex_job,
  reindex_document, update_metadata, hide_document, restore_document,
}
use praktika.Editor.Bulk.{
  BulkAction, bulk_edited, bulk_reindexed, bulk_found, bulk_item, bulk_loop, bulk_documents,
}
use praktika.Editor.Requests.{EditRequest, edited, edit, edit_all}
use praktika.Editor.Edited.{
  AreCurrent, found-IsCurrent, hide_one-AreCurrent, show_one-AreCurrent, update_metadata-AreCurrent,
  hide_document-AreCurrent, restore_document-AreCurrent, Queued, create_reindex_job-AreCurrent,
  IsCurrent,
}

module _ (stable_chunk_key : ℕ → ℕ → ℕ → Text → Text) where
  reindex_document-AreCurrent :
      (e : Edit) (id : ℕ) (w : Corpus)
      → (AreCurrent stable_chunk_key) w
      → Ensures (Queued stable_chunk_key) (reindex_document e id w)
  unfolding reindex_document
  reindex_document-AreCurrent e id w h =
      Ensures-bind (Queued stable_chunk_key) (get_document id w) _ λ d got.
        create_reindex_job-AreCurrent stable_chunk_key e d w
          (found-IsCurrent stable_chunk_key id w d h got) h

  bulk_reindexed-AreCurrent :
      (e : Edit) (id : ℕ) (d : Document) (w : Corpus)
      → (IsCurrent stable_chunk_key) d
      → (AreCurrent stable_chunk_key) w
      → (AreCurrent stable_chunk_key) (bulk_reindexed stable_chunk_key e id d w).1
  unfolding bulk_reindexed
  bulk_reindexed-AreCurrent e id d w c h = elim (Result-cases (create_reindex_job e d w)) [
    | inl made ↦
        rw (made.1, bulk_reindexed)
          ((create_reindex_job-AreCurrent stable_chunk_key e d w c h).holds made.0 made.1)
    | inr refused ↦ rw (refused.1, bulk_reindexed) h
  ]

  bulk_found-AreCurrent :
      (action : BulkAction) (reason : Text) (e : Edit) (id : ℕ) (d : Document) (w : Corpus)
      → (IsCurrent stable_chunk_key) d
      → (AreCurrent stable_chunk_key) w
      → (AreCurrent stable_chunk_key) (bulk_found stable_chunk_key action reason e id d w).1
  unfolding bulk_found bulk_edited is_hidden
  bulk_found-AreCurrent BulkAction.hide_all reason e id d w c h =
      elim (Bool-cases (can_hide d.status)) [
        | inl able ↦ rw able (hide_one-AreCurrent stable_chunk_key e reason d w h)
        | inr other ↦ rw other h
      ]
  bulk_found-AreCurrent BulkAction.restore_all reason e id d w c h =
      elim (Bool-cases (is_hidden d.status)) [
        | inl able ↦
            rw able (show_one-AreCurrent stable_chunk_key e DocumentStatus.active d w refl h)
        | inr other ↦ rw other h
      ]
  bulk_found-AreCurrent BulkAction.reindex_all reason e id d w c h =
      bulk_reindexed-AreCurrent e id d w c h

  bulk_item-AreCurrent :
      (action : BulkAction) (reason : Text) (e : Edit) (id : ℕ) (w : Corpus)
      → (AreCurrent stable_chunk_key) w
      → (AreCurrent stable_chunk_key) (bulk_item stable_chunk_key action reason e id w).1
  unfolding bulk_item
  bulk_item-AreCurrent action reason e id w h = elim (Result-cases (get_document id w)) [
    | inl found ↦
        rw (found.1, bulk_item)
          (bulk_found-AreCurrent action reason e id found.0 w
            (found-IsCurrent stable_chunk_key id w found.0 h found.1) h)
    | inr missing ↦ rw (missing.1, bulk_item) h
  ]

  bulk_loop-AreCurrent :
      (action : BulkAction) (reason : Text) (e : Edit) (ids : List ℕ) (w : Corpus)
      → (AreCurrent stable_chunk_key) w
      → (AreCurrent stable_chunk_key) (bulk_loop stable_chunk_key action reason e ids w).1
  unfolding bulk_loop
  bulk_loop-AreCurrent action reason e [] w h = h
  bulk_loop-AreCurrent action reason e (id ∷ ids) w h =
      bulk_loop-AreCurrent action reason (record e { new_job_id = e.new_job_id + 1 }) ids
        (bulk_item stable_chunk_key action reason e id w).1
        (bulk_item-AreCurrent action reason e id w h)

  edited-AreCurrent :
      (w : Corpus) (r : Result Corpus)
      → (AreCurrent stable_chunk_key) w
      → Ensures (AreCurrent stable_chunk_key) r
      → (AreCurrent stable_chunk_key) (edited w r)
  edited-AreCurrent w (ok w') h e = e.holds w' refl
  edited-AreCurrent w (err x) h e = h

  of_Queued :
      (r : Result (Job × Corpus))
      → Ensures (Queued stable_chunk_key) r
      → Ensures (AreCurrent stable_chunk_key) (r >>= λ a. ok a.1)
  of_Queued (ok a) h = Ensures-ok (AreCurrent stable_chunk_key) a.1 (h.holds a refl)
  of_Queued (err e) h = Ensures-err (AreCurrent stable_chunk_key) e

  edit-AreCurrent :
      (e : Edit) (r : EditRequest) (w : Corpus)
      → (AreCurrent stable_chunk_key) w
      → (AreCurrent stable_chunk_key) (edit stable_chunk_key e r w)
  unfolding edit bulk_documents
  edit-AreCurrent e (EditRequest.metadata id title note) w h =
      edited-AreCurrent w (update_metadata stable_chunk_key e id title note w) h
        (update_metadata-AreCurrent stable_chunk_key e id title note w h)
  edit-AreCurrent e (EditRequest.hiding id reason) w h =
      edited-AreCurrent w (hide_document stable_chunk_key e id reason w) h
        (hide_document-AreCurrent stable_chunk_key e id reason w h)
  edit-AreCurrent e (EditRequest.restoring id) w h =
      edited-AreCurrent w (restore_document stable_chunk_key e id w) h
        (restore_document-AreCurrent stable_chunk_key e id w h)
  edit-AreCurrent e (EditRequest.reindexing id) w h =
      edited-AreCurrent w (reindex_document e id w >>= λ a. ok a.1) h
        (of_Queued (reindex_document e id w) (reindex_document-AreCurrent e id w h))
  edit-AreCurrent e (EditRequest.bulk action reason ids) w h =
      bulk_loop-AreCurrent action reason e ids w h

  -- If the chunks of every document are keyed for its version, and exactly the hidden documents have a
  -- reason, then this still holds after any edits of single documents and of many.
  pub edit_all-AreCurrent :
      (rs : List (Edit × EditRequest)) (w : Corpus)
      → All (IsCurrent stable_chunk_key) w.documents
      → All (IsCurrent stable_chunk_key) (edit_all stable_chunk_key rs w).documents
  unfolding edit_all
  edit_all-AreCurrent [] w h = h
  edit_all-AreCurrent ((e, r) ∷ rs) w h =
      edit_all-AreCurrent rs (edit stable_chunk_key e r w) (edit-AreCurrent e r w h)
