-- ===== src/Editor/Edited.antt =====
-- The documents that one edit leaves.
use praktika.Prelude.{
  ℕ, ◌≡◌, refl, Bool, true, false, ◌||◌, not, Option, none, some, List, [], ◌∷◌, map, All, ok,
  Error, Ensures, Ensures-ok, Ensures-bind, Ensures-guard, Bool-cases, inl, inr, or_raise_ok,
}
use praktika.Text.{Text}
use praktika.Table.{find}
use praktika.Table.Rows.{All-put, All-find}
use praktika.Jobs.Model.{Job, JobType}
use praktika.Admin.{new_job, add_or_conflict}
use praktika.Editor.{
  DocumentStatus, DocumentChunk, Document, Corpus, Edit, document_key, can_hide, is_hidden,
  is_outdated, get_document, save_document, touch, commit_edit, titled, hide, restored_status, show,
  pending_index, create_reindex_job, rebase_chunk, rebase, update_metadata, hide_document,
  restore_document,
}

-- A hidden document has a reason, and no other has one.
abbrev pub HasReason : DocumentStatus → Option Text → Type 0
HasReason DocumentStatus.hidden none = ⊥
HasReason DocumentStatus.hidden (some reason) = Unit {0}
HasReason _ reason = reason ≡ none

module _ (stable_chunk_key : ℕ → ℕ → ℕ → Text → Text) where
  -- The chunk was keyed for this version of the document.
  abbrev IsKeyed : ℕ → ℕ → DocumentChunk → Type 0
  IsKeyed id version c =
      (c.document_version ≡ version)
      × (c.chunk_key ≡ stable_chunk_key id version c.ordinal c.content_hash)

  pub record IsCurrent (d : Document) : Type 0 where
    pub keyed : All (IsKeyed d.id d.version) d.chunks
    pub reason : HasReason d.status d.hidden_reason

  abbrev pub AreCurrent : Corpus → Type 0
  AreCurrent w = All IsCurrent w.documents

  rebased :
      (id version : ℕ) (chunks : List DocumentChunk)
      → All (IsKeyed id version) (map (rebase_chunk stable_chunk_key id version) chunks)
  unfolding rebase_chunk
  rebased id version [] = tt
  rebased id version (c ∷ cs) = ((refl, refl), rebased id version cs)

  rebase-IsCurrent :
      (d : Document) → HasReason d.status d.hidden_reason → IsCurrent (rebase stable_chunk_key d)
  unfolding rebase
  rebase-IsCurrent d h = record { keyed = rebased d.id d.version d.chunks; reason = h }

  pub found-IsCurrent :
      (id : ℕ) (w : Corpus) (d : Document) → AreCurrent w → get_document id w ≡ ok d → IsCurrent d
  unfolding get_document
  found-IsCurrent id w d h e =
      All-find document_key IsCurrent id w.documents d h
        (or_raise_ok Error.not_found (find document_key id w.documents) d e)

  commit_edit-AreCurrent :
      (e : Edit) (force : Bool) (d : Document) (w : Corpus)
      → IsCurrent d
      → AreCurrent w
      → AreCurrent (commit_edit e force d w)
  unfolding commit_edit save_document
  commit_edit-AreCurrent e force d w c h = All-put document_key IsCurrent d w.documents c h

  edit_one-AreCurrent :
      (e : Edit) (force : Bool) (d : Document) (w : Corpus)
      → HasReason d.status d.hidden_reason
      → AreCurrent w
      → AreCurrent (commit_edit e force (rebase stable_chunk_key (touch e d)) w)
  unfolding touch
  edit_one-AreCurrent e force d w r h =
      commit_edit-AreCurrent e force (rebase stable_chunk_key (touch e d)) w
        (rebase-IsCurrent (touch e d) r) h

  shown-HasReason : (status : DocumentStatus) → is_hidden status ≡ false → HasReason status none
  unfolding is_hidden
  shown-HasReason DocumentStatus.hidden e = cc
  shown-HasReason DocumentStatus.active e = refl
  shown-HasReason DocumentStatus.pending e = refl
  shown-HasReason DocumentStatus.failed e = refl
  shown-HasReason DocumentStatus.outdated e = refl

  restored_shown : (d : Document) → is_hidden (restored_status d) ≡ false
  unfolding restored_status is_hidden
  restored_shown d = elim (Bool-cases (is_outdated d.bm25_status || is_outdated d.vector_status)) [
    | inl old ↦ rw (old) refl
    | inr fresh ↦ rw (fresh) refl
  ]

  pub hide_one-AreCurrent :
      (e : Edit) (reason : Text) (d : Document) (w : Corpus)
      → AreCurrent w
      → AreCurrent (commit_edit e true (rebase stable_chunk_key (touch e (hide reason d))) w)
  unfolding hide
  hide_one-AreCurrent e reason d w h = edit_one-AreCurrent e true (hide reason d) w tt h

  pub show_one-AreCurrent :
      (e : Edit) (status : DocumentStatus) (d : Document) (w : Corpus)
      → is_hidden status ≡ false
      → AreCurrent w
      → AreCurrent (commit_edit e true (rebase stable_chunk_key (touch e (show status d))) w)
  unfolding show
  show_one-AreCurrent e status d w s h =
      edit_one-AreCurrent e true (show status d) w (shown-HasReason status s) h

  pub update_metadata-AreCurrent :
      (e : Edit) (id : ℕ) (title note : Text) (w : Corpus)
      → AreCurrent w
      → Ensures AreCurrent (update_metadata stable_chunk_key e id title note w)
  unfolding update_metadata titled
  update_metadata-AreCurrent e id title note w h =
      Ensures-bind AreCurrent (get_document id w) _ λ d got.
        Ensures-ok AreCurrent
          (commit_edit e false (rebase stable_chunk_key (touch e (titled title note d))) w)
          (edit_one-AreCurrent e false (titled title note d) w (found-IsCurrent id w d h got).reason
            h)

  pub hide_document-AreCurrent :
      (e : Edit) (id : ℕ) (reason : Text) (w : Corpus)
      → AreCurrent w
      → Ensures AreCurrent (hide_document stable_chunk_key e id reason w)
  unfolding hide_document
  hide_document-AreCurrent e id reason w h = Ensures-bind AreCurrent (get_document id w) _ λ d got.
      Ensures-guard AreCurrent (not (can_hide d.status)) _ _ λ able.
        Ensures-ok AreCurrent
          (commit_edit e true (rebase stable_chunk_key (touch e (hide reason d))) w)
          (hide_one-AreCurrent e reason d w h)

  pub restore_document-AreCurrent :
      (e : Edit) (id : ℕ) (w : Corpus)
      → AreCurrent w
      → Ensures AreCurrent (restore_document stable_chunk_key e id w)
  unfolding restore_document
  restore_document-AreCurrent e id w h = Ensures-bind AreCurrent (get_document id w) _ λ d got.
      Ensures-guard AreCurrent (not (is_hidden d.status)) _ _ λ able.
        Ensures-ok AreCurrent
          (commit_edit e true (rebase stable_chunk_key (touch e (show (restored_status d) d))) w)
          (show_one-AreCurrent e (restored_status d) d w (restored_shown d) h)

  abbrev pub Queued : Job × Corpus → Type 0
  Queued a = AreCurrent a.1

  pub create_reindex_job-AreCurrent :
      (e : Edit) (d : Document) (w : Corpus)
      → IsCurrent d
      → AreCurrent w
      → Ensures Queued (create_reindex_job e d w)
  unfolding create_reindex_job pending_index save_document
  create_reindex_job-AreCurrent e d w c h =
      let job =
        new_job e.new_job_id JobType.document_reindex 1 (some d.source_id) (some d.id)
          (some e.actor_id) 5 e.now in
      Ensures-bind Queued (add_or_conflict job w.queue) _ λ queue added.
        Ensures-ok Queued (job, save_document (pending_index d) (record w { queue = queue }))
          (All-put document_key IsCurrent (pending_index d) w.documents
            (record { keyed = c.keyed; reason = c.reason }) h)
