-- ===== src/Editor/Requests.antt =====
-- The requests of an editor, one constructor for each operation, and their histories.
use praktika.Prelude.{ℕ, List, [], ◌∷◌, Result, ok, err, ◌>>=◌}
use praktika.Text.{Text}
use praktika.Editor.{
  Corpus, Edit, reindex_document, update_metadata, hide_document, restore_document,
}
use praktika.Editor.Bulk.{BulkAction, bulk_documents}

-- One request of an editor.
pub data EditRequest : Type 0 where
  metadata : ℕ → Text → Text → EditRequest
  hiding : ℕ → Text → EditRequest
  restoring : ℕ → EditRequest
  reindexing : ℕ → EditRequest
  bulk : BulkAction → Text → List ℕ → EditRequest

abbrev pub edited : Corpus → Result Corpus → Corpus
edited w (ok w') = w'
edited w (err e) = w

module _ (stable_chunk_key : ℕ → ℕ → ℕ → Text → Text) where
  unfoldable pub edit : Edit → EditRequest → Corpus → Corpus
  edit e (EditRequest.metadata id title note) w =
      edited w (update_metadata stable_chunk_key e id title note w)
  edit e (EditRequest.hiding id reason) w = edited w (hide_document stable_chunk_key e id reason w)
  edit e (EditRequest.restoring id) w = edited w (restore_document stable_chunk_key e id w)
  edit e (EditRequest.reindexing id) w = edited w (reindex_document e id w >>= λ a. ok a.1)
  edit e (EditRequest.bulk action reason ids) w =
      (bulk_documents stable_chunk_key action reason e ids w).1

  unfoldable pub edit_all : List (Edit × EditRequest) → Corpus → Corpus
  unfolding edit
  edit_all [] w = w
  edit_all ((e, r) ∷ rs) w = edit_all rs (edit e r w)
