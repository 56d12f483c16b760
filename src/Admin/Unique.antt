-- ===== src/Admin/Unique.antt =====
-- No two active jobs do the same work: the queue never breaks what the indexes of the table promise.
use praktika.Prelude.{
  ◌≡◌, ◌≢◌, refl, sym, ◌∙◌, Bool, true, false, ◌&&◌, ◌||◌, List, [], ◌∷◌, ◌==◌, any, All, arith,
  All-weaken, Ensures, Ensures-guard, Ensures-ok,
}
use praktika.Table.{Each}
use praktika.Jobs.Model.{Job, Store, job_key}
use praktika.Jobs.Transitions.{
  claim_row, heartbeat_row, progress_row, request_row, complete_row, fail_row, cancel_row,
  requeue_row,
}
use praktika.Jobs.Moves.{Move, Moves, here, then}
use praktika.Jobs.Moves
use praktika.Jobs.Lifecycle.{IsQueue, IsSound}
use praktika.Admin.{conflicts, is_live, same_work, is_reindex, is_sync, is_full_reindex, add_job}

abbrev pub NoConflicts : List Job → Type 0
NoConflicts [] = Unit {0}
NoConflicts (j ∷ js) = All (λ k. conflicts j k ≡ false) js × NoConflicts js

-- A later row of a job: the same work, and active only if it was.
record Follows (j k : Job) : Type 0 where
  same_kind : k.job_type ≡ j.job_type
  same_source : k.source_id ≡ j.source_id
  same_document : k.document_id ≡ j.document_id
  still_live : is_live k ≡ true → is_live j ≡ true

Move-Follows : (j k : Job) → Move j k → Follows j k
unfolding claim_row heartbeat_row progress_row request_row complete_row fail_row cancel_row
    requeue_row is_live
Move-Follows j k Moves.stay = ground arith
Move-Follows j k (Moves.claim w lease moment waits left unasked long) = ground arith
Move-Follows j k (Moves.beat lease moment running long) = ground arith
Move-Follows j k (Moves.advance p running q) = ground arith
Move-Follows j k (Moves.request moment running able unasked) = ground arith
Move-Follows j k (Moves.complete result moment running) = ground arith
Move-Follows j k (Moves.fail code message result moment running) = ground arith
Move-Follows j k (Moves.requeue stage at code message running left unasked) = ground arith
Move-Follows j k (Moves.cancel moment live) = ground arith
Move-Follows j k (Moves.cancel_at_request moment live able unasked) = ground arith

Follows-trans : (j k l : Job) → Follows j k → Follows k l → Follows j l
Follows-trans j k l a b = record {
  same_kind = b.same_kind ∙ a.same_kind;
  same_source = b.same_source ∙ a.same_source;
  same_document = b.same_document ∙ a.same_document;
  still_live = λ e. a.still_live (b.still_live e);
}

Moves-Follows : (j k : Job) → Moves j k → Follows j k
Moves-Follows j k here = record {
  same_kind = refl;
  same_source = refl;
  same_document = refl;
  still_live = λ e. e;
}
Moves-Follows j k (then {k = l} m ms) =
    Follows-trans j l k (Move-Follows j l m) (Moves-Follows l k ms)

same_work_left : (j k x : Job) → Follows j k → same_work k x ≡ same_work j x
unfolding same_work is_reindex is_sync is_full_reindex
same_work_left j k x f = simp (f.same_kind, f.same_source, f.same_document)

same_work_right : (j k x : Job) → Follows j k → same_work x k ≡ same_work x j
unfolding same_work is_reindex is_sync is_full_reindex
same_work_right j k x f = simp (f.same_kind, f.same_source, f.same_document)

weaker_left : (l k m s : Bool) → (k ≡ true → l ≡ true) → l && m && s ≡ false → k && m && s ≡ false
weaker_left l false m s f h = refl
weaker_left l true m s f h = sym (rw (f refl) refl) ∙ h

weaker_right : (l k m s : Bool) → (k ≡ true → l ≡ true) → m && l && s ≡ false → m && k && s ≡ false
weaker_right l k false s f h = refl
weaker_right l false true s f h = refl
weaker_right l true true s f h = sym (rw (f refl) refl) ∙ h

still_apart : (j k x : Job) → Follows j k → conflicts j x ≡ false → conflicts k x ≡ false
unfolding conflicts
still_apart j k x f h =
    rw (same_work_left j k x f)
      (weaker_left (is_live j) (is_live k) (is_live x) (same_work j x) f.still_live h)

apart_from : (j k x : Job) → Follows j k → conflicts x j ≡ false → conflicts x k ≡ false
unfolding conflicts
apart_from j k x f h =
    rw (same_work_right j k x f)
      (weaker_right (is_live j) (is_live k) (is_live x) (same_work x j) f.still_live h)

others_follow :
    (j : Job) (ks ls : List Job)
    → Each Moves ks ls
    → All (λ k. conflicts j k ≡ false) ks
    → All (λ l. conflicts j l ≡ false) ls
others_follow j [] [] e h = tt
others_follow j [] (l ∷ ls) e h = absurd e
others_follow j (k ∷ ks) [] e h = tt
others_follow j (k ∷ ks) (l ∷ ls) e h =
    (apart_from k l j (Moves-Follows k l e.0) h.0, others_follow j ks ls e.1 h.1)

pub NoConflicts-Each : (js ks : List Job) → Each Moves js ks → NoConflicts js → NoConflicts ks
NoConflicts-Each [] [] e h = tt
NoConflicts-Each [] (k ∷ ks) e h = absurd e
NoConflicts-Each (j ∷ js) [] e h = tt
NoConflicts-Each (j ∷ js) (k ∷ ks) e h = (
  All-weaken (λ x. conflicts j x ≡ false) (λ x. conflicts k x ≡ false)
      (λ x. still_apart j k x (Moves-Follows j k e.0)) ks (others_follow j js ks e.1 h.0),
  NoConflicts-Each js ks e.1 h.1,
)

free_among :
    (job : Job) (js : List Job)
    → any (λ other. other.id == job.id || conflicts job other) js ≡ false
    → All (λ k. job_key k ≢ job_key job) js × All (λ k. conflicts job k ≡ false) js
free_among job [] h = (tt, tt)
free_among job (j ∷ js) h = both (free_among job js (ground arith))
  where
    both :
        All (λ k. job_key k ≢ job_key job) js × All (λ k. conflicts job k ≡ false) js
        → All (λ k. job_key k ≢ job_key job) (j ∷ js) × All (λ k. conflicts job k ≡ false) (j ∷ js)
    both r = ((ground arith, r.0), (ground arith, r.1))

-- Tables of a queue that works, and no two active jobs for the same work.
pub record IsOrderly (s : Store) : Type 0 where
  pub queue : IsQueue s
  pub unique : NoConflicts s.jobs

pub add_job-IsOrderly :
    (job : Job) (s : Store) → IsSound job → IsOrderly s → Ensures IsOrderly (add_job job s)
unfolding add_job
add_job-IsOrderly job s sound h =
    Ensures-guard IsOrderly (any (λ other. other.id == job.id || conflicts job other) s.jobs) _ _
      λ free.
        let (fresh, apart) = free_among job s.jobs free in
        Ensures-ok IsOrderly (record s { jobs = job ∷ s.jobs })
          (record {
            queue = record { distinct = (fresh, h.queue.distinct); sound = (sound, h.queue.sound) };
            unique = (apart, h.unique);
          })
