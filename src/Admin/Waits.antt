-- ===== src/Admin/Waits.antt =====
-- A document whose reindex was asked for has one active job, and it is the one that the call returns.
use praktika.Prelude.{
  ℕ, ◌≡◌, ◌≢◌, refl, sym, ◌∙◌, Bool, true, false, ◌&&◌, ◌||◌, not, Option, none, some, List, [],
  ◌∷◌, ◌==◌, any, filter, All, arith, ok, Bool-cases, Option-cases, inl, inr,
}
use mathlib.Core.Path.{subst}
use praktika.Table.Members.{In, In-All, All-In, In-unfilter}
use praktika.Jobs.Model.{Job, JobType, Store, same_type}
use praktika.Admin.{
  new_job, conflicts, is_live, same_work, equal_ids, is_reindex, is_sync, is_full_reindex, add_job,
  reindexes, first_job, existing_reindex, enqueue_document_reindex,
}
use praktika.Admin.Unique.{IsOrderly, NoConflicts, add_job-IsOrderly}
use praktika.Admin.Kept.{new_job-IsSound}

-- Two reindex jobs of one document are in each other's way.
reindexes-conflicts :
    (d : ℕ) (a b : Job) → reindexes d a ≡ true → reindexes d b ≡ true → conflicts a b ≡ true
unfolding reindexes conflicts same_work equal_ids
reindexes-conflicts d a b h k = ground arith

bools_differ : true ≢ false
bools_differ e = cc

the_only :
    (d : ℕ) (js : List Job) (a : Job)
    → NoConflicts js
    → In a js
    → reindexes d a ≡ true
    → All (λ k. reindexes d k ≡ true → k ≡ a) js
the_only d [] a n i r = tt
the_only d (j ∷ js) a n (inl e) r = (
  (λ p. sym e),
  All-In (λ k. reindexes d k ≡ true → k ≡ a) js
      λ k at p. absurd (
        bools_differ (
          sym (reindexes-conflicts d j k (subst (λ x. reindexes d x ≡ true) e r) p)
          ∙ In-All (λ x. conflicts j x ≡ false) js n.0 k at)),
)
the_only d (j ∷ js) a n (inr i) r = (
  (λ p. absurd (
      bools_differ
        (sym (reindexes-conflicts d j a p r) ∙ In-All (λ x. conflicts j x ≡ false) js n.0 a i))),
  the_only d js a n.1 i r,
)

first_job-In : (js : List Job) (job : Job) → first_job js ≡ some job → In job js
unfolding first_job
first_job-In [] job e = absurd (nothing e)
  where
    nothing : none ≡ some job → ⊥
    nothing q = cc
first_job-In (j ∷ js) job e = inl (the_job e)
  where
    the_job : some j ≡ some job → job ≡ j
    the_job q = cc

abbrev reindexing : ℕ → ℕ → Option ℕ → Option ℕ → ℕ → ℕ → Job
reindexing new_id document_id source_id created_by max_attempts now =
    new_job new_id JobType.document_reindex 1 source_id (some document_id) created_by max_attempts
      now

-- What stands in the way of a new reindex job is one of the same document.
conflict-reindexes :
    (new_id d : ℕ) (source_id created_by : Option ℕ) (max_attempts now : ℕ) (j : Job)
    → reindexes d j ≡ false
    → conflicts (reindexing new_id d source_id created_by max_attempts now) j ≡ false
unfolding new_job reindexes conflicts same_work equal_ids is_reindex is_sync is_full_reindex is_live
    same_type
conflict-reindexes new_id d source_id created_by max_attempts now j h = ground arith

-- Nothing stands in the way of a new job of a document that has none.
free_of :
    (new_id d : ℕ) (source_id created_by : Option ℕ) (max_attempts now : ℕ) (js : List Job)
    → any (λ other. other.id == new_id) js ≡ false
    → first_job (filter (reindexes d) js) ≡ none
    → any
        (λ other.
          other.id == new_id
          || conflicts (reindexing new_id d source_id created_by max_attempts now) other)
        js
      ≡ false
unfolding first_job
free_of new_id d source_id created_by max_attempts now [] fresh none_there = refl
free_of new_id d source_id created_by max_attempts now (j ∷ js) fresh none_there =
    elim (Bool-cases (reindexes d j)) [
      | inl there ↦ absurd (something (rw there at none_there))
      | inr other ↦
          or_false (j.id == new_id)
            (conflicts (reindexing new_id d source_id created_by max_attempts now) j) _ _ fresh
            (conflict-reindexes new_id d source_id created_by max_attempts now j other)
            (λ rest.
              free_of new_id d source_id created_by max_attempts now js rest
                (rw other at none_there))
    ]
  where
    something : some j ≡ none → ⊥
    something q = cc

    or_false :
        (a c r x : Bool)
        → a || r ≡ false
        → c ≡ false
        → (r ≡ false → x ≡ false)
        → (a || c) || x ≡ false
    or_false false c r x h k f = rw k (f h)
    or_false true c r x h k f = absurd (bools_differ h)

new_job-reindexes :
    (new_id d : ℕ) (source_id created_by : Option ℕ) (max_attempts now : ℕ)
    → reindexes d (reindexing new_id d source_id created_by max_attempts now) ≡ true
unfolding reindexes new_job is_reindex is_live equal_ids same_type
new_job-reindexes new_id d source_id created_by max_attempts now = ground arith

add_job-free :
    (new_id d : ℕ) (source_id created_by : Option ℕ) (max_attempts now : ℕ) (s : Store)
    → any (λ other. other.id == new_id) s.jobs ≡ false
    → existing_reindex d s ≡ none
    → add_job (reindexing new_id d source_id created_by max_attempts now) s
      ≡ ok (record s { jobs = reindexing new_id d source_id created_by max_attempts now ∷ s.jobs })
unfolding add_job existing_reindex new_job
add_job-free new_id d source_id created_by max_attempts now s fresh missing =
    rw (free_of new_id d source_id created_by max_attempts now s.jobs fresh missing) refl

-- The answer is a job of the table that reindexes the document, and the only active one that does.
abbrev pub Waits : ℕ → Option Job × Store → Type 0
Waits d outcome =
    (job : Job) × (outcome.0 ≡ some job)
    × In job outcome.1.jobs
    × (reindexes d job ≡ true)
    × All (λ k. reindexes d k ≡ true → k ≡ job) outcome.1.jobs

existing-Waits :
    (d : ℕ) (s : Store) (job : Job)
    → IsOrderly s
    → existing_reindex d s ≡ some job
    → Waits d (some job, s)
unfolding existing_reindex
existing-Waits d s job h e =
    (job, refl, there.0, there.1, the_only d s.jobs job h.unique there.0 there.1)
  where
    there : In job s.jobs × (reindexes d job ≡ true)
    there = In-unfilter (reindexes d) s.jobs job (first_job-In (filter (reindexes d) s.jobs) job e)

added-Waits :
    (new_id d : ℕ) (source_id created_by : Option ℕ) (max_attempts now : ℕ) (s after : Store)
    → IsOrderly after
    → after.jobs ≡ reindexing new_id d source_id created_by max_attempts now ∷ s.jobs
    → Waits d (some (reindexing new_id d source_id created_by max_attempts now), after)
added-Waits new_id d source_id created_by max_attempts now s after h e =
    (job, refl, at, its, the_only d after.jobs job h.unique at its)
  where
    job : Job
    job = reindexing new_id d source_id created_by max_attempts now

    at : In job after.jobs
    at = rw e (inl refl)

    its : reindexes d job ≡ true
    its = new_job-reindexes new_id d source_id created_by max_attempts now

-- In an orderly queue, a call of `enqueue_document_reindex` that is forced, or made while reindexing
-- is automatic, with a number that no job has yet, returns a job of the tables it leaves: an active
-- reindexing of this document, and the only one, whether it is new or was there before.
pub enqueue-Waits :
    (new_id : ℕ) (auto force : Bool) (document_id : ℕ) (source_id created_by : Option ℕ)
    (max_attempts now : ℕ) (s : Store)
    → IsOrderly s
    → force || auto ≡ true
    → any (λ other. other.id == new_id) s.jobs ≡ false
    → Waits document_id (
        enqueue_document_reindex new_id auto force document_id source_id created_by max_attempts now
          s)
unfolding enqueue_document_reindex
enqueue-Waits new_id auto force document_id source_id created_by max_attempts now s h asked fresh =
    rw (wanted force auto asked, enqueue_document_reindex)
      (elim (Option-cases (existing_reindex document_id s)) [
        | inr there ↦ rw there.1 (existing-Waits document_id s there.0 h there.1)
        | inl missing ↦
            rw (missing, adds missing)
              (added-Waits new_id document_id source_id created_by max_attempts now s after
                (orderly missing) refl)
      ])
  where
    job : Job
    job = reindexing new_id document_id source_id created_by max_attempts now

    after : Store
    after = record s { jobs = job ∷ s.jobs }

    wanted : (f a : Bool) → f || a ≡ true → not f && not a ≡ false
    wanted true a e = refl
    wanted false true e = refl
    wanted false false e = cc

    adds : existing_reindex document_id s ≡ none → add_job job s ≡ ok after
    adds missing =
        add_job-free new_id document_id source_id created_by max_attempts now s fresh missing

    orderly : existing_reindex document_id s ≡ none → IsOrderly after
    orderly missing =
        (add_job-IsOrderly job s
            (new_job-IsSound new_id JobType.document_reindex 1 source_id (some document_id)
              created_by max_attempts now)
            h).holds
          after (adds missing)
