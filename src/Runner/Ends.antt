-- ===== src/Runner/Ends.antt =====
-- `_finalize` ends the run of the job that its worker holds, and the source of the job follows.
use praktika.Prelude.{
  ℕ, List, ap, sym, ◌≡◌, refl, ◌∙◌, false, Option, none, some, Option-cases, inl, inr, ok, Ensures,
  Ensures-ok, Ensures-bind,
}
use mathlib.Core.Path.{subst}
use praktika.Text.{Unicode}
use praktika.Table.{find}
use praktika.Table.Rows.{key-find}
use praktika.Jobs.Model.{Store, Job, is_running}
use praktika.Jobs.Locks.{find_job, lock_running_job_for_worker}
use praktika.Jobs.Moves.Refine.{locked_job}
use praktika.Runner.{
  Source, World, HandlerOutcome, source_key, source_after, change_source, update_sync_completion,
}
use praktika.Runner.Finalize.{queue_call, follow, finalize}
use praktika.Runner.Written.{queue-change_source, queue_call-Written}
use praktika.Runner.Synced.{
  Follows, source_after-Follows, id-source_after, found_change, synced_at, update_frame,
  update_sync_completion-Follows, queue-update_sync_completion,
}

-- The job is in the tables and does not run, and its source follows.
abbrev pub EndedAs : Job → ℕ → ℕ → World → Type 0
EndedAs k job_id source_id w =
    (after : Source) × (find_job job_id w.queue ≡ some k)
    × (is_running k.status ≡ false)
    × (find source_key source_id w.sources ≡ some after)
    × Follows k.status k after

-- The branch of `follow` for a job with a source.
followed :
    (utc_now job_id source_id : ℕ) (k : Job) (o : Option ℕ) (w : World)
    → o ≡ some source_id
    → EndedAs k job_id source_id (
        update_sync_completion utc_now source_id k
          (change_source (some source_id) (source_after k.status k) w))
    → EndedAs k job_id source_id (elim o as (λ x. World) [
      | none ↦ w
      | some i ↦
          update_sync_completion utc_now i k (change_source (some i) (source_after k.status k) w)
    ])
followed utc_now job_id source_id k none w e h = cc
followed utc_now job_id source_id k (some i) w e h =
    subst
      (λ j.
        EndedAs k job_id source_id
          (update_sync_completion utc_now j k (change_source (some j) (source_after k.status k) w)))
      (cc) h

pub follow_ends :
    (utc_now job_id source_id : ℕ) (k : Job) (w : World) (source : Source)
    → find_job job_id w.queue ≡ some k
    → is_running k.status ≡ false
    → k.source_id ≡ some source_id
    → find source_key source_id w.sources ≡ some source
    → EndedAs k job_id source_id (follow utc_now (some k) w)
unfolding follow
follow_ends utc_now job_id source_id k w source there stops sourced found =
    let changed = change_source (some source_id) (source_after k.status k) w in
    let (after, at, h) =
      update_sync_completion-Follows utc_now source_id k.status k changed
        (source_after k.status k source)
        (found_change source_id (source_after k.status k) w source
          (id-source_after k.status k source) found)
        (source_after-Follows k.status k source stops) in
    let queue =
      queue-update_sync_completion utc_now source_id k changed
      ∙ queue-change_source (some source_id) (source_after k.status k) w in
    followed utc_now job_id source_id k k.source_id w sourced (after, rw queue there, stops, at, h)

-- The source of a job, if it has one and the row is there.
abbrev pub source_of : Option ℕ → World → Option Source
source_of none w = none
source_of (some source_id) w = find source_key source_id w.sources

-- The source, if there is one, says what the status of the job asks for; else no source changes.
abbrev pub Says : Option Source → Job → World → World → Type 0
Says none k w w' = w'.sources ≡ w.sources
Says (some source) k w w' =
    (after : Source) × (find source_key source.id w'.sources ≡ some after)
    × Follows k.status k after

missing_change :
    (source_id : ℕ) (change : Source → Source) (w : World)
    → find source_key source_id w.sources ≡ none
    → change_source (some source_id) change w ≡ w
unfolding change_source
missing_change source_id change w missing = rw (missing, change_source) refl

-- Neither the run nor the synchronization changes a source that is not there.
update_missing :
    (utc_now source_id : ℕ) (k : Job) (change : Source → Source) (w : World)
    → find source_key source_id w.sources ≡ none
    → (update_sync_completion utc_now source_id k (change_source (some source_id) change w)).sources
      ≡ w.sources
update_missing utc_now source_id k change w missing =
    rw (missing_change source_id change w missing) (elim (update_frame utc_now source_id k w) [
      | inl same ↦ same.0
      | inr dated ↦
          dated.0
          ∙ ap {B = List Source} (λ (t : World). t.sources)
              (missing_change source_id (synced_at k.finished_at) w missing)
    ])

follow_queue : (utc_now : ℕ) (k : Job) (w : World) → (follow utc_now (some k) w).queue ≡ w.queue
unfolding follow
follow_queue utc_now k w = by_source k.source_id
  where
    by_source :
        (o : Option ℕ)
        → (elim o as (λ x. World) [
          | none ↦ w
          | some i ↦
              update_sync_completion utc_now i k
                (change_source (some i) (source_after k.status k) w)
        ]).queue
          ≡ w.queue
    by_source none = refl
    by_source (some i) =
        queue-update_sync_completion utc_now i k
          (change_source (some i) (source_after k.status k) w)
        ∙ queue-change_source (some i) (source_after k.status k) w

-- What the synchronization of a source says, where a source is given.
by_source-Says :
    (utc_now : ℕ) (k : Job) (w : World) (o : Option ℕ)
    → is_running k.status ≡ false
    → Says (source_of o w) k w (elim o as (λ x. World) [
      | none ↦ w
      | some i ↦
          update_sync_completion utc_now i k (change_source (some i) (source_after k.status k) w)
    ])
by_source-Says utc_now k w none stops = refl
by_source-Says utc_now k w (some i) stops = elim (Option-cases (find source_key i w.sources)) [
  | inl missing ↦
      subst (λ q. Says q k w (update_sync_completion utc_now i k changed)) (sym missing)
        (update_missing utc_now i k (source_after k.status k) w missing)
  | inr (source, found) ↦
      subst (λ q. Says q k w (update_sync_completion utc_now i k changed)) (sym found)
        (subst
          (λ j.
            (after : Source) × (find source_key j
                (update_sync_completion utc_now i k changed).sources
              ≡ some after)
            × Follows k.status k after)
          (sym (key-find source_key i w.sources source found))
          (update_sync_completion-Follows utc_now i k.status k changed
            (source_after k.status k source)
            (found_change i (source_after k.status k) w source (id-source_after k.status k source)
              found)
            (source_after-Follows k.status k source stops)))
]
  where
    changed : World
    changed = change_source (some i) (source_after k.status k) w

follow-Says :
    (utc_now : ℕ) (k : Job) (w : World)
    → is_running k.status ≡ false
    → Says (source_of k.source_id w) k w (follow utc_now (some k) w)
unfolding follow
follow-Says utc_now k w stops = by_source-Says utc_now k w k.source_id stops

-- What a source says does not depend on the queue.
moved-Says :
    (queue : Store) (k : Job) (o o' : Option ℕ) (w w' : World)
    → o ≡ o'
    → Says (source_of o (record w { queue = queue })) k (record w { queue = queue }) w'
    → Says (source_of o' w) k w w'
moved-Says queue k none none w w' e h = h
moved-Says queue k none (some i) w w' e h = cc
moved-Says queue k (some i) none w w' e h = cc
moved-Says queue k (some i) (some j) w w' e h =
    plain (find source_key j w.sources)
      (subst (λ l. Says (find source_key l w.sources) k (record w { queue = queue }) w') (cc) h)
  where
    plain : (q : Option Source) → Says q k (record w { queue = queue }) w' → Says q k w w'
    plain none h' = h'
    plain (some source) h' = h'

module _ (u : Unicode) (utc_now : ℕ) where
  abbrev Ended : Job → ℕ → World → World → Type 0
  Ended job job_id w w' =
      (k : Job) × (find_job job_id w'.queue ≡ some k)
      × (is_running k.status ≡ false)
      × Says (source_of job.source_id w) k w w'

  finalize-Ended :
      (worker_id job_id : ℕ) (o : HandlerOutcome) (w : World) (job : Job)
      → lock_running_job_for_worker job_id worker_id w.queue ≡ some job
      → Ensures (Ended job job_id w) (finalize u utc_now worker_id job_id o w)
  unfolding finalize
  finalize-Ended worker_id job_id o w job locked =
      Ensures-bind (Ended job job_id w)
        (queue_call u utc_now job_id worker_id o o.disposition w.queue) _
        (λ a e.
          let (k, answer, h) =
            (queue_call-Written u utc_now job_id worker_id o o.disposition w.queue job locked).holds
              a e in
          let same = (locked_job job_id worker_id w.queue job locked).3 in
          let there = subst (λ i. find_job i a.1 ≡ some k) same h.there in
          let called : World = record w { queue = a.1 } in
          Ensures-ok (Ended job job_id w) _ (
            rw answer (
              k,
              rw (follow_queue utc_now k called) there,
              h.stops,
              moved-Says a.1 k k.source_id job.source_id w (follow utc_now (some k) called)
                  h.same_source (follow-Says utc_now k called h.stops),
            )))

  -- A run that a worker finalizes is over: if the worker still holds the job and the call returns,
  -- the job is in the tables and does not run. Its source, if it has one whose row is there, says what
  -- the new status of the job asks for; otherwise no source changes.
  pub finalize_ends_run :
      (worker_id job_id : ℕ) (o : HandlerOutcome) (w w' : World) (job : Job)
      → lock_running_job_for_worker job_id worker_id w.queue ≡ some job
      → finalize u utc_now worker_id job_id o w ≡ ok w'
      → (k : Job) × (find_job job_id w'.queue ≡ some k)
        × (is_running k.status ≡ false)
        × Says (source_of job.source_id w) k w w'
  finalize_ends_run worker_id job_id o w w' job locked e =
      (finalize-Ended worker_id job_id o w job locked).holds w' e
