-- ===== src/Indexes/OneActive.antt =====
-- At most one version of the index is active, after any history of builds.
use praktika.Prelude.{
  ℕ, ◌≡◌, refl, sym, ◌≢◌, inl, inr, Bool, true, false, ◌&&◌, not, ◌||◌, some, List, [], ◌∷◌, map,
  ◌==◌, any, arith, Bool-cases, Option-cases, All, leb,
}
use mathlib.Core.Path.{subst}
use praktika.Text.{Text, text_eq}
use praktika.Table.{find, put, AreDistinct}
use praktika.Table.Rows.{All-put, key-find}
use praktika.Accounts.Tables.{AreDistinct-put}
use praktika.Indexes.{
  Version, version_key, is_active, add_version, new_version, mark_ready, ready_row, mark_failure,
  failed_row, activate_version, retire_row, active_row,
}
use praktika.Indexes.Steps.{BuildStep, committed, step, run_steps}
use praktika.Indexes.Idle.{
  IsIdle, IsSound, OneActive-put, IdleBut, retired-IdleBut, OneActive-of_IdleBut,
}

not_among :
    (v : Version) (vs : List Version)
    → any (λ other. other.id == v.id || text_eq other.collection_name v.collection_name) vs ≡ false
    → All (λ w. version_key w ≢ version_key v) vs
not_among v [] h = tt
not_among v (w ∷ ws) h = (ground arith, not_among v ws (ground arith))

written-IsSound :
    (v x : Version) (versions : List Version)
    → find version_key (version_key v) versions ≡ some x
    → (IsIdle x → IsIdle v)
    → IsSound versions
    → IsSound (put version_key v versions)
written-IsSound v x versions e keep h = record {
  distinct = AreDistinct-put version_key v versions h.distinct;
  single = OneActive-put v x versions e keep h.single;
}

-- The row of a search comes with its key.
found_row :
    (k : ℕ) (versions : List Version) (x : Version)
    → find version_key k versions ≡ some x
    → find version_key (version_key x) versions ≡ some x
found_row k versions x e =
    subst (λ j. find version_key j versions ≡ some x) (sym (key-find version_key k versions x e)) e

prepare-IsSound :
    (v : Version) (versions : List Version)
    → IsIdle v
    → IsSound versions
    → IsSound (committed versions (add_version v versions))
unfolding add_version
prepare-IsSound v versions idle h =
    elim (Bool-cases (
      any (λ other. other.id == v.id || text_eq other.collection_name v.collection_name)
        versions)) [
          | inl taken ↦ rw taken h
          | inr free ↦ rw free (record {
            distinct = (not_among v versions free, h.distinct);
            single = (inl idle, h.single);
          })
        ]

built-IsSound :
    (version_id point_count now : ℕ) (versions : List Version)
    → IsSound versions
    → IsSound (committed versions (mark_ready version_id point_count now versions))
unfolding mark_ready ready_row
built-IsSound version_id point_count now versions h =
    elim (Option-cases (find version_key version_id versions)) [
      | inl lost ↦ rw (lost, mark_ready) h
      | inr found ↦
          rw (found.1, mark_ready)
            (written-IsSound (ready_row point_count now found.0) found.0 versions
              (found_row version_id versions found.0 found.1) (λ idle on. cc) h)
    ]

failed_row-IsIdle :
    (b : Bool) (code message : Text) (now : ℕ) (v : Version)
    → IsIdle v
    → IsIdle (failed_row b code message now v)
unfolding failed_row
failed_row-IsIdle true code message now v idle = λ on. cc
failed_row-IsIdle false code message now v idle = idle

failed_row_id :
    (b : Bool) (code message : Text) (now : ℕ) (v : Version)
    → version_key (failed_row b code message now v) ≡ version_key v
unfolding failed_row
failed_row_id true code message now v = refl
failed_row_id false code message now v = refl

broken-IsSound :
    (version_id : ℕ) (retryable : Bool) (attempt max_attempts : ℕ) (code message : Text) (now : ℕ)
    (versions : List Version)
    → IsSound versions
    → IsSound (mark_failure version_id retryable attempt max_attempts code message now versions)
unfolding mark_failure
broken-IsSound version_id retryable attempt max_attempts code message now versions h =
    elim (Option-cases (find version_key version_id versions)) [
      | inl lost ↦ rw (lost, mark_failure) h
      | inr found ↦
          rw (found.1, mark_failure)
            (let last = not retryable || leb max_attempts attempt in
              written-IsSound (failed_row last code message now found.0) found.0 versions
                (subst (λ j. find version_key j versions ≡ some found.0)
                  (sym (failed_row_id last code message now found.0))
                  (found_row version_id versions found.0 found.1))
                (failed_row-IsIdle last code message now found.0) h)
    ]

pub retire_row_id : (k now : ℕ) (v : Version) → version_key (retire_row k now v) ≡ version_key v
unfolding retire_row
retire_row_id k now v = elim (Bool-cases (is_active v.status && not (v.id == k))) [
  | inl gone ↦ rw gone refl
  | inr kept ↦ rw kept refl
]

retired-AreDistinct :
    (k now : ℕ) (vs : List Version)
    → AreDistinct version_key vs
    → AreDistinct version_key (map (retire_row k now) vs)
retired-AreDistinct k now [] d = tt
retired-AreDistinct k now (v ∷ vs) d = (apart vs d.0, retired-AreDistinct k now vs d.1)
  where
    apart :
        (ws : List Version)
        → All (λ w. version_key w ≢ version_key v) ws
        → All (λ w. version_key w ≢ version_key (retire_row k now v)) (map (retire_row k now) ws)
    apart [] n = tt
    apart (w ∷ ws) n =
        (λ e. n.0 (cc (e, retire_row_id k now w, retire_row_id k now v)), apart ws n.1)

activated-IsSound :
    (version_id now : ℕ) (versions : List Version)
    → IsSound versions
    → IsSound (committed versions (activate_version version_id now versions))
unfolding activate_version active_row
activated-IsSound version_id now versions h =
    elim (Option-cases (find version_key version_id versions)) [
      | inl lost ↦ rw (lost, activate_version) h
      | inr found ↦
          rw (found.1, activate_version)
            (let row = active_row now found.0 in
              let distinct =
                AreDistinct-put version_key row (map (retire_row version_id now) versions)
                  (retired-AreDistinct version_id now versions h.distinct) in
              record {
                distinct = distinct;
                single =
                    OneActive-of_IdleBut version_id
                      (put version_key row (map (retire_row version_id now) versions)) distinct
                      (All-put version_key (IdleBut version_id) row
                        (map (retire_row version_id now) versions)
                        (inr (key-find version_key version_id versions found.0 found.1))
                        (retired-IdleBut version_id now versions));
              })
    ]

step-IsSound :
    (s : BuildStep) (versions : List Version) → IsSound versions → IsSound (step s versions)
unfolding step new_version
step-IsSound (BuildStep.prepare id collection_name alias_name now) versions h =
    prepare-IsSound (new_version id collection_name alias_name now) versions (λ on. cc) h
step-IsSound (BuildStep.built version_id point_count now) versions h =
    built-IsSound version_id point_count now versions h
step-IsSound (BuildStep.broken version_id retryable attempt max_attempts code message now) versions
      h =
    broken-IsSound version_id retryable attempt max_attempts code message now versions h
step-IsSound (BuildStep.activated version_id now) versions h =
    activated-IsSound version_id now versions h

-- Whatever builds are prepared, finished, broken off and activated, in any order and with any ids,
-- a table whose rows have different ids and at most one active row keeps both.
pub run_steps-IsSound :
    (steps : List BuildStep) (versions : List Version)
    → IsSound versions
    → IsSound (run_steps steps versions)
unfolding run_steps
run_steps-IsSound [] versions h = h
run_steps-IsSound (s ∷ rest) versions h =
    run_steps-IsSound rest (step s versions) (step-IsSound s versions h)
