-- ===== src/Indexes/Steps.antt =====
-- The transactions of builds and activations, as steps, and their histories.
use praktika.Prelude.{ℕ, Bool, List, [], ◌∷◌, Result, ok, err}
use praktika.Text.{Text}
use praktika.Indexes.{Version, add_version, new_version, mark_ready, mark_failure, activate_version}

-- The steps of builds and activations, one transaction each.
pub data BuildStep : Type 0 where
  prepare : ℕ → Text → Text → ℕ → BuildStep
  built : ℕ → ℕ → ℕ → BuildStep
  broken : ℕ → Bool → ℕ → ℕ → Text → Text → ℕ → BuildStep
  activated : ℕ → ℕ → BuildStep

abbrev pub committed : List Version → Result (List Version) → List Version
committed versions (ok after) = after
committed versions (err e) = versions

unfoldable pub step : BuildStep → List Version → List Version
step (BuildStep.prepare id collection_name alias_name now) versions =
    committed versions (add_version (new_version id collection_name alias_name now) versions)
step (BuildStep.built version_id point_count now) versions =
    committed versions (mark_ready version_id point_count now versions)
step (BuildStep.broken version_id retryable attempt max_attempts code message now) versions =
    mark_failure version_id retryable attempt max_attempts code message now versions
step (BuildStep.activated version_id now) versions =
    committed versions (activate_version version_id now versions)

unfoldable pub run_steps : List BuildStep → List Version → List Version
unfolding step
run_steps [] versions = versions
run_steps (s ∷ rest) versions = run_steps rest (step s versions)
