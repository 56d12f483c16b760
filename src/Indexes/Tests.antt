-- ===== src/Indexes/Tests.antt =====
-- Versions and cleanups on a small store that keeps a list of collections and one alias.
use praktika.Prelude.{
  ◌≡◌, ℕ, refl, ◌∙◌, inl, inr, Bool, true, false, not, ◌&&◌, ◌||◌, Option, none, some, List, [],
  ◌∷◌, map, filter, arith, Bool-cases, Error,
}
use praktika.Text.{Text, codes, text_eq}
use praktika.Text.Laws.{text_eq→eq}
use praktika.Table.{find, put, sort}
use praktika.Indexes.{
  Version, VersionStatus, VectorStore, World, TransactionEnd, restore_alias, take_back,
  run_transaction, new_version, active_row, activate, mem, activate_version, mark_ready,
  add_version, mark_failure,
}
use praktika.Indexes.Steps.{BuildStep, run_steps}
use praktika.Indexes.Idle.{IsSound}
use praktika.Indexes.OneActive.{run_steps-IsSound}
use praktika.Indexes.Activation.{AliasLaws, Tells, activate-Tells}
use praktika.Indexes.Cleanup.{CleanupSettings, cleanup, scanned}
use praktika.Indexes.Protects.{DeletionLaw, SparingLaw, IsSwept, cleanup-keeps, cleanup-sweeps}

record Shelf : Type 0 where
  collections : List Text
  alias : Option Text

abbrev shelves : VectorStore Shelf
shelves = record {
  list_collections = λ s. s.collections;
  alias_target = λ name s. s.alias;
  switch_alias = λ name collection s. (record s { alias = some collection }, none);
  remove_alias = λ name s. (record s { alias = none }, none);
  delete_collection =
      λ name s. (record s { collections = filter (λ c. not (text_eq c name)) s.collections }, none);
}

shelves-AliasLaws : AliasLaws shelves
shelves-AliasLaws = record {
  switches = λ name collection s e. refl;
  removes = λ name s e. refl;
  switch_is_atomic = λ name collection s. inr refl;
  removal_is_atomic = λ name s. inr refl;
}

-- A store whose calls take effect and then raise, as after a request that timed out.
abbrev slow_shelves : VectorStore Shelf
slow_shelves = record {
  list_collections = λ s. s.collections;
  alias_target = λ name s. s.alias;
  switch_alias =
      λ name collection s. (record s { alias = some collection }, some Error.vector_store_error);
  remove_alias = λ name s. (record s { alias = none }, some Error.vector_store_error);
  delete_collection = λ name s. (
    record s { collections = filter (λ c. not (text_eq c name)) s.collections },
    some Error.vector_store_error,
  );
}

drops_lem : (a m b : Bool) → (a ≡ true → b ≡ true) → m && not b ≡ (a || m) && not b
drops_lem false m b h = refl
drops_lem true m b h = rw (h refl) (ground arith)

stays_lem : (a m b : Bool) → (a ≡ true → b ≡ false) → a || (m && not b) ≡ (a || m) && not b
stays_lem false m b h = refl
stays_lem true m b h = rw (h refl) refl

mem-filter :
    (name other : Text) (names : List Text)
    → mem other (filter (λ c. not (text_eq c name)) names)
      ≡ mem other names && not (text_eq other name)
unfolding mem
mem-filter name other [] = refl
mem-filter name other (c ∷ cs) = elim (Bool-cases (text_eq c name)) [
  | inl drops ↦ rw drops (
      mem-filter name other cs
      ∙ drops_lem (text_eq other c) (mem other cs) (text_eq other name)
          (λ e. rw (text_eq→eq other c e) drops))
  | inr stays ↦ rw stays (
      rw (mem-filter name other cs) (
        stays_lem (text_eq other c) (mem other cs) (text_eq other name)
          (λ e. rw (text_eq→eq other c e) stays)))
]

shelves-DeletionLaw : DeletionLaw shelves
shelves-DeletionLaw = record { deletes = λ name other s e. mem-filter name other s.collections }

slow_shelves-SparingLaw : SparingLaw slow_shelves
slow_shelves-SparingLaw = record {
  spares = λ name other s different there.
      mem-filter name other s.collections ∙ rw (different, there) refl;
}

abbrev serving : Version
serving = active_row 5 (new_version 1 (codes "c1") (codes "current") 1)

abbrev built : Version
built = new_version 2 (codes "c2") (codes "current") 9

abbrev world : World Shelf
world = record {
  versions = built ∷ serving ∷ [];
  vectors = record {
    collections = codes "c1" ∷ codes "c2" ∷ codes "c9" ∷ [];
    alias = some (codes "c1");
  };
}

-- A build fails for good, another one is prepared, finished and activated twice.
abbrev history : List BuildStep
history =
    BuildStep.broken 2 true 3 3 (codes "QDRANT_ERROR") (codes "down") 12
    ∷ BuildStep.prepare 3 (codes "c3") (codes "current") 13
    ∷ BuildStep.prepare 3 (codes "c4") (codes "current") 13
    ∷ BuildStep.built 3 40 20
    ∷ BuildStep.activated 3 21
    ∷ BuildStep.activated 3 22
    ∷ []

world-IsSound : IsSound world.versions
unfolding new_version active_row
world-IsSound = record {
  distinct = ((λ e. omega arith, tt), (tt, tt));
  single = (inl (λ e. cc), (inr tt, tt));
}

run_steps-IsSound_example : IsSound (run_steps history world.versions)
run_steps-IsSound_example = run_steps-IsSound history world.versions world-IsSound

history_run :
    map {B = ℕ × VersionStatus} (λ v. (v.id, v.status)) (run_steps history world.versions)
    ≡ (3, VersionStatus.active) ∷ (2, VersionStatus.failed) ∷ (1, VersionStatus.retired) ∷ []
unfolding run_steps new_version active_row activate_version find mark_ready add_version mark_failure
    put text_eq
history_run = refl

activate-Tells_example :
    Tells shelves built world (activate shelves TransactionEnd.fails 21 built world)
activate-Tells_example =
    activate-Tells shelves shelves-AliasLaws TransactionEnd.fails 21 built world

-- An exception that is not caught leaves the alias on a version that is not active.
escaped_run :
    (activate shelves TransactionEnd.escapes 21 built world).0.vectors.alias ≡ some (codes "c2")
unfolding activate new_version
escaped_run = refl

-- When the transaction fails, the alias is taken back.
failed_run :
    (activate shelves TransactionEnd.fails 21 built world).0.vectors.alias ≡ some (codes "c1")
unfolding activate run_transaction take_back restore_alias new_version
failed_run = refl

abbrev settings : CleanupSettings
settings = record {
  qdrant_alias = codes "current";
  index_retain_retired_count = 1;
  index_failed_collection_retention = 3;
}

cleanup-keeps_example :
    mem (codes "c1") (cleanup slow_shelves settings true 30 false true world []).0.collections
    ≡ true
unfolding new_version active_row mem text_eq
cleanup-keeps_example =
    cleanup-keeps slow_shelves slow_shelves-SparingLaw settings true 30 false true world []
      (codes "c1") (inl (refl, λ e. cc)) refl

cleanup-sweeps_example :
    (false || true ≡ true)
    × IsSwept shelves
        (scanned shelves settings 30 world).protected
        (scanned shelves settings 30 world).candidates
        world.vectors
        (cleanup shelves settings true 30 false true world []).0
unfolding cleanup sort new_version active_row
cleanup-sweeps_example =
    cleanup-sweeps shelves shelves-DeletionLaw settings true 30 false true world []
      (record { dry_run = false; candidates = codes "c2" ∷ []; deleted = codes "c2" ∷ [] }) refl

-- A version that is still being built loses its collection.
cleanup_run :
    (cleanup shelves settings true 30 false true world []).0.collections
    ≡ codes "c1" ∷ codes "c9" ∷ []
unfolding cleanup sort new_version active_row
cleanup_run = refl
