-- ===== src/Indexes/Protects.antt =====
-- What the cleanup of collections leaves in the vector store, and what it removes.
use praktika.Prelude.{
  by_call, ℕ, ◌≢◌, ◌≡◌, refl, sym, ◌∙◌, ◌⊎◌, inl, inr, Bool, true, false, ◌&&◌, ◌||◌, not, none,
  some, List, [], ◌∷◌, ◌++◌, arith, if◌then◌else◌, Bool-cases, Result, ok, err, Error,
}
use mathlib.Core.Path.{subst}
use praktika.Text.{Text, text_eq}
use praktika.Text.Laws.{text_eq→eq}
use praktika.Table.{sort}
use praktika.Table.Members.{In, In-sort}
use praktika.Indexes.{Version, VectorStore, World, is_active, mem}
use praktika.Indexes.Cleanup.{
  CleanupSettings, Scan, Report, newer, first_protected, delete_all, end_of_cleanup, scanned,
  cleanup, is_recent_failure,
}
use praktika.Indexes.Scanned.{IsKept, mem_first, scan-IsKept, scan_needed}

nothing : (a p : Bool) → a ≡ a && (p || true)
nothing a p = ground arith

-- A protected candidate stays.
skipped : (a p t m : Bool) → (t ≡ true → p ≡ true) → a && (p || not m) ≡ a && (p || not (t || m))
skipped a p false m h = refl
skipped a p true m h = rw (h refl) refl

-- Another one goes.
removed :
    (a p t m : Bool)
    → (t ≡ true → p ≡ false)
    → (a && not t) && (p || not m) ≡ a && (p || not (t || m))
removed a p false m h = ground arith
removed a p true m h = rw (h refl) (ground arith)

module _ {S : Type 0} (q : VectorStore S) where
  -- A call that deletes a collection and does not raise removes this collection and no other.
  pub record DeletionLaw : Type 0 where
    pub deletes :
        (name other : Text) (s : S)
        → (q.delete_collection name s).1 ≡ none
        → mem other (q.list_collections (q.delete_collection name s).0)
          ≡ mem other (q.list_collections s) && not (text_eq other name)

  -- A call that deletes a collection leaves the others, whether or not it raises.
  pub record SparingLaw : Type 0 where
    pub spares :
        (name other : Text) (s : S)
        → text_eq other name ≡ false
        → mem other (q.list_collections s) ≡ true
        → mem other (q.list_collections (q.delete_collection name s).0) ≡ true

  delete_all-keeps :
      SparingLaw
      → (name : Text) (protected names deleted : List Text) (s : S) → mem name protected ≡ true
      → mem name (q.list_collections s) ≡ true
      → mem name (q.list_collections (delete_all q protected names deleted s).0) ≡ true
  unfolding delete_all
  delete_all-keeps law name protected [] deleted s p h = h
  delete_all-keeps law name protected (other ∷ names) deleted s p h =
      elim (Bool-cases (mem other protected)) [
        | inl skip ↦ rw skip (delete_all-keeps law name protected names deleted s p h)
        | inr loose ↦
            let there = law.spares other name s (different other loose) h in
            let after = (q.delete_collection other s).0 in
            rw loose (
              by_call (λ outcome. mem name (q.list_collections outcome.0) ≡ true)
                (q.delete_collection other s).1 (λ e. (after, err e))
                (delete_all q protected names (deleted ++ (other ∷ [])) after) (λ e refused. there)
                (λ gone.
                  delete_all-keeps law name protected names (deleted ++ (other ∷ [])) after p
                    there))
      ]
    where
      true_false : true ≢ false
      true_false e = cc

      different : (c : Text) → mem c protected ≡ false → text_eq name c ≡ false
      different c loose = elim (Bool-cases (text_eq name c)) [
        | inl same ↦ absurd (true_false (sym p ∙ rw (text_eq→eq name c same) loose))
        | inr ne ↦ ne
      ]

  -- Exactly the candidates that are not protected are gone.
  abbrev pub IsSwept : List Text → List Text → S → S → Type 0
  IsSwept protected candidates s after =
      (name : Text)
      → mem name (q.list_collections after)
        ≡ mem name (q.list_collections s) && (mem name protected || not (mem name candidates))

  abbrev Sweeps : List Text → List Text → S → S × Result (List Text) → Type 0
  Sweeps protected names s outcome =
      (report : List Text) → outcome.1 ≡ ok report → IsSwept protected names s outcome.0

  delete_all-Sweeps :
      DeletionLaw
      → (protected names deleted : List Text) (s : S)
      → Sweeps protected names s (delete_all q protected names deleted s)
  unfolding delete_all mem
  delete_all-Sweeps law protected [] deleted s =
      λ report e name. nothing (mem name (q.list_collections s)) (mem name protected)
  delete_all-Sweeps law protected (other ∷ names) deleted s =
      elim (Bool-cases (mem other protected)) [
        | inl skip ↦ rw skip (λ report e name.
            delete_all-Sweeps law protected names deleted s report e name
            ∙ skipped (mem name (q.list_collections s)) (mem name protected) (text_eq name other)
                (mem name names) (the_same name true skip))
        | inr loose ↦
            let after = (q.delete_collection other s).0 in
            rw loose (
              by_call (Sweeps protected (other ∷ names) s) (q.delete_collection other s).1
                (λ e. (after, err e)) (delete_all q protected names (deleted ++ (other ∷ [])) after)
                (λ e refused report h. absurd (failed h))
                (λ gone report e name.
                  delete_all-Sweeps law protected names (deleted ++ (other ∷ [])) after report e
                    name
                  ∙ rw (law.deletes other name s gone) (
                      removed (mem name (q.list_collections s)) (mem name protected)
                        (text_eq name other) (mem name names) (the_same name false loose))))
      ]
    where
      the_same :
          (name : Text) (b : Bool)
          → mem other protected ≡ b
          → text_eq name other ≡ true
          → mem name protected ≡ b
      the_same name b h t = rw (text_eq→eq name other t) h

      failed : {e : Error} {report : List Text} → err e ≡ ok report → ⊥
      failed h = cc

  -- A name that the cleanup leaves alone: the target of the alias, and the collection of a version
  -- that is active or failed a short time ago.
  abbrev pub IsNeeded : CleanupSettings → ℕ → World S → Text → Type 0
  IsNeeded settings now w name =
      ((q.alias_target settings.qdrant_alias w.vectors ≡ some name) × (name ≢ []))
      ⊎ ((v : Version) × In v w.versions
          × ((is_active v.status ≡ true) ⊎ (is_recent_failure settings now v ≡ true))
          × (v.collection_name ≡ name))

  first_protected-mem : (name : Text) → name ≢ [] → mem name (first_protected (some name)) ≡ true
  unfolding first_protected
  first_protected-mem [] ne = absurd (ne refl)
  first_protected-mem (c ∷ cs) ne = mem_first (c ∷ cs) []

  needed-IsKept :
      (settings : CleanupSettings) (now : ℕ) (w : World S) (name : Text)
      → IsNeeded settings now w name
      → IsKept name (scanned q settings now w)
  unfolding scanned
  needed-IsKept settings now w name (inl target) =
      scan-IsKept settings now (q.list_collections w.vectors) name (sort newer w.versions)
        (record {
          protected = first_protected (q.alias_target settings.qdrant_alias w.vectors);
          retired_seen = 0;
          candidates = [];
        })
        (subst (λ o. mem name (first_protected o) ≡ true) (sym target.0)
          (first_protected-mem name target.1))
  needed-IsKept settings now w name (inr (v, i, n, e)) =
      subst (λ c. IsKept c (scanned q settings now w)) e
        (scan_needed settings now (q.list_collections w.vectors) (sort newer w.versions)
          (record {
            protected = first_protected (q.alias_target settings.qdrant_alias w.vectors);
            retired_seen = 0;
            candidates = [];
          })
          v (In-sort newer w.versions v i) n)

  end_of_cleanup_store :
      (commits : Bool) (candidates : List Text) (audit : List Report)
      (outcome : S × Result (List Text))
      → (end_of_cleanup q commits candidates audit outcome).0 ≡ outcome.0
  unfolding end_of_cleanup
  end_of_cleanup_store commits candidates audit (s, err e) = refl
  end_of_cleanup_store commits candidates audit (s, ok deleted) = refl

  end_of_cleanup_ok :
      (commits : Bool) (candidates : List Text) (audit : List Report)
      (outcome : S × Result (List Text)) (report : Report)
      → (end_of_cleanup q commits candidates audit outcome).1.0 ≡ ok report
      → (deleted : List Text) × (outcome.1 ≡ ok deleted)
  unfolding end_of_cleanup
  end_of_cleanup_ok commits candidates audit (s, err e) report h = absurd (failed h)
    where
      failed : err e ≡ ok report → ⊥
      failed q' = cc
  end_of_cleanup_ok commits candidates audit (s, ok deleted) report h = (deleted, refl)

  -- If a call that deletes a collection leaves the others, then at each end of a cleanup, whether it
  -- raises before, while or after it deletes, a collection that was in the store is still there, if
  -- the alias leads to it or it belongs to a version that is active or failed within the retention.
  pub cleanup-keeps :
      SparingLaw
      → (settings : CleanupSettings) (commits : Bool) (now : ℕ) (dry_run confirm : Bool)
        (w : World S) (audit : List Report) (name : Text)
      → IsNeeded settings now w name
      → mem name (q.list_collections w.vectors) ≡ true
      → mem name (q.list_collections (cleanup q settings commits now dry_run confirm w audit).0)
        ≡ true
  unfolding cleanup
  cleanup-keeps law settings commits now dry_run confirm w audit name needed there =
      elim (Bool-cases (not dry_run && not confirm)) [
        | inl asks ↦ rw asks there
        | inr agreed ↦ rw agreed (elim (Bool-cases dry_run) [
          | inl dry ↦ rw dry there
          | inr wet ↦
              rw
                (
                  wet,
                  end_of_cleanup_store commits (scanned q settings now w).candidates audit (
                      delete_all q (scanned q settings now w).protected
                        (scanned q settings now w).candidates [] w.vectors),
                )
                (delete_all-keeps law name (scanned q settings now w).protected
                  (scanned q settings now w).candidates [] w.vectors
                  (needed-IsKept settings now w name needed) there)
        ])
      ]

  -- If a call that deletes a collection and returns removes it and no other, then a cleanup that
  -- returns a report was a dry run or confirmed, and after it the store has the collections that it
  -- had, less the candidates that are not protected; after a dry run all of them.
  pub cleanup-sweeps :
      DeletionLaw
      → (settings : CleanupSettings) (commits : Bool) (now : ℕ) (dry_run confirm : Bool)
        (w : World S) (audit : List Report) (report : Report)
      → (cleanup q settings commits now dry_run confirm w audit).1.0 ≡ ok report
      → (dry_run || confirm ≡ true)
        × IsSwept
            (scanned q settings now w).protected
            (if dry_run then [] else (scanned q settings now w).candidates)
            w.vectors
            (cleanup q settings commits now dry_run confirm w audit).0
  unfolding cleanup
  cleanup-sweeps law settings commits now true confirm w audit report e = (
    refl,
    λ name.
        nothing (mem name (q.list_collections w.vectors))
          (mem name (scanned q settings now w).protected),
  )
  cleanup-sweeps law settings commits now false true w audit report e = (
    refl,
    rw (end_of_cleanup_store commits plan.candidates audit outcome)
        (delete_all-Sweeps law plan.protected plan.candidates [] w.vectors done.0 done.1),
  )
    where
      plan : Scan
      plan = scanned q settings now w

      outcome : S × Result (List Text)
      outcome = delete_all q plan.protected plan.candidates [] w.vectors

      done : (deleted : List Text) × (outcome.1 ≡ ok deleted)
      done = end_of_cleanup_ok commits plan.candidates audit outcome report e
  cleanup-sweeps law settings commits now false false w audit report e = absurd (asked e)
    where
      asked : err Error.cleanup_confirmation_required ≡ ok report → ⊥
      asked q' = cc
