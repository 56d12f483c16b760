-- ===== src/Indexes/Activation.antt =====
-- The activation of a built version: what its ends leave behind the alias and in the rows.
use praktika.Prelude.{
  by_call, ℕ, ◌≡◌, refl, ◌⊎◌, inl, inr, Option, none, some, map, Option-cases, All, Error,
}
use praktika.Text.{Text}
use praktika.Table.{find, put}
use praktika.Table.Rows.{key-find, find-put_self}
use praktika.Indexes.{
  active, Version, version_key, activate_version, retire_row, active_row, World, VectorStore,
  TransactionEnd, restore_alias, take_back, run_transaction, activate,
}
use praktika.Indexes.Activated.{find-retired}

module _ {S : Type 0} (q : VectorStore S) where
  -- Every active version has its collection behind the alias.
  abbrev pub Serves : Text → World S → Type 0
  Serves alias_name w =
      All (λ v. v.status ≡ active → q.alias_target alias_name w.vectors ≡ some v.collection_name)
        w.versions

  -- The alias leads where it was switched, and nowhere once it is removed. A call changes it at once:
  -- when the call raises, the alias leads where it led before or where the call sends it.
  pub record AliasLaws : Type 0 where
    pub switches :
        (alias_name collection : Text) (s : S)
        → (q.switch_alias alias_name collection s).1 ≡ none
        → q.alias_target alias_name (q.switch_alias alias_name collection s).0 ≡ some collection
    pub removes :
        (alias_name : Text) (s : S)
        → (q.remove_alias alias_name s).1 ≡ none
        → q.alias_target alias_name (q.remove_alias alias_name s).0 ≡ none
    pub switch_is_atomic :
        (alias_name collection : Text) (s : S)
        → (q.alias_target alias_name (q.switch_alias alias_name collection s).0
            ≡ q.alias_target alias_name s)
          ⊎ (q.alias_target alias_name (q.switch_alias alias_name collection s).0 ≡ some collection)
    pub removal_is_atomic :
        (alias_name : Text) (s : S)
        → (q.alias_target alias_name (q.remove_alias alias_name s).0 ≡ q.alias_target alias_name s)
          ⊎ (q.alias_target alias_name (q.remove_alias alias_name s).0 ≡ none)

  -- The switch of the alias, and the call that takes it back.
  abbrev pub switched : Version → World S → S × Option Error
  switched version w = q.switch_alias version.alias_name version.collection_name w.vectors

  abbrev pub taken_back : Version → World S → S × Option Error
  taken_back version w =
      restore_alias q version.alias_name (q.alias_target version.alias_name w.vectors)
        (switched version w).0

  -- Why the alias can lead to a version that is not active.
  abbrev pub Excuse : TransactionEnd → Version → World S → Error → Type 0
  Excuse transaction version w e =
      ((transaction ≡ TransactionEnd.escapes) × (e ≡ Error.other_exception))
      ⊎ (((switched version w).1 ≡ some e) ⊎ ((taken_back version w).1 ≡ some e))

  -- The activation raised, no row changed, and the alias leads to the collection of the version.
  abbrev pub IsStranded : TransactionEnd → Version → World S → World S × Option Error → Type 0
  IsStranded transaction version w outcome =
      (e : Error) × (outcome.1 ≡ some e)
      × (outcome.0.versions ≡ w.versions)
      × (q.alias_target version.alias_name outcome.0.vectors ≡ some version.collection_name)
      × Excuse transaction version w e

  -- How an activation can end.
  abbrev Ends : TransactionEnd → Version → World S → World S × Option Error → Type 0
  Ends transaction version w outcome =
      Serves version.alias_name outcome.0 ⊎ IsStranded transaction version w outcome

  -- What an activation tells its caller: without an exception the version is active and its
  -- collection is behind the alias; with one the rows are as they were.
  abbrev pub Tells : Version → World S → World S × Option Error → Type 0
  Tells version w (w', none) =
      (q.alias_target version.alias_name w'.vectors ≡ some version.collection_name)
      × ((r : Version) × (find version_key version.id w'.versions ≡ some r) × (r.status ≡ active))
  Tells version w (w', some e) = w'.versions ≡ w.versions

  take_back-Tells :
      (version : Version) (previous : Option Text) (raised : Error) (w : World S) (after : S)
      → Tells version w (take_back q version.alias_name previous raised w after)
  unfolding take_back
  take_back-Tells version previous raised w after =
      by_call (Tells version w) call.1 (λ e. (record w { vectors = call.0 }, some e))
        (record w { vectors = call.0 }, some raised) (λ e stuck. refl) (λ back. refl)
    where
      call : S × Option Error
      call = restore_alias q version.alias_name previous after

  run_transaction-Tells :
      (transaction : TransactionEnd) (now : ℕ) (version : Version) (w : World S) (after : S)
      → q.alias_target version.alias_name after ≡ some version.collection_name
      → Tells version w (run_transaction q transaction now version w after)
  unfolding run_transaction activate_version active_row
  run_transaction-Tells TransactionEnd.fails now version w after led =
      take_back-Tells version (q.alias_target version.alias_name w.vectors) Error.database_error w
        after
  run_transaction-Tells TransactionEnd.escapes now version w after led = refl
  run_transaction-Tells TransactionEnd.runs now version w after led =
      elim (Option-cases (find version_key version.id w.versions)) [
        | inl lost ↦
            rw (lost, activate_version, run_transaction)
              (take_back-Tells version (q.alias_target version.alias_name w.vectors)
                Error.index_version_lost w after)
        | inr (locked, found) ↦
            rw (found, activate_version, run_transaction)
              (led, (active_row now locked, put_found locked found, refl))
      ]
    where
      put_found :
          (locked : Version)
          → find version_key version.id w.versions ≡ some locked
          → find version_key version.id
              (put version_key (active_row now locked) (map (retire_row version.id now) w.versions))
            ≡ some (active_row now locked)
      put_found locked e =
          find-put_self version_key version.id (active_row now locked)
            (map (retire_row version.id now) w.versions) (retire_row version.id now locked)
            (key-find version_key version.id w.versions locked e)
            (find-retired version.id version.id now w.versions locked e)

  -- If a switch of the alias that returns has taken effect, and a transaction that ends with an
  -- exception has changed no row, then however the transaction goes and whatever the calls of the
  -- vector store raise, an activation tells the truth: when it raises nothing, the alias leads to the
  -- collection of the version, and the row of the version is there and active; when it raises, the
  -- rows are as they were before.
  pub activate-Tells :
      AliasLaws
      → (transaction : TransactionEnd) (now : ℕ) (version : Version) (w : World S)
      → Tells version w (activate q transaction now version w)
  unfolding activate
  activate-Tells laws transaction now version w =
      by_call (Tells version w) (switched version w).1
        (λ e. (record w { vectors = (switched version w).0 }, some e))
        (run_transaction q transaction now version w (switched version w).0) (λ e refused. refl)
        (λ moved.
          run_transaction-Tells transaction now version w (switched version w).0
            (laws.switches version.alias_name version.collection_name w.vectors moved))
