-- ===== src/Indexes/Activated.antt =====
-- The rows that the activation of a version leaves.
use praktika.Prelude.{
  ℕ, ◌≡◌, refl, sym, inl, inr, Bool, true, false, ◌&&◌, not, some, List, [], ◌∷◌, map, ◌==◌, arith,
  Bool-cases, All,
}
use mathlib.Core.Path.{subst}
use praktika.Text.{Text}
use praktika.Table.{find, put}
use praktika.Table.Rows.{All-put, All-find, key-find}
use praktika.Indexes.{active, Version, version_key, is_active, retire_row, active_row}
use praktika.Indexes.Idle.{IdleBut, retire_row-IdleBut}
use praktika.Indexes.OneActive.{retire_row_id}

retire_row_collection :
    (k now : ℕ) (v : Version) → (retire_row k now v).collection_name ≡ v.collection_name
unfolding retire_row
retire_row_collection k now v = elim (Bool-cases (is_active v.status && not (v.id == k))) [
  | inl gone ↦ rw gone refl
  | inr kept ↦ rw kept refl
]

pub find-retired :
    (k version_id now : ℕ) (vs : List Version) (x : Version)
    → find version_key k vs ≡ some x
    → find version_key k (map (retire_row version_id now) vs) ≡ some (retire_row version_id now x)
unfolding find
find-retired k version_id now [] x e = cc
find-retired k version_id now (v ∷ vs) x e = elim (Bool-cases (version_key v == k)) [
  | inl same ↦ rw (sees true same) (
      subst (λ r. some (retire_row version_id now v) ≡ some (retire_row version_id now r))
        (here (ground arith)) refl)
  | inr other ↦ rw (sees false other) (find-retired k version_id now vs x (ground arith))
]
  where
    sees : (b : Bool) → version_key v == k ≡ b → version_key (retire_row version_id now v) == k ≡ b
    sees b h = subst (λ i. i == k ≡ b) (sym (retire_row_id version_id now v)) h

    here : some v ≡ some x → v ≡ x
    here h = cc

-- The rows with the id of the version have its collection.
abbrev pub HasCollection : Version → Version → Type 0
HasCollection version v = v.id ≡ version.id → v.collection_name ≡ version.collection_name

-- A row that is active has the collection.
abbrev pub ActiveOn : Text → Version → Type 0
ActiveOn collection v = v.status ≡ active → collection ≡ v.collection_name

pub activated-ActiveOn :
    (version locked : Version) (now : ℕ) (versions : List Version)
    → All (HasCollection version) versions
    → find version_key version.id versions ≡ some locked
    → All
        (ActiveOn version.collection_name)
        (put version_key (active_row now locked) (map (retire_row version.id now) versions))
unfolding active_row
activated-ActiveOn version locked now versions named e =
    All-put version_key (ActiveOn version.collection_name) (active_row now locked)
      (map (retire_row version.id now) versions)
      (λ on. sym (
        All-find version_key (HasCollection version) version.id versions locked named e
          (key-find version_key version.id versions locked e)))
      (given_way versions named)
  where
    only :
        (v : Version)
        → HasCollection version v
        → IdleBut version.id (retire_row version.id now v)
        → ActiveOn version.collection_name (retire_row version.id now v)
    only v n (inl off) = λ on. absurd (off on)
    only v n (inr same) = λ on.
        sym (
          cc
            (retire_row_collection version.id now v, n (cc (same, retire_row_id version.id now v))))

    given_way :
        (vs : List Version)
        → All (HasCollection version) vs
        → All (ActiveOn version.collection_name) (map (retire_row version.id now) vs)
    given_way [] n = tt
    given_way (v ∷ vs) n = (only v n.0 (retire_row-IdleBut version.id now v), given_way vs n.1)
