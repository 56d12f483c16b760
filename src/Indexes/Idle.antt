-- ===== src/Indexes/Idle.antt =====
-- Which rows stay inactive when a row is written back and when the others give way.
use praktika.Prelude.{
  ℕ, ◌≡◌, ◌≢◌, ◌⊎◌, inl, inr, false, ◌&&◌, not, some, List, [], ◌∷◌, map, ◌==◌, arith, Bool-cases,
  All,
}
use mathlib.Core.Path.{subst}
use praktika.Table.{find, put, AreDistinct}
use praktika.Table.Rows.{All-put, All-find}
use praktika.Indexes.{active, Version, VersionStatus, version_key, is_active, retire_row}

abbrev pub IsIdle : Version → Type 0
IsIdle v = v.status ≢ VersionStatus.active

-- No two rows are active.
abbrev pub OneActive : List Version → Type 0
OneActive [] = Unit {0}
OneActive (v ∷ vs) = ((v.status ≢ VersionStatus.active) ⊎ All IsIdle vs) × OneActive vs

pub record IsSound (versions : List Version) : Type 0 where
  pub distinct : AreDistinct version_key versions
  pub single : OneActive versions

-- A row may be written back as long as it does not become active.
pub OneActive-put :
    (v x : Version) (vs : List Version)
    → find version_key (version_key v) vs ≡ some x
    → (IsIdle x → IsIdle v)
    → OneActive vs
    → OneActive (put version_key v vs)
unfolding find put
OneActive-put v x [] e keep h = tt
OneActive-put v x (y ∷ ys) e keep h = elim (Bool-cases (version_key y == version_key v)) [
  | inl same ↦ rw same (hit (head_row (ground arith)) h.0, h.1)
  | inr other ↦ rw other (kept (ground arith) h.0, OneActive-put v x ys (ground arith) keep h.1)
]
  where
    head_row : some y ≡ some x → y ≡ x
    head_row q = cc

    hit :
        y ≡ x
        → (y.status ≢ VersionStatus.active) ⊎ All IsIdle ys
        → (v.status ≢ VersionStatus.active) ⊎ All IsIdle ys
    hit q (inl off) = inl (keep (subst IsIdle q off))
    hit q (inr rest) = inr rest

    kept :
        find version_key (version_key v) ys ≡ some x
        → (y.status ≢ VersionStatus.active) ⊎ All IsIdle ys
        → (y.status ≢ VersionStatus.active) ⊎ All IsIdle (put version_key v ys)
    kept q (inl off) = inl off
    kept q (inr rest) = inr (
        All-put version_key IsIdle v ys
          (keep (All-find version_key IsIdle (version_key v) ys x rest q)) rest)

-- After the others gave way only the version with the id may be active.
abbrev pub IdleBut : ℕ → Version → Type 0
IdleBut k v = (v.status ≢ VersionStatus.active) ⊎ (v.id ≡ k)

not_active : (s : VersionStatus) → is_active s ≡ false → s ≢ active
unfolding is_active
not_active s h on = cc (h, on)

pub retire_row-IdleBut : (k now : ℕ) (v : Version) → IdleBut k (retire_row k now v)
unfolding retire_row is_active
retire_row-IdleBut k now v = elim (Bool-cases (is_active v.status && not (v.id == k))) [
  | inl gone ↦ rw gone (inl (λ e. cc))
  | inr kept ↦ rw kept (elim (Bool-cases (v.id == k)) [
    | inl same ↦ inr (ground arith)
    | inr other ↦ inl (not_active v.status (ground arith))
  ])
]

pub retired-IdleBut : (k now : ℕ) (vs : List Version) → All (IdleBut k) (map (retire_row k now) vs)
retired-IdleBut k now [] = tt
retired-IdleBut k now (v ∷ vs) = (retire_row-IdleBut k now v, retired-IdleBut k now vs)

pub OneActive-of_IdleBut :
    (k : ℕ) (vs : List Version) → AreDistinct version_key vs → All (IdleBut k) vs → OneActive vs
OneActive-of_IdleBut k [] d h = tt
OneActive-of_IdleBut k (v ∷ vs) d h = (first h.0, OneActive-of_IdleBut k vs d.1 h.1)
  where
    others :
        (ws : List Version)
        → v.id ≡ k
        → All (λ w. version_key w ≢ version_key v) ws
        → All (IdleBut k) ws
        → All IsIdle ws
    others [] e n i = tt
    others (w ∷ ws) e n i =
        (elim i.0 [ inl off ↦ off | inr same ↦ λ on. n.0 (ground arith) ], others ws e n.1 i.1)

    first :
        (v.status ≢ VersionStatus.active) ⊎ (v.id ≡ k)
        → (v.status ≢ VersionStatus.active) ⊎ All IsIdle vs
    first (inl off) = inl off
    first (inr e) = inr (others vs e d.0 h.1)
