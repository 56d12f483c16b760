-- ===== src/Indexes/Scanned.antt =====
-- What the scan of a cleanup protects.
use praktika.Prelude.{ℕ, ◌+◌, ◌≡◌, refl, ◌⊎◌, inl, inr, true, List, [], ◌∷◌, arith, Bool-cases, leb}
use mathlib.Core.Path.{subst}
use praktika.Text.{Text}
use praktika.Text.Laws.{text_eq_refl}
use praktika.Table.Members.{In}
use praktika.Indexes.{Version, is_active, is_retired, mem}
use praktika.Indexes.Cleanup.{
  CleanupSettings, Scan, scan_candidate, protect, scan_rest, scan_version, scan, is_recent_failure,
}

-- Nothing is dropped from the protected names.
abbrev pub IsKept : Text → Scan → Type 0
IsKept name s = mem name s.protected ≡ true

pub mem_first : (name : Text) (names : List Text) → mem name (name ∷ names) ≡ true
unfolding mem
mem_first name names = rw (text_eq_refl name) refl

mem_rest :
    (name other : Text) (names : List Text)
    → mem name names ≡ true
    → mem name (other ∷ names) ≡ true
unfolding mem
mem_rest name other names h = ground (arith, h)

protect-IsKept : (name : Text) (v : Version) (s : Scan) → IsKept name s → IsKept name (protect v s)
unfolding protect
protect-IsKept name v s h = mem_rest name v.collection_name s.protected h

protect_self : (v : Version) (s : Scan) → IsKept v.collection_name (protect v s)
unfolding protect
protect_self v s = mem_first v.collection_name s.protected

module _ (settings : CleanupSettings) (now : ℕ) (collections : List Text) where
  scan_rest-IsKept :
      (name : Text) (v : Version) (s : Scan)
      → IsKept name s
      → IsKept name (scan_rest settings now collections v s)
  unfolding scan_rest scan_candidate
  scan_rest-IsKept name v s h = elim (Bool-cases (is_recent_failure settings now v)) [
    | inl recent ↦ rw recent (protect-IsKept name v s h)
    | inr old ↦ rw old (elim (Bool-cases (mem v.collection_name collections)) [
      | inl there ↦ rw there h
      | inr gone ↦ rw gone h
    ])
  ]

  scan_version-IsKept :
      (name : Text) (v : Version) (s : Scan)
      → IsKept name s
      → IsKept name (scan_version settings now collections v s)
  unfolding scan_version
  scan_version-IsKept name v s h = elim (Bool-cases (is_active v.status)) [
    | inl on ↦ rw on (protect-IsKept name v s h)
    | inr off ↦ rw off (elim (Bool-cases (is_retired v.status)) [
      | inr never ↦ rw never (scan_rest-IsKept name v s h)
      | inl was ↦
          let seen : Scan = record s { retired_seen = s.retired_seen + 1 } in
          rw was (elim (Bool-cases (leb (s.retired_seen + 1) settings.index_retain_retired_count)) [
            | inl retained ↦ rw retained (protect-IsKept name v seen h)
            | inr surplus ↦ rw surplus (scan_rest-IsKept name v seen h)
          ])
    ])
  ]

  pub scan-IsKept :
      (name : Text) (vs : List Version) (s : Scan)
      → IsKept name s
      → IsKept name (scan settings now collections vs s)
  unfolding scan
  scan-IsKept name [] s h = h
  scan-IsKept name (v ∷ vs) s h =
      scan-IsKept name vs (scan_version settings now collections v s)
        (scan_version-IsKept name v s h)

  scan_rest_recent :
      (v : Version) (s : Scan)
      → is_recent_failure settings now v ≡ true
      → IsKept v.collection_name (scan_rest settings now collections v s)
  unfolding scan_rest
  scan_rest_recent v s recent = rw recent (protect_self v s)

  scan_version_needed :
      (v : Version) (s : Scan)
      → (is_active v.status ≡ true) ⊎ (is_recent_failure settings now v ≡ true)
      → IsKept v.collection_name (scan_version settings now collections v s)
  unfolding scan_version
  scan_version_needed v s (inl on) = rw on (protect_self v s)
  scan_version_needed v s (inr recent) = elim (Bool-cases (is_active v.status)) [
    | inl on ↦ rw on (protect_self v s)
    | inr off ↦ rw off (elim (Bool-cases (is_retired v.status)) [
      | inr never ↦ rw never (scan_rest_recent v s recent)
      | inl was ↦
          let seen : Scan = record s { retired_seen = s.retired_seen + 1 } in
          rw was (elim (Bool-cases (leb (s.retired_seen + 1) settings.index_retain_retired_count)) [
            | inl retained ↦ rw retained (protect_self v seen)
            | inr surplus ↦ rw surplus (scan_rest_recent v seen recent)
          ])
    ])
  ]

  pub scan_needed :
      (vs : List Version) (s : Scan) (v : Version)
      → In v vs
      → (is_active v.status ≡ true) ⊎ (is_recent_failure settings now v ≡ true)
      → IsKept v.collection_name (scan settings now collections vs s)
  unfolding scan
  scan_needed [] s v i n = absurd i
  scan_needed (x ∷ xs) s v (inl e) n =
      scan-IsKept v.collection_name xs (scan_version settings now collections x s) (
        subst (λ y. IsKept v.collection_name (scan_version settings now collections y s)) e
          (scan_version_needed v s n))
  scan_needed (x ∷ xs) s v (inr i) n =
      scan_needed xs (scan_version settings now collections x s) v i n
