-- ===== src/Sanitize/Clean.antt =====
-- What the metrics of an event never hold.
use praktika.Prelude.{
  ℕ, ◌≤◌, ◌≡◌, refl, false, some, ok, bind_ok, arith, length, length-take, filter, not, Bool-cases,
  inl, inr, ◌∙◌,
}
use praktika.Text.{Text, Unicode, text_eq, codes, join, split, sub, strip}
use praktika.Sanitize.Patterns.{is_control, bearer_matcher, assignment_matcher}
use praktika.Sanitize.Values.{
  DateTime, naive, aware, Object, Objects, Entries, EventValue, Values, Fields, is_sensitive_key,
  sanitize_message, set_field, sanitize_value, sanitize_objects, sanitize_entries, sanitize_metrics,
  require_aware, no_fields, mapping, require_object,
}

abbrev pub IsAware : DateTime → Type 0
IsAware (naive t) = ⊥
IsAware (aware t) = Unit {0}

-- Every instant in the object has a timezone.
unfoldable mutual
  pub HasTimezones : Object → Type 0
  HasTimezones (Object.datetime d) = IsAware d
  HasTimezones (Object.mapping es) = HaveTimezones es
  HasTimezones (Object.sequence os) = AllHaveTimezones os
  HasTimezones _ = Unit {0}

  pub AllHaveTimezones : Objects → Type 0
  AllHaveTimezones Objects.no_objects = Unit {0}
  AllHaveTimezones (Objects.objects o os) = HasTimezones o × AllHaveTimezones os

  pub HaveTimezones : Entries → Type 0
  HaveTimezones Entries.no_entries = Unit {0}
  HaveTimezones (Entries.entry key o es) = HasTimezones o × HaveTimezones es

-- No key at any depth is sensitive, and no text is longer than 2000 characters.
unfoldable mutual
  pub IsClean : Unicode → EventValue → Type 0
  IsClean u (EventValue.text t) = length t ≤ 2000
  IsClean u (EventValue.array vs) = AllAreClean u vs
  IsClean u (EventValue.object fs) = AreClean u fs
  IsClean u _ = Unit {0}

  pub AllAreClean : Unicode → Values → Type 0
  AllAreClean u Values.no_values = Unit {0}
  AllAreClean u (Values.values v vs) = IsClean u v × AllAreClean u vs

  pub AreClean : Unicode → Fields → Type 0
  AreClean u Fields.no_fields = Unit {0}
  AreClean u (Fields.field key v fs) =
      (is_sensitive_key u key ≡ false) × IsClean u v × AreClean u fs

set_field-AreClean :
    (u : Unicode) (key : Text) (v : EventValue) (fs : Fields)
    → is_sensitive_key u key ≡ false
    → IsClean u v
    → AreClean u fs
    → AreClean u (set_field key v fs)
unfolding set_field AreClean
set_field-AreClean u key v Fields.no_fields plain c cs = (plain, c, tt)
set_field-AreClean u key v (Fields.field k w fs) plain c cs = elim (Bool-cases (text_eq k key)) [
  | inl same ↦ rw same (cs.0, c, cs.2)
  | inr other ↦ rw other (cs.0, cs.1, set_field-AreClean u key v fs plain c cs.2)
]

pub length-sanitize_message : (u : Unicode) (n : ℕ) (t : Text) → length (sanitize_message u n t) ≤ n
unfolding sanitize_message
length-sanitize_message u n t = omega (
  arith,
  length-take n (
      join (codes " ") (
        split (
          sub u assignment_matcher
            (sub u bearer_matcher (strip (filter (λ c. not (is_control c)) t)))))),
)

mutual
  unfolding sanitize_value IsClean HasTimezones require_aware

  sanitized_value :
      (u : Unicode) (o : Object)
      → HasTimezones o
      → (v : EventValue) × (sanitize_value u o ≡ ok v) × IsClean u v
  sanitized_value u Object.none_object d = (_, refl, tt)
  sanitized_value u (Object.bool b) d = (_, refl, tt)
  sanitized_value u (Object.int i) d = (_, refl, tt)
  sanitized_value u (Object.float f) d = (_, refl, tt)
  sanitized_value u (Object.str s) d = (_, refl, length-sanitize_message u 2000 s)
  sanitized_value u (Object.datetime (naive t)) d = absurd d
  sanitized_value u (Object.datetime (aware t)) d = (_, refl, tt)
  sanitized_value u (Object.uuid i) d = (_, refl, tt)
  sanitized_value u (Object.mapping es) d =
      let (fs, e, c) = sanitized_entries u es Fields.no_fields d tt in
      (EventValue.object fs, bind_ok (sanitize_entries u es no_fields) _ fs e, c)
  sanitized_value u (Object.sequence os) d =
      let (vs, e, c) = sanitized_objects u os d in
      (EventValue.array vs, bind_ok (sanitize_objects u os) _ vs e, c)
  sanitized_value u (Object.other s) d = (_, refl, length-sanitize_message u 2000 s)

  sanitized_objects :
      (u : Unicode) (os : Objects)
      → AllHaveTimezones os
      → (vs : Values) × (sanitize_objects u os ≡ ok vs) × AllAreClean u vs
  sanitized_objects u Objects.no_objects d = (_, refl, tt)
  sanitized_objects u (Objects.objects o os) d =
      let (v, e, c) = sanitized_value u o d.0 in
      let (vs, es, cs) = sanitized_objects u os d.1 in
      (
        Values.values v vs,
        bind_ok (sanitize_value u o) _ v e ∙ bind_ok (sanitize_objects u os) _ vs es,
        (c, cs),
      )

  sanitized_entries :
      (u : Unicode) (es : Entries) (result : Fields)
      → HaveTimezones es
      → AreClean u result
      → (fs : Fields) × (sanitize_entries u es result ≡ ok fs) × AreClean u fs
  sanitized_entries u Entries.no_entries result d c = (result, refl, c)
  sanitized_entries u (Entries.entry key o es) result d c =
      let (v, e, vc) = sanitized_value u o d.0 in
      elim (Bool-cases (is_sensitive_key u key)) [
        | inl hidden ↦
            let (fs, q, fc) = sanitized_entries u es result d.1 c in (fs, rw hidden q, fc)
        | inr plain ↦
            let (fs, q, fc) =
              sanitized_entries u es (set_field key v result) d.1
                (set_field-AreClean u key v result plain vc c) in
            (fs, rw plain (bind_ok (sanitize_value u o) _ v e ∙ q), fc)
      ]

-- The metrics of an event are stored if every instant in them has a timezone; what is stored has
-- no sensitive key at any depth and no text of more than 2000 characters.
pub sanitize_metrics-AreClean :
    (u : Unicode) (es : Entries)
    → HaveTimezones es
    → (fs : Fields) × (sanitize_metrics u (some (mapping es)) ≡ ok fs) × AreClean u fs
unfolding sanitize_metrics require_object sanitize_value AreClean
sanitize_metrics-AreClean u es d =
    let (fs, e, c) = sanitized_entries u es Fields.no_fields d tt in
    (
      fs,
      rw (bind_ok (sanitize_entries u es no_fields) (λ fs. ok (EventValue.object fs)) fs e) refl,
      c,
    )
