-- ===== src/Sanitize/Tests.antt =====
-- The sanitizer on concrete messages and metrics.
use praktika.Prelude.{◌≡◌, refl, false, none, some, ok, pos, [], ◌∷◌}
use praktika.Text.{Unicode, codes, casefold, contains, sub, strip, split, join, text_eq}
use praktika.Sanitize.Values.{
  Object, Entries, Fields, EventValue, sanitize_message, sanitize_metrics, is_sensitive_key,
  sanitize_value, set_field, aware,
}
use praktika.Sanitize.Patterns.{bearer_matcher, assignment_matcher, is_control}
use praktika.Sanitize.Clean.{HaveTimezones, AreClean, sanitize_metrics-AreClean}

-- Texts of ASCII characters.
abbrev ascii : Unicode
ascii = record {
  wide_word = λ _. false;
  wide_upper = λ c. c ∷ [];
  wide_casefold = λ c. c ∷ [];
  wide_digit = λ _. none;
}

assignment_is_masked :
    sanitize_message ascii 1000 (codes "fail: token = abc123") ≡ codes "fail: token = [REDACTED]"
unfolding sanitize_message sub strip split join bearer_matcher assignment_matcher is_control
assignment_is_masked = refl

-- `\b` asks for a word boundary before the key, and `_` is a word character.
prefixed_key_is_not_masked :
    sanitize_message ascii 1000 (codes "access_token=abc123") ≡ codes "access_token=abc123"
unfolding sanitize_message sub strip split join bearer_matcher assignment_matcher is_control
prefixed_key_is_not_masked = refl

abbrev metrics : Entries
metrics = Entries.entry (codes "count") (Object.int (pos 3)) (
    Entries.entry (codes "apiKey") (Object.str (codes "abc"))
      (Entries.entry (codes "at") (Object.datetime (aware 5)) Entries.no_entries))

secret_is_dropped :
    sanitize_metrics ascii (some (Object.mapping metrics))
    ≡ ok (
        Fields.field
          (codes "count")
          (EventValue.int_value (pos 3))
          (Fields.field (codes "at") (EventValue.iso_text 5) Fields.no_fields))
unfolding sanitize_metrics sanitize_value is_sensitive_key casefold contains text_eq set_field
secret_is_dropped = refl

sanitize_metrics-AreClean_example :
    (fs : Fields) × (sanitize_metrics ascii (some (Object.mapping metrics)) ≡ ok fs)
    × AreClean ascii fs
unfolding HaveTimezones
sanitize_metrics-AreClean_example = sanitize_metrics-AreClean ascii metrics (tt, (tt, (tt, tt)))
