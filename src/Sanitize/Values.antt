-- ===== src/Sanitize/Values.antt =====
-- The functions that clean a message, an event code and a tree of metrics.
use praktika.Prelude.{
  ℕ, Bool, false, ◌&&◌, ◌||◌, not, Option, none, some, List, [], ◌∷◌, leb, ◌==◌, if◌then◌else◌,
  length, take, filter, any, all, ℤ, Result, ok, err, value_error, type_error, ◌>>=◌,
}
use praktika.Text.{
  Text, codes, Unicode, is_digit, is_lower, is_upper, upper, casefold, strip, split, join, contains,
  text_eq, sub,
}
use praktika.Sanitize.Patterns.{is_control, bearer_matcher, assignment_matcher}

-- `sanitize_job_event_message`
unfoldable pub sanitize_message : Unicode → ℕ → Text → Text
unfolding is_control strip sub split join
sanitize_message u max_length message =
    let normalized = strip (filter (λ c. not (is_control c)) message) in
    let unbearer = sub u bearer_matcher normalized in
    let masked = sub u assignment_matcher unbearer in
    take max_length (join (codes " ") (split masked))

is_code_char : ℕ → Bool
unfolding is_upper is_digit
is_code_char c = is_upper c || is_digit c || c == b'_'

-- EVENT_CODE_PATTERN.fullmatch: [A-Z][A-Z0-9_]{0,79}
unfoldable pub is_event_code : Text → Bool
unfolding is_code_char is_upper
is_event_code [] = false
is_event_code (c ∷ cs) = is_upper c && all is_code_char cs && leb (length cs) 79

-- `_normalize_event_code`
unfoldable pub normalize_event_code : Unicode → Text → Result Text
unfolding upper strip is_event_code
normalize_event_code u code =
    let normalized = upper u (strip code) in
    if is_event_code normalized then ok normalized else err value_error

abbrev sensitive_key_parts : List Text
sensitive_key_parts =
    codes "password"
    ∷ codes "salt"
    ∷ codes "digest"
    ∷ codes "session"
    ∷ codes "csrf"
    ∷ codes "cookie"
    ∷ codes "authorization"
    ∷ codes "secret"
    ∷ codes "api_key"
    ∷ codes "apikey"
    ∷ codes "stackexchange_key"
    ∷ codes "stackexchangekey"
    ∷ codes "access_key"
    ∷ codes "accesskey"
    ∷ codes "private_key"
    ∷ codes "privatekey"
    ∷ codes "token"
    ∷ []

-- [a-z0-9], what is left of the key before it is compared with "key".
is_plain_char : ℕ → Bool
unfolding is_lower is_digit
is_plain_char c = is_lower c || is_digit c

-- `_is_sensitive_event_key`
unfoldable pub is_sensitive_key : Unicode → Text → Bool
unfolding casefold text_eq contains is_plain_char
is_sensitive_key u key =
    let normalized = casefold u key in
    text_eq (filter is_plain_char normalized) (codes "key")
    || any (λ part. contains part normalized) sensitive_key_parts

-- A point in time: `aware` with its instant in microseconds of UTC, `naive` without a timezone.
pub data DateTime : Type 0 where
  naive : ℕ → DateTime
  aware : ℕ → DateTime

-- `_require_aware_datetime`
unfoldable pub require_aware : DateTime → Result ℕ
require_aware (naive t) = err value_error
require_aware (aware t) = ok t

-- The Python objects that a metric may hold. `float` carries the bits of the double, `other` the
-- `str` of an object of any other class, and a mapping's keys are given by their `str`.
mutual
  pub data Object : Type 0 where
    none_object : Object
    bool : Bool → Object
    int : ℤ → Object
    float : ℕ → Object
    str : Text → Object
    datetime : DateTime → Object
    uuid : ℕ → Object
    mapping : Entries → Object
    sequence : Objects → Object
    other : Text → Object

  pub data Objects : Type 0 where
    no_objects : Objects
    objects : Object → Objects → Objects

  pub data Entries : Type 0 where
    no_entries : Entries
    entry : Text → Object → Entries → Entries

-- What is stored: JSON, where the text of an instant or of a UUID is kept as the thing that it
-- prints.
mutual
  pub data EventValue : Type 0 where
    null : EventValue
    bool_value : Bool → EventValue
    int_value : ℤ → EventValue
    float_value : ℕ → EventValue
    text : Text → EventValue
    iso_text : ℕ → EventValue
    uuid_text : ℕ → EventValue
    array : Values → EventValue
    object : Fields → EventValue

  pub data Values : Type 0 where
    no_values : Values
    values : EventValue → Values → Values

  pub data Fields : Type 0 where
    no_fields : Fields
    field : Text → EventValue → Fields → Fields

-- `result[key] = value`: a key that is there keeps its place.
unfoldable pub set_field : Text → EventValue → Fields → Fields
unfolding text_eq
set_field key v no_fields = field key v no_fields
set_field key v (field k w fs) =
    if text_eq k key then field k v fs else field k w (set_field key v fs)

-- `sanitize_job_event_value`; the loop over a mapping carries the result so far.
unfoldable mutual
  unfolding set_field sanitize_message is_sensitive_key require_aware

  pub sanitize_value : Unicode → Object → Result EventValue
  sanitize_value u none_object = ok null
  sanitize_value u (bool b) = ok (bool_value b)
  sanitize_value u (int i) = ok (int_value i)
  sanitize_value u (float f) = ok (float_value f)
  sanitize_value u (str s) = ok (text (sanitize_message u 2000 s))
  sanitize_value u (datetime d) = require_aware d >>= λ t. ok (iso_text t)
  sanitize_value u (uuid i) = ok (uuid_text i)
  sanitize_value u (mapping es) = sanitize_entries u es no_fields >>= λ fs. ok (object fs)
  sanitize_value u (sequence os) = sanitize_objects u os >>= λ vs. ok (array vs)
  sanitize_value u (other s) = ok (text (sanitize_message u 2000 s))

  pub sanitize_objects : Unicode → Objects → Result Values
  sanitize_objects u no_objects = ok no_values
  sanitize_objects u (objects o os) =
      sanitize_value u o >>= λ v. sanitize_objects u os >>= λ vs. ok (values v vs)

  pub sanitize_entries : Unicode → Entries → Fields → Result Fields
  sanitize_entries u no_entries result = ok result
  sanitize_entries u (entry key item es) result =
      if is_sensitive_key u key
      then sanitize_entries u es result
      else (sanitize_value u item >>= λ v. sanitize_entries u es (set_field key v result))

-- The test for `dict` at the end of `sanitize_job_event_metrics`.
unfoldable pub require_object : EventValue → Result Fields
require_object (object fs) = ok fs
require_object _ = err type_error

-- `sanitize_job_event_metrics`
unfoldable pub sanitize_metrics : Unicode → Option Object → Result Fields
unfolding require_object sanitize_value
sanitize_metrics u none = ok no_fields
sanitize_metrics u (some metrics) = sanitize_value u metrics >>= require_object
