-- ===== src/Prelude/Results.antt =====
-- Python's exceptions as values: `raise` is `err`, and a `do` block stops at the first one.
use mathlib.Core.Path.{◌≡◌, refl, subst}
use praktika.Prelude.Tests.{if◌then◌else◌}
use mathlib.Core.Logic.{◌⊎◌, inl, inr}
use mathlib.Core.Bool.{Bool, true, false}
use mathlib.Core.Option.{Option, none, some}

-- The exceptions, by what the modelled code distinguishes; `other_exception` is one of no named class.
pub data Error : Type 0 where
  value_error type_error job_queue_state_error : Error
  index_error rate_limited llm_queue_full llm_queue_timeout : Error
  conflict not_found validation_error internal_error : Error
  unauthorized forbidden csrf_invalid integrity_error : Error
  cleanup_confirmation_required index_version_lost database_error vector_store_error
        other_exception :
      Error

-- What a call returns, or the exception that it raises.
pub data Result {ℓ} (Value : Type ℓ) : Type ℓ where
  err : Error → Result Value
  ok : Value → Result Value

-- `if value is None: raise e`
unfoldable pub or_raise {ℓ} : {A : Type ℓ} → Error → Option A → Result A
or_raise e none = err e
or_raise e (some a) = ok a

infixl 5 ◌>>=◌
abbrev pub ◌>>=◌ {ℓ ℓ'} : {A : Type ℓ} {B : Type ℓ'} → Result A → (A → Result B) → Result B
err raised >>= rest = err raised
ok value >>= rest = rest value

-- `if c: raise e`
abbrev pub raise_if : Bool → Error → Result (Unit {0})
raise_if true e = err e
raise_if false e = ok tt

infixl 5 ◌>>◌
abbrev pub ◌>>◌ {ℓ} : {B : Type ℓ} → Result (Unit {0}) → Result B → Result B
check >> rest = check >>= λ _. rest

pub Result-cases {ℓ} :
    {A : Type ℓ} (r : Result A) → ((a : A) × (r ≡ ok a)) ⊎ ((e : Error) × (r ≡ err e))
Result-cases (ok a) = inl (a, refl)
Result-cases (err e) = inr (e, refl)

pub bind_ok {ℓ ℓ'} :
    {A : Type ℓ} {B : Type ℓ'} (call : Result A) (rest : A → Result B) (value : A)
    → call ≡ ok value
    → call >>= rest ≡ rest value
bind_ok call rest value e = rw e

-- What holds of the value of a call, if it returns.
pub record Ensures {ℓ} {A : Type ℓ} (P : A → Type 0) (r : Result A) : Type ℓ where
  pub holds : (a : A) → r ≡ ok a → P a

pub Ensures-ok {ℓ} : {A : Type ℓ} (P : A → Type 0) (a : A) → P a → Ensures P (ok a)
Ensures-ok P a p = record { holds = λ b e. subst P (cc) p }

pub Ensures-err {ℓ} : {A : Type ℓ} (P : A → Type 0) (e : Error) → Ensures P (err e)
Ensures-err P e = record { holds = λ a q. cc }

pub Ensures-bind {ℓ ℓ'} :
    {A : Type ℓ} {B : Type ℓ'} (P : B → Type 0) (call : Result A) (rest : A → Result B)
    → ((a : A) → call ≡ ok a → Ensures P (rest a))
    → Ensures P (call >>= rest)
Ensures-bind P (err e) rest h = Ensures-err P e
Ensures-bind P (ok a) rest h = h a refl

pub Ensures-guard {ℓ} :
    {B : Type ℓ} (P : B → Type 0) (test : Bool) (e : Error) (rest : Result B)
    → (test ≡ false → Ensures P rest)
    → Ensures P (raise_if test e >> rest)
Ensures-guard P true e rest h = Ensures-err P e
Ensures-guard P false e rest h = h refl

pub Ensures-if {ℓ} :
    {A : Type ℓ} (P : A → Type 0) (test : Bool) (first second : Result A)
    → (test ≡ true → Ensures P first)
    → (test ≡ false → Ensures P second)
    → Ensures P (if test then first else second)
Ensures-if P true a b h k = h refl
Ensures-if P false a b h k = k refl

pub or_raise_ok {ℓ} :
    {A : Type ℓ} (e : Error) (o : Option A) (a : A) → or_raise e o ≡ ok a → o ≡ some a
unfolding or_raise
or_raise_ok e none a h = cc
or_raise_ok e (some b) a h = cc

-- What holds where a call raises and where it does not.
pub by_call {ℓ} :
    {A : Type ℓ} (P : A → Type 0) (raised : Option Error) (raises : Error → A) (returns : A)
    → ((e : Error) → raised ≡ some e → P (raises e))
    → (raised ≡ none → P returns)
    → P (elim raised as (λ x. A) [ none ↦ returns | some e ↦ raises e ])
by_call P none raises returns h k = k refl
by_call P (some e) raises returns h k = h e refl
