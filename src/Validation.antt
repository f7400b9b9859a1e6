-- ===== src/Validation.antt =====
-- internal/app/validation: a validator collects steps, and `Validate` runs them in order up to the
-- first that fails. A step is a closure over its arguments. All of validator.go,
-- basic_validation.go, mongo_validation.go, rabbitmq_validation.go and app_validation.go, of which the
-- rule for email addresses is in Email.
pub mod Laws
pub mod Email
mod Tests
use Prim.Native.Char.{code}
use kenshu_elaris_project_st.Base.{
  ℕ, ℤ, pos, leb_ℤ, String, Bool, true, false, not, ◌&&◌, ◌||◌, Option, none, some, List, [], ◌∷◌,
  ◌++◌, str_eq, leb, trim_space, ◌==◌, if◌then◌else◌,
}
use kenshu_elaris_project_st.Domain.Errors.{Error, validation_constrain, foreign}
use kenshu_elaris_project_st.Domain.Documents.{
  status_prepared_for_guest, status_daily_cleaned, status_prepared_for_sleep, status_fully_cleaned,
}

-- How a step, or the run of all steps, ends.
pub data Verdict : Type 0 where
  passed : Verdict
  failed : Error → Verdict
  panicked : Verdict

-- A value of Go's type `any`: no value at all, or one that is or is not its type's zero value. The
-- `reflect.Value` of no value has no `IsZero`: the call panics.
pub data AnyValue : Type 0 where
  nil_interface : AnyValue
  value : (is_zero : Bool) → AnyValue

pub record Validator : Type 0 where
  pub steps : List (Unit {0} → Verdict)

abbrev pub new : Validator
new = record { steps = [] }

run_steps : List (Unit {0} → Verdict) → Verdict
run_steps [] = passed
run_steps (step ∷ steps) = elim (step tt) [
  | passed ↦ run_steps steps
  | failed e ↦ failed e
  | panicked ↦ panicked
]

unfoldable pub validate : Validator → Verdict
unfolding run_steps
validate v = run_steps v.steps

-- The error that `Validate` returns, of a chain with no `NotZeroValue`: none of its steps panics.
unfoldable pub validate_error : Validator → Option Error
unfolding validate
validate_error v = elim (validate v) [
  | passed ↦ none
  | failed e ↦ some e
  | panicked ↦ some (foreign "panic")
]

abbrev add_step : Validator → (Unit {0} → Verdict) → Validator
add_step v step = record v { steps = v.steps ++ step ∷ [] }

-- A step's answer: an `ErrValidationConstrain` if the rule is broken.
abbrev pub violation : Bool → String → String → Verdict
violation broken field message =
    if broken then failed (validation_constrain field message) else passed

unfoldable pub not_blank : String → String → Validator → Validator
not_blank field text v =
    add_step v (λ _. violation (str_eq (trim_space text) "") field "must not be blank")

zero_check : String → AnyValue → Verdict
zero_check field nil_interface = panicked
zero_check field (value is_zero) = violation is_zero field "must not be zero value"

unfoldable pub not_zero_value : String → AnyValue → Validator → Validator
unfolding zero_check
not_zero_value field x v = add_step v (λ _. zero_check field x)

unfoldable pub positive_value : String → ℤ → Validator → Validator
positive_value field n v =
    add_step v (λ _. violation (leb_ℤ n (pos 0)) field "must be greater than 0")

unfoldable pub valid_cleaning_status : String → String → Validator → Validator
valid_cleaning_status field status v = add_step v λ _.
    if str_eq status status_prepared_for_guest
      || str_eq status status_daily_cleaned
      || str_eq status status_prepared_for_sleep
      || str_eq status status_fully_cleaned
    then passed
    else failed (
        validation_constrain field
          "must be one of prepared_for_guest, daily_cleaned, prepared_for_sleep, fully_cleaned")

unfoldable pub cleaning_request : String → Validator → Validator
cleaning_request request v = add_step v λ _.
    violation (not (str_eq request "DO_NOT_DISTURB") && not (str_eq request "CLEAN")) "request"
      "must be either DO_NOT_DISTURB or CLEAN"

-- An object id as the number that its twelve bytes spell.
unfoldable pub not_nil_object_id : String → ℕ → Validator → Validator
not_nil_object_id field id v = add_step v (λ _. violation (id == 0) field "must not be nil")

-- `allowedContentTypes` holds one name.
unfoldable pub allowed_content_type : String → Validator → Validator
allowed_content_type content_type v = add_step v λ _.
    violation (not (str_eq "application/protobuf" content_type)) "contentType"
      "must be of those: [\"application/protobuf\"]"

-- Instants are nanoseconds since the epoch.
unfoldable pub period : ℤ → ℤ → Validator → Validator
period start end v =
    add_step v λ _. violation (leb_ℤ end start) "start" "start date must be before end date"

name_char : ℕ → Bool
name_char c =
    (leb b'A' c && leb c b'Z')
    || (leb b'a' c && leb c b'z')
    || (leb b'0' c && leb c b'9')
    || c == b'_'
    || c == b'-'

-- `[A-Za-z0-9_-]+$`, behind characters that are all such if `some_read`.
name_chars : Bool → String → Bool
name_chars some_read String.[] = some_read
name_chars some_read (String.◌∷◌ c s) = name_char (code c) && name_chars true s

-- A text with the characters of `prefix` in front, and the rest matched by `rest`.
after_prefix : String → (String → Bool) → String → Bool
after_prefix String.[] rest s = rest s
after_prefix (String.◌∷◌ p ps) rest String.[] = false
after_prefix (String.◌∷◌ p ps) rest (String.◌∷◌ c s) = code p == code c && after_prefix ps rest s

-- The expression `^ex\.[A-Za-z0-9_-]+$`.
unfoldable pub exchange_name : String → Validator → Validator
unfolding after_prefix name_chars name_char
exchange_name name v = add_step v λ _.
    violation (not (after_prefix "ex." (name_chars false) name)) "exchangeName"
      "must be in format ex.<name of exchange>"
