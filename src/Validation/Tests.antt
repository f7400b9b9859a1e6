-- ===== src/Validation/Tests.antt =====
-- The validators at concrete inputs.
use kenshu_elaris_project_st.Base.{
  pos, negsuc, ◌≡◌, refl, ◌≢◌, ◌↔◌, [], ◌∷◌, is_space, trim_space, true, false,
}
use kenshu_elaris_project_st.Domain.Errors.{validation_constrain}
use kenshu_elaris_project_st.Validation.{
  passed, failed, panicked, nil_interface, value, new, validate, not_blank, not_zero_value,
  positive_value, valid_cleaning_status, cleaning_request, not_nil_object_id, allowed_content_type,
  period, exchange_name,
}
use kenshu_elaris_project_st.Validation.Laws.{validate_first}
use kenshu_elaris_project_st.Validation.Email.{
  email_format, email_matches, local_char, domain_char, letter,
}
use kenshu_elaris_project_st.Validation.Email.Grammar.{Address, email_format-Address}

program : Unit {0}
unfolding validate not_blank not_zero_value positive_value valid_cleaning_status cleaning_request
    not_nil_object_id allowed_content_type period exchange_name trim_space is_space
program = tt

two_broken :
    validate (not_blank "b" " \t" (positive_value "a" (negsuc 0) new))
    ≡ failed (validation_constrain "a" "must be greater than 0")
unfolding program
two_broken = refl

nil_value : validate (not_zero_value "clock" nil_interface new) ≡ panicked
unfolding program
nil_value = refl

exchange_names :
    (validate (exchange_name "ex.time_event-1" new) ≡ passed)
    × (validate (exchange_name "ex." new) ≢ passed)
    × (validate (exchange_name "xe.a" new) ≢ passed)
    × (validate (exchange_name "ex.a b" new) ≢ passed)
unfolding program
exchange_names = (refl, λ e. cc e, λ e. cc e, λ e. cc e)

others :
    (validate (
        period (pos 3) (pos 4) (
          not_nil_object_id "id" 5 (
            cleaning_request "CLEAN" (
              valid_cleaning_status "status" "daily_cleaned"
                (allowed_content_type "application/protobuf" new)))))
      ≡ passed)
    × (validate (period (pos 4) (pos 4) new) ≢ passed)
    × (validate (not_zero_value "clock" (value true) new) ≢ passed)
unfolding program
others = (refl, λ e. cc e, λ e. cc e)

validate_first_example :
    validate (record {
      steps = (λ _. passed) ∷ (λ _. failed (validation_constrain "f" "m")) ∷ (λ _. panicked) ∷ [];
    })
    ≡ failed (validation_constrain "f" "m")
validate_first_example =
    validate_first ((λ _. passed) ∷ []) (λ _. failed (validation_constrain "f" "m"))
      ((λ _. panicked) ∷ []) (refl, tt) (λ e. cc e)

emails :
    (email_matches "a.b+c@hotel-1.co.jp" ≡ true)
    × (email_matches "a@b" ≡ false)
    × (email_matches "@b.jp" ≡ false)
    × (email_matches "a@b.j" ≡ false)
    × (email_matches "a b@c.jp" ≡ false)
unfolding email_matches local_char domain_char letter
emails = (refl, refl, refl, refl, refl)

email_format-Address_example : (validate (email_format "a@b.jp" new) ≡ passed) ↔ Address "a@b.jp"
email_format-Address_example = email_format-Address "a@b.jp"
