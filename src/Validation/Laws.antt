-- ===== src/Validation/Laws.antt =====
-- What `Validate` reports, and when the rules that the services use are broken.
use kenshu_elaris_project_st.Base.{
  String, ◌≡◌, refl, ◌∙◌, ◌≢◌, ◌↔◌, true, List, [], ◌∷◌, ◌++◌, str_eq_iff, trim_space, all_space,
  trim_space-eq-nil, arith,
}
use kenshu_elaris_project_st.Validation.{
  Verdict, passed, failed, panicked, new, run_steps, validate, not_blank,
}

abbrev AllPass : List (Unit {0} → Verdict) → Type 0
AllPass [] = Unit
AllPass (step ∷ steps) = (step tt ≡ passed) × AllPass steps

run_steps-append :
    (before : List (Unit {0} → Verdict)) (steps : List (Unit {0} → Verdict))
    → AllPass before
    → run_steps (before ++ steps) ≡ run_steps steps
unfolding run_steps
run_steps-append [] steps h = refl
run_steps-append (s ∷ before) steps h = rw (h.0) (run_steps-append before steps h.1)

-- If every step in front of some step passes and that step does not, then `Validate` answers what
-- that step answers, whatever stands behind it.
pub validate_first :
    (before : List (Unit {0} → Verdict)) (step : Unit {0} → Verdict)
    (after : List (Unit {0} → Verdict))
    → AllPass before
    → step tt ≢ passed
    → validate (record { steps = before ++ step ∷ after }) ≡ step tt
unfolding validate run_steps
validate_first before step after h fails =
    run_steps-append before (step ∷ after) h ∙ last (step tt) fails
  where
    last :
        (r : Verdict)
        → r ≢ passed
        → (elim r [ passed ↦ run_steps after | failed e ↦ failed e | panicked ↦ panicked ]) ≡ r
    last passed h' = absurd (h' refl)
    last (failed e) h' = refl
    last panicked h' = refl

-- A chain of one `NotBlank` passes exactly when the text has a character that is no white space.
not_blank-passed :
    (field text : String) → (validate (not_blank field text new) ≡ passed) ↔ (all_space text ≢ true)
unfolding validate run_steps not_blank
not_blank-passed field text =
    ground (arith, trim_space-eq-nil text, str_eq_iff (trim_space text) "")
