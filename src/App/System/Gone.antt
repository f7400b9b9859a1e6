-- ===== src/App/System/Gone.antt =====
-- Groups of employees of internal/app/employee_service.go whose goroutines have all ended.
use kenshu_elaris_project_st.Base.{
  String, ◌≡◌, refl, ◌∙◌, subst, ◌⊎◌, inl, inr, Bool-cases, none, some, List, [], ◌∷◌, lookup,
  insert, str_eq, str_eq_iff,
}
use kenshu_elaris_project_st.App.Employee.Laws.{lookup-insert_same, lookup-insert_other}
use kenshu_elaris_project_st.App.Employee.Run.{
  Phase, selecting, handling, stopped, Pool, Worker, takes, finishes, stops,
}

-- Whoever is named has ended.
abbrev pub AllGone : {R : Type 0} → List (String × Phase R) → Type 0
AllGone workers =
    (name : String) → (lookup name workers ≡ none) ⊎ (lookup name workers ≡ some stopped)

module _ {R : Type 0} where
  pub none_waits :
      {P : Type 0} (name : String) (workers : List (String × Phase R))
      → AllGone workers
      → lookup name workers ≡ some selecting
      → P
  none_waits name workers gone at = elim (gone name) [
    | inl nobody ↦ absurd (cc (at, nobody))
    | inr ended ↦ absurd (cc (at, ended))
  ]

  pub none_works :
      {P : Type 0} (name : String) (workers : List (String × Phase R)) {request : R}
      → AllGone workers
      → lookup name workers ≡ some (handling request)
      → P
  none_works name workers gone at = elim (gone name) [
    | inl nobody ↦ absurd (cc (at, nobody))
    | inr ended ↦ absurd (cc (at, ended))
  ]

  pub no_Worker :
      {P : Type 0} {no_request : R} {p q : Pool R} → AllGone p.workers → Worker no_request p q → P
  no_Worker {p = p} gone (takes name request rest at is) = none_waits name p.workers gone at
  no_Worker {p = p} gone (finishes name request at) = none_works name p.workers gone at
  no_Worker {p = p} gone (stops name at cancelled) = none_waits name p.workers gone at

  -- The only employee finishes, and ends.
  pub one_by_one-AllGone :
      (name : String) (phase : Phase R) (workers : List (String × Phase R))
      → workers ≡ (name, phase) ∷ []
      → AllGone (insert name stopped (insert name selecting workers))
  one_by_one-AllGone name phase workers is other =
      let alone : List (String × Phase R) = (name, phase) ∷ [] in
      let waits : List (String × Phase R) = insert name selecting alone in
      rw is (elim (Bool-cases (str_eq name other)) [
        | inl same ↦ inr (
            subst (λ key. lookup key (insert name stopped waits) ≡ some stopped)
              ((str_eq_iff name other).0 same) (lookup-insert_same name stopped waits))
        | inr apart ↦ inl (
            lookup-insert_other name other stopped waits apart
            ∙ lookup-insert_other name other selecting alone apart
            ∙ rw apart refl)
      ])
