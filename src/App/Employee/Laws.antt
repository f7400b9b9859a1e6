-- ===== src/App/Employee/Laws.antt =====
-- The map of employees under writes, and what the two queries answer.
use kenshu_elaris_project_st.Base.{
  ℕ, ◌+◌, ◌<◌, suc, pos, incr, int_limit, String, Bool, false, ◌≡◌, refl, ◌∙◌, sym, ap, subst,
  Bool-cases, inl, inr, Option, none, some, List, [], ◌∷◌, lookup, insert, lookup-insert, str_eq,
  str_eq_iff, if◌then◌else◌, arith,
}
use kenshu_elaris_project_st.App.Employee.{
  EmployeeStatus, EmployeeService, count_idle, idle_employee_count,
}

swap : (a b : String) → str_eq a b ≡ false → str_eq b a ≡ false
swap a b h = ground (arith, h, str_eq_iff a b, str_eq_iff b a)

module _ {ℓ} {V : Type ℓ} where
  -- How many entries pass a test, and how many there are.
  abbrev pub number : (V → Bool) → List (String × V) → ℕ
  number test [] = 0
  number test (entry ∷ entries) =
      let rest = number test entries in if test entry.1 then suc rest else rest

  abbrev pub size : List (String × V) → ℕ
  size [] = 0
  size (entry ∷ entries) = suc (size entries)

  -- A Go map has one entry under each key.
  abbrev pub Distinct : List (String × V) → Type ℓ
  Distinct [] = Unit
  Distinct (entry ∷ entries) = (lookup entry.0 entries ≡ none) × Distinct entries

  pub number-insert :
      (test : V → Bool) (key : String) (old new : V) (entries : List (String × V))
      → lookup key entries ≡ some old
      → number test (insert key new entries) + (if test old then 1 else 0)
        ≡ number test entries + (if test new then 1 else 0)
  number-insert test key old new [] is = cc is
  number-insert test key old new (entry ∷ entries) is = elim (Bool-cases (str_eq entry.0 key)) [
    | inl same ↦ ground (arith, same, rw same at is)
    | inr other ↦ ground (arith, other, number-insert test key old new entries (rw other at is))
  ]

  pub size-insert :
      (key : String) (old new : V) (entries : List (String × V))
      → lookup key entries ≡ some old
      → size (insert key new entries) ≡ size entries
  size-insert key old new [] is = cc is
  size-insert key old new (entry ∷ entries) is = elim (Bool-cases (str_eq entry.0 key)) [
    | inl same ↦ rw same refl
    | inr other ↦ ground (arith, other, size-insert key old new entries (rw other at is))
  ]

  pub lookup-insert_other :
      (key wanted : String) (value : V) (entries : List (String × V))
      → str_eq key wanted ≡ false
      → lookup wanted (insert key value entries) ≡ lookup wanted entries
  lookup-insert_other key wanted value entries other =
      sym (lookup-insert entries key wanted value) ∙ rw other refl

  pub lookup-insert_same :
      (key : String) (value : V) (entries : List (String × V))
      → lookup key (insert key value entries) ≡ some value
  lookup-insert_same key value entries =
      sym (lookup-insert entries key key value) ∙ rw ((str_eq_iff key key).1 refl) refl

  pub Distinct-insert :
      (key : String) (value : V) (entries : List (String × V))
      → Distinct entries
      → Distinct (insert key value entries)
  Distinct-insert key value [] h = (refl, tt)
  Distinct-insert key value (entry ∷ entries) h = elim (Bool-cases (str_eq entry.0 key)) [
    | inl same ↦
        rw same (subst (λ k. lookup k entries ≡ none) ((str_eq_iff entry.0 key).0 same) h.0, h.1)
    | inr other ↦ rw other (
      lookup-insert_other key entry.0 value entries (swap entry.0 key other) ∙ h.0,
      Distinct-insert key value entries h.1,
    )
  ]

incr-pos : (n : ℕ) → n + 1 < int_limit → incr (pos n) ≡ pos (n + 1)
unfolding incr
incr-pos n small = ground arith

module _ {R : Type 0} where
  abbrev idle_test : EmployeeStatus R → Bool
  idle_test status = status.is_idle

  count_idle-number :
      (n : ℕ) (employees : List (String × EmployeeStatus R))
      → n + size employees < int_limit
      → count_idle (pos n) employees ≡ pos (n + number idle_test employees)
  unfolding count_idle
  count_idle-number n [] small = ground arith
  count_idle-number n (entry ∷ employees) small = elim (Bool-cases entry.1.is_idle) [
    | inl idle ↦
        rw (idle, incr-pos n (omega (arith, small)))
          (ground (arith, count_idle-number (n + 1) employees (omega (arith, small))))
    | inr busy ↦ rw busy (count_idle-number n employees (omega (arith, small)))
  ]

  -- Below 2 ^ 63 employees, `IdleEmployeeCount` is the number of the idle ones.
  pub idle_count-number :
      (s : EmployeeService R)
      → size s.employees < int_limit
      → idle_employee_count s
        ≡ pos (number (λ (status : EmployeeStatus R). status.is_idle) s.employees)
  unfolding idle_employee_count
  idle_count-number s small =
      count_idle-number 0 s.employees (omega (arith, small)) ∙ ap pos (omega arith)

-- A property of two maps under each name, behind an insertion into both.
pub at_each :
    {V W : Type 0} (P : Option V → Option W → Type 0) (name : String) (v : V) (w : W)
    (vs : List (String × V)) (ws : List (String × W))
    → P (some v) (some w)
    → ((other : String) → P (lookup other vs) (lookup other ws))
    → (other : String) → P (lookup other (insert name v vs)) (lookup other (insert name w ws))
at_each P name v w vs ws new old other = elim (Bool-cases (str_eq name other)) [
  | inl same ↦
      subst (λ key. P (lookup key (insert name v vs)) (lookup key (insert name w ws)))
        ((str_eq_iff name other).0 same)
        (rw (lookup-insert_same name v vs, lookup-insert_same name w ws) new)
  | inr apart ↦
      rw (lookup-insert_other name other v vs apart, lookup-insert_other name other w ws apart)
        (old other)
]

-- The same behind an insertion into one of them.
pub at_first :
    {V W : Type 0} (P : Option V → Option W → Type 0) (name : String) (v : V)
    (vs : List (String × V)) (ws : List (String × W))
    → P (some v) (lookup name ws)
    → ((other : String) → P (lookup other vs) (lookup other ws))
    → (other : String) → P (lookup other (insert name v vs)) (lookup other ws)
at_first P name v vs ws new old other = elim (Bool-cases (str_eq name other)) [
  | inl same ↦
      subst (λ key. P (lookup key (insert name v vs)) (lookup key ws))
        ((str_eq_iff name other).0 same) (rw (lookup-insert_same name v vs) new)
  | inr apart ↦ rw (lookup-insert_other name other v vs apart) (old other)
]
