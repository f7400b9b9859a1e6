-- ===== src/Domain/Set/Laws.antt =====
-- Membership after the operations of a set of numbers.
use kenshu_elaris_project_st.Base.{
  ℕ, ◌==◌, false, not, ◌&&◌, ◌||◌, ◌≡◌, refl, List, [], ◌∷◌, ◌++◌, arith, inl, inr, Bool-cases,
}
use kenshu_elaris_project_st.Domain.Set.{Set, has, delete, add, remove, values}

-- The invariant of the representation: a Go map holds each key once, so the list has no member twice.
abbrev pub Distinct : List ℕ → Type 0
Distinct [] = Unit
Distinct (c ∷ items) = (has ◌==◌ c items ≡ false) × Distinct items

pub has-append :
    (x y : ℕ) (items : List ℕ) → has ◌==◌ x (items ++ y ∷ []) ≡ (has ◌==◌ x items || x == y)
unfolding has
has-append x y [] = ground arith
has-append x y (z ∷ items) = ground (arith, has-append x y items)

pub has-delete :
    (x y : ℕ) (items : List ℕ)
    → has ◌==◌ x (delete ◌==◌ y items) ≡ (has ◌==◌ x items && not (x == y))
unfolding has delete
has-delete x y [] = refl
has-delete x y (z ∷ items) = ground (arith, has-delete x y items)

pub has-add :
    (x y : ℕ) (s : Set ℕ) → has ◌==◌ x (values (add ◌==◌ y s)) ≡ (has ◌==◌ x (values s) || x == y)
unfolding add values
has-add x y s = elim (Bool-cases (has ◌==◌ y s.items)) [
  | inl e ↦ ground (arith, e)
  | inr e ↦ rw e (has-append x y s.items)
]

-- The operations keep the invariant of the representation.
append-Distinct :
    (x : ℕ) (items : List ℕ)
    → has ◌==◌ x items ≡ false
    → Distinct items
    → Distinct (items ++ x ∷ [])
unfolding has
append-Distinct x [] absent h = (refl, tt)
append-Distinct x (y ∷ items) absent h = (
  rw (has-append y x items) (ground (arith, absent, h.0)),
  append-Distinct x items (ground (arith, absent)) h.1,
)

delete-Distinct : (x : ℕ) (items : List ℕ) → Distinct items → Distinct (delete ◌==◌ x items)
unfolding delete
delete-Distinct x [] h = tt
delete-Distinct x (y ∷ items) h = elim (Bool-cases (x == y)) [
  | inl same ↦ rw same (delete-Distinct x items h.1)
  | inr other ↦ rw other (rw (has-delete y x items, h.0) refl, delete-Distinct x items h.1)
]

pub add-Distinct : (x : ℕ) (s : Set ℕ) → Distinct (values s) → Distinct (values (add ◌==◌ x s))
unfolding add values
add-Distinct x s h = elim (Bool-cases (has ◌==◌ x s.items)) [
  | inl there ↦ rw there h
  | inr absent ↦ rw absent (append-Distinct x s.items absent h)
]

pub remove-Distinct :
    (x : ℕ) (s : Set ℕ) → Distinct (values s) → Distinct (values (remove ◌==◌ x s))
unfolding remove values
remove-Distinct x s h = delete-Distinct x s.items h
