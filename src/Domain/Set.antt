-- ===== src/Domain/Set.antt =====
-- domain/set_datatype.go. A set is a list of its members; the order in which Go walks the map is
-- unspecified, and this list is one such order. That no member stands in the list twice, which a map
-- gives by itself, is the invariant of this representation (`Laws.Distinct`), not a result on the code. `same` is Go's `==` of the members.
pub mod Laws
use kenshu_elaris_project_st.Base.{Bool, true, false, ◌||◌, List, [], ◌∷◌, ◌++◌, if◌then◌else◌}

pub record Set (T : Type 0) : Type 0 where
  pub items : List T

abbrev pub new_set : {T : Type 0} → Set T
new_set = record { items = [] }

module _ {T : Type 0} (same : T → T → Bool) where
  unfoldable pub has : T → List T → Bool
  has x [] = false
  has x (y ∷ items) = same x y || has x items

  unfoldable pub delete : T → List T → List T
  delete x [] = []
  delete x (y ∷ items) = let rest = delete x items in if same x y then rest else y ∷ rest

  unfoldable pub add : T → Set T → Set T
  unfolding has
  add x s = if has x s.items then s else record { items = s.items ++ x ∷ [] }

  unfoldable pub remove : T → Set T → Set T
  unfolding delete
  remove x s = record { items = delete x s.items }

unfoldable pub values : {T : Type 0} → Set T → List T
values s = s.items
