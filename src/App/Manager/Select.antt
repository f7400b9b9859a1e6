-- ===== src/App/Manager/Select.antt =====
-- Which items a selection holds.
use kenshu_elaris_project_st.Base.{
  ℕ, zero, suc, ◌+◌, ◌<◌, ◌≤◌, String, ◌≡◌, refl, ap, ◌∙◌, Option, none, some, List, [], ◌∷◌,
  str_eq, if◌then◌else◌, arith,
}
use kenshu_elaris_project_st.Domain.Documents.{managed_stock_item_names}
use kenshu_elaris_project_st.App.Manager.{
  get, set, swap_found, swap, shuffle, take, Draws, select_items_to_restock,
}

-- How often a name stands in a list.
abbrev pub count : String → List String → ℕ
count name [] = 0
count name (item ∷ items) =
    let rest = count name items in if str_eq item name then suc rest else rest

one : String → String → ℕ
one item name = if str_eq item name then 1 else 0

count-set :
    (name : String) (i : ℕ) (old new : String) (items : List String)
    → get i items ≡ some old
    → count name (set i new items) + one old name ≡ count name items + one new name
unfolding one
count-set name i old new [] is = cc is
count-set name zero old new (item ∷ items) is = ground (arith, is)
count-set name (suc i) old new (item ∷ items) is = ground (arith, count-set name i old new items is)

get-set :
    (i j : ℕ) (b : String) (items : List String)
    → get j items ≡ some b
    → get j (set i b items) ≡ some b
get-set i j b [] is = is
get-set zero zero b (item ∷ items) is = refl
get-set zero (suc j) b (item ∷ items) is = is
get-set (suc i) zero b (item ∷ items) is = is
get-set (suc i) (suc j) b (item ∷ items) is = get-set i j b items is

count-swap_found :
    (name : String) (i j : ℕ) (x y : Option String) (items : List String)
    → get i items ≡ x
    → get j items ≡ y
    → count name (swap_found i j x y items) ≡ count name items
unfolding swap_found
count-swap_found name i j none y items at_i at_j = refl
count-swap_found name i j (some a) none items at_i at_j = refl
count-swap_found name i j (some a) (some b) items at_i at_j = omega (
  arith,
  count-set name i a b items at_i,
  count-set name j b a (set i b items) (get-set i j b items at_j),
)

count-shuffle :
    (name : String) (pairs : List (ℕ × ℕ)) (items : List String)
    → count name (shuffle pairs items) ≡ count name items
unfolding shuffle swap
count-shuffle name [] items = refl
count-shuffle name (pair ∷ pairs) items =
    count-shuffle name pairs (swap pair.0 pair.1 items)
    ∙ count-swap_found name pair.0 pair.1 (get pair.0 items) (get pair.1 items) items refl refl

abbrev pub length : List String → ℕ
length [] = 0
length (item ∷ items) = suc (length items)

length-set : (i : ℕ) (new : String) (items : List String) → length (set i new items) ≡ length items
length-set i new [] = refl
length-set zero new (item ∷ items) = refl
length-set (suc i) new (item ∷ items) = ap suc (length-set i new items)

length-swap_found :
    (i j : ℕ) (x y : Option String) (items : List String)
    → length (swap_found i j x y items) ≡ length items
unfolding swap_found
length-swap_found i j none y items = refl
length-swap_found i j (some a) none items = refl
length-swap_found i j (some a) (some b) items =
    length-set j a (set i b items) ∙ length-set i b items

length-shuffle :
    (pairs : List (ℕ × ℕ)) (items : List String) → length (shuffle pairs items) ≡ length items
unfolding shuffle swap
length-shuffle [] items = refl
length-shuffle (pair ∷ pairs) items =
    length-shuffle pairs (swap pair.0 pair.1 items)
    ∙ length-swap_found pair.0 pair.1 (get pair.0 items) (get pair.1 items) items

count-take :
    (name : String) (n : ℕ) (items : List String) → count name (take n items) ≤ count name items
count-take name zero items = omega arith
count-take name (suc n) [] = omega arith
count-take name (suc n) (item ∷ items) = ground (arith, count-take name n items)

length-take : (n : ℕ) (items : List String) → n ≤ length items → length (take n items) ≡ n
length-take zero items h = refl
length-take (suc n) [] h = omega (arith, h)
length-take (suc n) (item ∷ items) h = ap suc (length-take n items (omega (arith, h)))

-- Whatever pairs the shuffle swaps, a selection has one item more than the number drawn below nine,
-- so from one to nine; and it names no item more often than the managed items do: each managed item
-- at most once, and nothing else.
pub select-count :
    (draws : Draws)
    → draws.int_n < 9
    → (length (select_items_to_restock draws) ≡ draws.int_n + 1)
      × ((name : String)
          → count name (select_items_to_restock draws) ≤ count name managed_stock_item_names)
unfolding select_items_to_restock
select-count draws drawn = (
  length-take (draws.int_n + 1) (shuffle draws.pairs managed_stock_item_names)
      (omega (arith, drawn, length-shuffle draws.pairs managed_stock_item_names)),
  λ name. omega (
    arith,
    count-take name (draws.int_n + 1) (shuffle draws.pairs managed_stock_item_names),
    count-shuffle name draws.pairs managed_stock_item_names,
  ),
)
