-- ===== src/App/Stocker/Laws.antt =====
-- What a restock request does to the stock.
use kenshu_elaris_project_st.Base.{
  leb_ℤ, not, String, ◌≡◌, refl, ap, ◌∙◌, ◌++◌, Bool, true, false, Bool-cases, Option, none, some,
  inl, inr, List, [], ◌∷◌, lookup, if◌then◌else◌,
}
use kenshu_elaris_project_st.Domain.Errors.{Error, Result, ok, err}
use kenshu_elaris_project_st.Domain.Documents.{StockItem, RestockRequest}
use kenshu_elaris_project_st.App.World.{World, info}
use kenshu_elaris_project_st.App.Stocker.{
  minimum_stock_quantity, stock_replenishment_quantity, StockerState, restock_found, restock_each,
  restock_some, restock_from, restock_answer, work,
}

-- The snapshot lists the item with less than the minimum.
abbrev pub is_low : Option StockItem → Bool
is_low none = false
is_low (some item) = not (leb_ℤ minimum_stock_quantity item.quantity)

-- The requested names that are low in the snapshot, in the order of the request.
abbrev pub low_items : List (String × StockItem) → List String → List String
low_items stock [] = []
low_items stock (name ∷ names) =
    if is_low (lookup name stock) then name ∷ low_items stock names else low_items stock names

module _ {D : Type 0} (s : StockerState D) where
  -- A restock of each name in turn, whatever the calls answer, and the others do in between.
  abbrev pub restock_all : List String → D → D
  restock_all [] x = x
  restock_all (name ∷ names) x =
      restock_all names
        (s.stock_repo.restock_item name stock_replenishment_quantity (s.meanwhile x)).1

  -- The state that a request of some names leaves, for what `GetStock` answered, and that any
  -- request leaves.
  abbrev pub restocked_state : List String → Result (List (String × StockItem)) → D → D
  restocked_state names (err e) x = x
  restocked_state names (ok stock) x = restock_all (low_items stock names) x

  abbrev pub restock_spec : List String → D → D
  restock_spec [] x = x
  restock_spec (name ∷ names) x =
      restocked_state (name ∷ names) (s.stock_repo.get_stock x).0 (s.stock_repo.get_stock x).1

  restock_answer-ext : (e : Option Error) (w : World D) → (restock_answer s e w).1.ext ≡ w.ext
  unfolding restock_answer
  restock_answer-ext none w = refl
  restock_answer-ext (some e) w = refl

  restock_found-ext :
      (name : String) (o : Option StockItem) (w : World D)
      → (restock_found s name o w).1.ext ≡ (
          if is_low o
          then (s.stock_repo.restock_item name stock_replenishment_quantity (s.meanwhile w.ext)).1
          else w.ext)
  unfolding restock_found
  restock_found-ext name none w = refl
  restock_found-ext name (some item) w =
      elim (Bool-cases (leb_ℤ minimum_stock_quantity item.quantity)) [
        | inl e ↦ rw e
        | inr e ↦ rw e (restock_answer-ext _ _)
      ]

  restock_each-ext :
      (stock : List (String × StockItem)) (names : List String) (w : World D)
      → (restock_each s stock names w).1.ext ≡ restock_all (low_items stock names) w.ext
  unfolding restock_each
  restock_each-ext stock [] w = refl
  restock_each-ext stock (name ∷ names) w =
      restock_each-ext stock names (restock_found s name (lookup name stock) w).1
      ∙ ap (restock_all (low_items stock names)) (restock_found-ext name (lookup name stock) w)
      ∙ branch (is_low (lookup name stock))
    where
      branch :
          (b : Bool)
          → restock_all (low_items stock names) (
              if b
              then (s.stock_repo.restock_item name stock_replenishment_quantity
                  (s.meanwhile w.ext)).1
              else w.ext)
            ≡ restock_all (if b then name ∷ low_items stock names else low_items stock names) w.ext
      branch true = refl
      branch false = refl

  -- A restock request reads the stock once and then restocks exactly the requested names that the
  -- snapshot lists with less than the minimum, each by one call of `RestockItem`, in the order of
  -- the request, whatever those calls answer and the others do between them; with no names it calls nothing, and if the snapshot
  -- cannot be read it restocks nothing.
  pub work-ext :
      (request : RestockRequest) (w : World D)
      → (work s request w).1.ext ≡ restock_spec request.items_name w.ext
  unfolding work
  work-ext request w = some_names request.items_name w'
    where
      w' : World D
      w' = record w { log = w.log ++ info "stocker started to workFn on restock request" ∷ [] }

      fetched :
          (names : List String) (stock : Result (List (String × StockItem))) (v : World D)
          → (restock_from s names stock v).1.ext ≡ restocked_state names stock v.ext
      fetched names (err e) v = refl
      fetched names (ok stock) v = restock_each-ext stock names v

      some_names :
          (names : List String) (v : World D)
          → (restock_some s names v).1.ext ≡ restock_spec names v.ext
      some_names [] v = refl
      some_names (name ∷ names) v = fetched (name ∷ names) (s.stock_repo.get_stock v.ext).0 _
