-- ===== src/App/Launderer/Tests.antt =====
-- A launderer over the sample database.
use kenshu_elaris_project_st.Base.{
  pos, neg, ◌+ℤ◌, ◌-ℤ◌, ◌≡◌, refl, List, [], ◌∷◌, ◌++◌, some, is_space, trim_space,
}
use kenshu_elaris_project_st.Domain.Documents.{WashRequest, quantity_at, add_at, as_map}
use kenshu_elaris_project_st.Validation.{validate_error, not_blank, positive_value}
use kenshu_elaris_project_st.Mdb.StockRepo.{
  consume_item, stock_item_quantity_field, stock_document_exists,
}
use kenshu_elaris_project_st.App.World.{info}
use kenshu_elaris_project_st.App.Launderer.{
  Launderer, WashConfig, CycleEvent, hour, cycle_end, sub, washing_cycle, wash, work,
}
use kenshu_elaris_project_st.App.Launderer.Soap.{KeepsStock, Went, work-Washing}
use kenshu_elaris_project_st.Sample.{Database}
use kenshu_elaris_project_st.Sample.Shop.{
  shelf, world, housekeeper, shop-contract, restocker-contract,
}

-- Hour changes one and two hours after the start.
abbrev hours : List CycleEvent
hours = hour (pos 3600000000000) ∷ hour (pos 7200000000000) ∷ []

abbrev launderer : Launderer Database
launderer = record {
  clock = housekeeper.clock;
  hour_change = record { register = λ t c x. x; unregister = λ t c x. x };
  stock_repo = housekeeper.stock_repo;
  stocker = housekeeper.stoker;
  meanwhile = λ x. x;
}

keeps : KeepsStock launderer shop-contract.stock
keeps = record { register_keeps = λ ch x. refl; unregister_keeps = λ ch x. refl }

abbrev towels : WashRequest
towels = record { room_name = "A"; item = "towels" }

abbrev towels_config : WashConfig
towels_config = record { soap = pos 10; cycle_duration_in_hours = 1 }

work-Washing_example :
    Went launderer shop-contract 4 hours keeps restocker-contract "towels"
      (pos 0)
      towels_config
      (some shelf)
      ([] ++ info "launderer started to workFn on washing request" ∷ [])
      (work launderer 4 hours towels world)
work-Washing_example =
    work-Washing launderer shop-contract 4 hours keeps restocker-contract towels (pos 0)
      towels_config world refl refl

wash_log :
    (work launderer 4 hours towels world).1.log
    ≡ info "launderer started to workFn on washing request" ∷ info "launderer is done" ∷ []
unfolding work wash washing_cycle cycle_end sub consume_item stock_item_quantity_field
    stock_document_exists validate_error not_blank positive_value trim_space is_space quantity_at
    add_at as_map neg ◌+ℤ◌ ◌-ℤ◌
wash_log = refl
