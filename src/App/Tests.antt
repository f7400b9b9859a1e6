-- ===== src/App/Tests.antt =====
-- The loops of the services and the messages they read, on small inputs.
use kenshu_elaris_project_st.Base.{
  ◌==◌, false, ℕ, ◌≤◌, pos, String, true, ◌≡◌, refl, none, some, List, [], ◌∷◌, is_space,
  trim_space, all_space, arith,
}
use kenshu_elaris_project_st.Domain.Errors.{Result, ok, err, foreign}
use kenshu_elaris_project_st.Domain.Documents.{managed_stock_item_names}
use kenshu_elaris_project_st.Domain.Set.{has, values}
use kenshu_elaris_project_st.Validation.{validate_error, not_blank, not_zero_value}
use kenshu_elaris_project_st.App.World.{World, acked, nacked}
use kenshu_elaris_project_st.App.Delivery.{Delivery, Broker}
use kenshu_elaris_project_st.App.Unmarshal.{
  TimeEvent, Proto, request_type_string, CleaningRequestMessage, unmarshal_cleaning_request,
  unmarshal_time_event,
}
use kenshu_elaris_project_st.App.Unmarshal.Laws.{Read, unmarshal_cleaning_request-Read}
use kenshu_elaris_project_st.App.TimeEvents
use kenshu_elaris_project_st.App.TimeEvents.{
  TimeEventNotificationService, Notified, register, unregister, notify_hour_change,
  notify_day_change,
}
use kenshu_elaris_project_st.App.TimeEvents.Registration.{
  unregister-register, Request, registers, unregisters, after_requests, after_requests-subscribed,
}
use kenshu_elaris_project_st.App.TimeEvents.Notify.{change-buffers}
use kenshu_elaris_project_st.App.TimeEvents.Settle.{loop-settled}
use kenshu_elaris_project_st.App.Manager
use kenshu_elaris_project_st.App.Manager.{Draws, select_items_to_restock}
use kenshu_elaris_project_st.App.Manager.Select.{length, count, select-count}
use kenshu_elaris_project_st.App.Manager.Dispatch.{effects, loop-effect}
use kenshu_elaris_project_st.Domain.Documents.{status_fully_cleaned, CleaningRequest}
use kenshu_elaris_project_st.App.Flow.{full, Cleaned, delivered-Cleaned}
use kenshu_elaris_project_st.Sample.Shop.{
  housekeeper, cottages-contract, housekeeper-KeepsStatus, world,
}

abbrev subscribers : TimeEventNotificationService
subscribers = record {
  hour_change_channels = record { items = 1 ∷ 2 ∷ [] };
  day_change_channels = record { items = 3 ∷ [] };
}

-- Channel 7 is registered for both events, and taken out of one.
abbrev calls : List Request
calls =
    registers "hour_change" (some 7)
    ∷ registers "day_change" (some 7)
    ∷ unregisters "hour_change" (some 7)
    ∷ unregisters "day_change" (some 3)
    ∷ []

unregister-register_example :
    unregister "hour_change" (some 7) (register "hour_change" (some 7) subscribers) ≡ subscribers
unfolding has values
unregister-register_example = unregister-register "hour_change" 7 subscribers refl refl

after_requests-subscribed_example :
    (has ◌==◌ 7 (values (after_requests calls subscribers).hour_change_channels) ≡ false)
    × (has ◌==◌ 7 (values (after_requests calls subscribers).day_change_channels) ≡ true)
unfolding has values
after_requests-subscribed_example = after_requests-subscribed 7 calls subscribers

-- Channel 2 is full.
abbrev notified : World (Notified (Unit {0}))
notified = record {
  ext = record {
    service = subscribers;
    buffers = λ c. TimeEvents.put 2 (pos 5) (λ d. []) c;
    outside = tt;
  };
  cleanings = [];
  washes = [];
  restocks = [];
  settled = [];
  log = [];
}

change-buffers_example :
    ((notify_hour_change (λ c. 1) (pos 9) notified).1.ext.buffers 3 ≡ [])
    × ((notify_day_change (λ c. 1) (pos 9) notified).1.ext.buffers 3 ≡ pos 9 ∷ [])
unfolding has values
change-buffers_example = change-buffers (λ c. 1) (pos 9) notified 3 (refl, (refl, tt)) (refl, tt)

-- Bodies of one byte: the instant, or the number of the type of a request for room A.
time_message : List ℕ → Result TimeEvent
time_message [] = err (foreign "empty")
time_message (n ∷ bytes) = ok (record { time = some (pos n) })

cleaning_message : List ℕ → Result CleaningRequestMessage
cleaning_message [] = err (foreign "empty")
cleaning_message (n ∷ bytes) = ok (record { room_name = "A"; request = pos n })

abbrev proto : Proto
proto = record {
  unmarshal_time_event = time_message;
  unmarshal_cleaning_request = cleaning_message;
  unnamed = λ n. "7";
}

abbrev broker : {D : Type 0} → Broker D
broker = record { ack = λ tag x. (none, x); nack = λ tag x. (some (foreign "closed"), x) }

abbrev full_cleaning : CleaningRequestMessage
full_cleaning = record { room_name = "A"; request = pos 3 }

unmarshal_cleaning_request-Read_example :
    Read proto full_cleaning (unmarshal_cleaning_request proto (3 ∷ []))
unfolding cleaning_message
unmarshal_cleaning_request-Read_example =
    unmarshal_cleaning_request-Read proto (3 ∷ []) full_cleaning refl

full_cleaning_read :
    unmarshal_cleaning_request proto (3 ∷ [])
    ≡ ok (record { room_name = "A"; request_type = "FULL_CLEANING" })
unfolding cleaning_message unmarshal_cleaning_request validate_error not_blank trim_space is_space
    request_type_string
full_cleaning_read = refl

-- A type with no name is accepted.
unnamed_read :
    unmarshal_cleaning_request proto (7 ∷ []) ≡ ok (record { room_name = "A"; request_type = "7" })
unfolding cleaning_message unmarshal_cleaning_request validate_error not_blank trim_space is_space
    request_type_string
unnamed_read = refl

abbrev delivery : ℕ → List ℕ → Delivery
delivery tag body = record { tag = tag; body = body }

loop-settled_example :
    (TimeEvents.loop
      (λ c. 1)
      proto
      broker
      (TimeEvents.hour_change (delivery 1 (8 ∷ []))
        ∷ TimeEvents.day_change (delivery 2 [])
        ∷ TimeEvents.context_done
        ∷ TimeEvents.hour_change (delivery 3 (9 ∷ []))
        ∷ [])
      notified).1.settled
    ≡ acked 1 ∷ nacked 2 ∷ []
unfolding time_message unmarshal_time_event validate_error not_zero_value
loop-settled_example =
    loop-settled (λ c. 1) proto broker
      (TimeEvents.hour_change (delivery 1 (8 ∷ []))
        ∷ TimeEvents.day_change (delivery 2 [])
        ∷ TimeEvents.context_done
        ∷ TimeEvents.hour_change (delivery 3 (9 ∷ []))
        ∷ [])
      notified

abbrev draws : Draws
draws = record { pairs = (8, 0) ∷ (7, 7) ∷ []; int_n = 1 }

select-count_example :
    (length (select_items_to_restock draws) ≡ 2)
    × ((name : String)
        → count name (select_items_to_restock draws) ≤ count name managed_stock_item_names)
select-count_example = select-count draws (omega arith)

selected : select_items_to_restock draws ≡ "chips" ∷ "soap" ∷ []
unfolding select_items_to_restock
selected = refl

abbrev manager : Manager.ManagerService (Unit {0})
manager = record {
  cleaning_event_consumer = record { consume = λ x. (none, x) };
  time_event_registry = record { register = λ t c x. x; unregister = λ t c x. x };
  stocker_ch = true;
}

abbrev empty_world : World (Unit {0})
empty_world = record {
  ext = tt;
  cleanings = [];
  washes = [];
  restocks = [];
  settled = [];
  log = [];
}

abbrev office : List (Manager.Event (Unit {0}))
office =
    Manager.cleaning (delivery 1 (2 ∷ []))
    ∷ Manager.cleaning (delivery 2 [])
    ∷ Manager.day_change draws
    ∷ Manager.cleaning_closed
    ∷ []

loop-effect_example : effects (Manager.loop proto broker manager 4 office empty_world).1 ≡ record {
  cleanings = record { room_name = "A"; request_type = "DAILY_CLEANING" } ∷ [];
  restocks = record { items_name = select_items_to_restock draws } ∷ [];
  settled = acked 1 ∷ nacked 2 ∷ [];
}
unfolding cleaning_message unmarshal_cleaning_request validate_error not_blank trim_space is_space
    request_type_string
loop-effect_example = loop-effect proto broker manager 4 office empty_world

delivered-Cleaned_example :
    (request : CleaningRequest) × (unmarshal_cleaning_request proto (3 ∷ []) ≡ ok request)
    × Cleaned proto housekeeper cottages-contract "A" status_fully_cleaned
        ("towels" ∷ "linens" ∷ [])
        request
        world
unfolding all_space is_space cleaning_message
delivered-Cleaned_example =
    delivered-Cleaned proto housekeeper cottages-contract full (3 ∷ []) full_cleaning refl refl refl
      world (housekeeper-KeepsStatus "A") refl
