-- ===== src/App/Flow.antt =====
-- The way of a cleaning request through the services: from the body of a delivery, over the manager
-- (internal/app/utils.go, manager_service.go) and a housekeeper (housekeeper_service.go), to the
-- channel of the launderers (launderer_service.go).
use kenshu_elaris_project_st.Base.{
  ℕ, ℤ, pos, String, ◌≡◌, refl, subst, ◌∙◌, ap, Bool-cases, inl, inr, false, some, List, [], ◌∷◌,
  ◌++◌, lookup, all_space, str_eq,
}
use kenshu_elaris_project_st.Domain.Errors.{Result, ok, err}
use kenshu_elaris_project_st.Domain.Documents.{
  CleaningRequest, WashRequest, status_prepared_for_guest, status_daily_cleaned,
  status_prepared_for_sleep, status_fully_cleaned,
}
use kenshu_elaris_project_st.Port.CottageContract.{CottageContract}
use kenshu_elaris_project_st.App.World.{World}
use kenshu_elaris_project_st.App.Unmarshal.{
  Proto, CleaningRequestMessage, request_type_string, is_unspecified, unmarshal_cleaning_request,
}
use kenshu_elaris_project_st.App.Unmarshal.Laws.{accepted-ok}
use kenshu_elaris_project_st.App.Housekeeper.{Housekeeper, work}
use kenshu_elaris_project_st.App.Housekeeper.Laundry.{wash_orders, washes_after, work-washes}
use kenshu_elaris_project_st.App.Housekeeper.Status.{
  KeepsStatus, StatusAfter, Reaches, target, work-StatusAfter,
}
use kenshu_elaris_project_st.App.Launderer.{WashConfig, wash_table}

-- The kinds of cleaning: the number in the message, the status that it leaves, and what it has washed.
pub data Kind : ℕ → String → List String → Type 0 where
  for_guest : Kind 1 status_prepared_for_guest []
  daily : Kind 2 status_daily_cleaned ("towels" ∷ [])
  full : Kind 3 status_fully_cleaned ("towels" ∷ "linens" ∷ [])
  for_sleep : Kind 4 status_prepared_for_sleep []

abbrev pub orders : String → List String → List WashRequest
orders room [] = []
orders room (item ∷ items) = record { room_name = room; item = item } ∷ orders room items

module _ {D : Type 0} (p : Proto) (h : Housekeeper D) (k : CottageContract h.cottage_repo) where
  -- The repository was asked to set the room's status, which is as it left it, and the launderers were
  -- sent the items.
  abbrev pub Cleaned : String → String → List String → CleaningRequest → World D → Type 0
  Cleaned room status items request w =
      let w' = (work h request w).1 in
      Reaches h k room (some status) (k.status w.ext room) w'
      × (w'.washes ≡ w.washes ++ orders room items)

  worked :
      (request : CleaningRequest) (w : World D) {t : ℤ}
      → KeepsStatus h k.status request.room_name
      → (h.clock.now w.ext).0 ≡ ok t
      → let w' = (work h request w).1 in
        Reaches h k request.room_name (target request) (k.status w.ext request.room_name) w'
        × (w'.washes ≡ w.washes ++ wash_orders request)
  worked request w keeps now = (
    subst (λ a. StatusAfter h k a request (k.status w.ext request.room_name) (work h request w).1)
        now (work-StatusAfter h k request w keeps),
    work-washes h request w ∙ ap (λ a. washes_after a request w.washes) now,
  )

  cleaned :
      {n : ℕ} {status : String} {items : List String}
      → Kind n status items
      → (room : String) (w : World D) {t : ℤ} → KeepsStatus h k.status room
      → (h.clock.now w.ext).0 ≡ ok t
      → Cleaned room status items
          (record { room_name = room; request_type = request_type_string p (pos n) })
          w
  unfolding request_type_string
  cleaned for_guest room w keeps now =
      worked (record { room_name = room; request_type = "PREPARE_FOR_GUEST" }) w keeps now
  cleaned daily room w keeps now =
      worked (record { room_name = room; request_type = "DAILY_CLEANING" }) w keeps now
  cleaned full room w keeps now =
      worked (record { room_name = room; request_type = "FULL_CLEANING" }) w keeps now
  cleaned for_sleep room w keeps now =
      worked (record { room_name = room; request_type = "PREPARE_FOR_SLEEP" }) w keeps now

  named :
      {n : ℕ} {status : String} {items : List String}
      → Kind n status items
      → is_unspecified p (pos n) ≡ false
  unfolding is_unspecified
  named for_guest = refl
  named daily = refl
  named full = refl
  named for_sleep = refl

  -- A delivery whose body decodes to a room that is not blank and to one of the four kinds of cleaning
  -- is read as a request, and a housekeeper whose clock answers, if nobody else changes the status of
  -- the room in the meantime, asks the repository, in a state in which the room still has its status,
  -- to set the status of the kind; the room ends with the status that this call left, as the contract
  -- allows, and an error that it answered stands in the log; and the launderers are sent the items of
  -- the kind, and nothing else: the names that the parts use for the kinds agree.
  pub delivered-Cleaned :
      {n : ℕ} {status : String} {items : List String}
      → Kind n status items
      → (body : List ℕ) (message : CleaningRequestMessage)
      → p.unmarshal_cleaning_request body ≡ ok message
      → all_space message.room_name ≡ false
      → message.request ≡ pos n
      → (w : World D) {t : ℤ} → KeepsStatus h k.status message.room_name
      → (h.clock.now w.ext).0 ≡ ok t
      → (request : CleaningRequest) × (unmarshal_cleaning_request p body ≡ ok request)
        × Cleaned message.room_name status items request w
  delivered-Cleaned {n} kind body message decoded room number w keeps now = (
    record { room_name = message.room_name; request_type = request_type_string p (pos n) },
    rw (← number) (accepted-ok p body message decoded room (rw number (named kind))),
    cleaned kind message.room_name w keeps now,
  )

-- The launderers know every item in a list of wash requests.
abbrev pub AllWashable : List WashRequest → Type 0
AllWashable [] = Unit
AllWashable (request ∷ requests) =
    ((c : WashConfig) × (lookup request.item wash_table ≡ some c)) × AllWashable requests

pub AllWashable-append :
    (xs ys : List WashRequest) → AllWashable xs → AllWashable ys → AllWashable (xs ++ ys)
AllWashable-append [] ys hx hy = hy
AllWashable-append (x ∷ xs) ys (known, hx) hy = (known, AllWashable-append xs ys hx hy)

pub orders-AllWashable : (request : CleaningRequest) → AllWashable (wash_orders request)
orders-AllWashable request = elim (Bool-cases (str_eq request.request_type "DAILY_CLEANING")) [
  | inl daily_type ↦ rw daily_type ((_, refl), tt)
  | inr other ↦ elim (Bool-cases (str_eq request.request_type "FULL_CLEANING")) [
    | inl full_type ↦ rw (other, full_type) ((_, refl), ((_, refl), tt))
    | inr neither ↦ rw (other, neither) tt
  ]
]

after-AllWashable :
    (t : Result ℤ) (request : CleaningRequest) (before : List WashRequest)
    → AllWashable before
    → AllWashable (washes_after t request before)
after-AllWashable (ok t) request before h =
    AllWashable-append before (wash_orders request) h (orders-AllWashable request)
after-AllWashable (err e) request before h = h

-- Whatever a cleaning request says and the ports answer: if the launderers know every item that was
-- sent to them so far, they know every item after a housekeeper's work on the request.
work-AllWashable :
    {D : Type 0} (h : Housekeeper D) (request : CleaningRequest) (w : World D)
    → AllWashable w.washes
    → AllWashable (work h request w).1.washes
work-AllWashable h request w known =
    rw (work-washes h request w) (after-AllWashable (h.clock.now w.ext).0 request w.washes known)
