-- ===== src/App/Housekeeper/Laundry.antt =====
-- Which wash requests a cleaning request sends to the launderers.
use kenshu_elaris_project_st.Base.{
  ℤ, String, ◌≡◌, refl, sym, ◌∙◌, Option, none, some, List, [], ◌∷◌, ◌++◌, str_eq, if◌then◌else◌,
  append-nil, append_assoc,
}
use kenshu_elaris_project_st.Domain.Errors.{Error, Result, ok, err, as_stock_insufficient}
use kenshu_elaris_project_st.Domain.Documents.{CleaningRequest, WashRequest}
use kenshu_elaris_project_st.App.World.{World}
use kenshu_elaris_project_st.App.Housekeeper.Cases.{
  Case, guest, daily, full, sleep, unknown, tasks-Case,
}
use kenshu_elaris_project_st.App.Housekeeper.{
  Housekeeper, action, consume_answer, action_consume_item, log_failure, retry, on_error,
  after_first, action_consume_item_retry, update_cleaning_status, action_laundry, prepare_for_guest,
  daily_cleaning, full_cleaning, prepare_for_sleep, tasks, finish, start, work,
}

-- The wash requests of a cleaning request: towels for a daily one, towels and linens for a full one.
abbrev pub wash_orders : CleaningRequest → List WashRequest
wash_orders request =
    if str_eq request.request_type "DAILY_CLEANING"
    then record { room_name = request.room_name; item = "towels" } ∷ []
    else if str_eq request.request_type "FULL_CLEANING"
    then record { room_name = request.room_name; item = "towels" }
      ∷ record { room_name = request.room_name; item = "linens" }
      ∷ []
    else []

-- What was sent to the launderers by the end, for the answer of the first call of `Now`.
abbrev pub washes_after : Result ℤ → CleaningRequest → List WashRequest → List WashRequest
washes_after (err e) request before = before
washes_after (ok t) request before = before ++ wash_orders request

module _ {D : Type 0} (h : Housekeeper D) where
  log_failure-washes :
      (text : String) (e : Option Error) (w : World D)
      → (log_failure h text e w).1.washes ≡ w.washes
  unfolding log_failure
  log_failure-washes text none w = refl
  log_failure-washes text (some e) w = refl

  consume_answer-washes :
      (name : String) (e : Option Error) (w : World D)
      → (consume_answer h name e w).1.washes ≡ w.washes
  unfolding consume_answer
  consume_answer-washes name none w = refl
  consume_answer-washes name (some e) w = refl

  consume-washes :
      (name item : String) (quantity : ℤ) (w : World D)
      → (action_consume_item h name item quantity w).1.washes ≡ w.washes
  unfolding action_consume_item
  consume-washes name item quantity w = consume_answer-washes name _ _

  retry-washes :
      (name item : String) (quantity : ℤ) (e : Option Error) (w : World D)
      → (retry h name item quantity e w).1.washes ≡ w.washes
  unfolding retry
  retry-washes name item quantity (some e) w = refl
  retry-washes name item quantity none w =
      log_failure-washes _ _ _ ∙ consume-washes name item quantity w

  on_error-washes :
      (name item : String) (quantity : ℤ) (e : Error) (o : Option (String × ℤ)) (w : World D)
      → (on_error h name item quantity e o w).1.washes ≡ w.washes
  unfolding on_error
  on_error-washes name item quantity e none w = refl
  on_error-washes name item quantity e (some _) w = retry-washes name item quantity _ _

  after_first-washes :
      (name item : String) (quantity : ℤ) (e : Option Error) (w : World D)
      → (after_first h name item quantity e w).1.washes ≡ w.washes
  unfolding after_first
  after_first-washes name item quantity none w = refl
  after_first-washes name item quantity (some e) w =
      on_error-washes name item quantity e (as_stock_insufficient e) w

  consume_retry-washes :
      (name item : String) (quantity : ℤ) (w : World D)
      → (action_consume_item_retry h name item quantity w).1.washes ≡ w.washes
  unfolding action_consume_item_retry
  consume_retry-washes name item quantity w =
      after_first-washes name item quantity _ _ ∙ consume-washes name item quantity w

  update-washes :
      (room status : String) (w : World D)
      → (update_cleaning_status h room status w).1.washes ≡ w.washes
  unfolding update_cleaning_status
  update-washes room status w = log_failure-washes _ _ _

  ruleset washes = (consume_retry-washes, update-washes)

  guest-washes : (room : String) (w : World D) → (prepare_for_guest h room w).1.washes ≡ w.washes
  unfolding prepare_for_guest action
  guest-washes room w = simp (washes)

  daily-washes :
      (room : String) (w : World D)
      → (daily_cleaning h room w).1.washes
        ≡ w.washes ++ record { room_name = room; item = "towels" } ∷ []
  unfolding daily_cleaning action action_laundry
  daily-washes room w = simp (washes)

  full-washes :
      (room : String) (w : World D)
      → (full_cleaning h room w).1.washes
        ≡ w.washes
          ++ record { room_name = room; item = "towels" }
            ∷ record { room_name = room; item = "linens" }
            ∷ []
  unfolding full_cleaning action action_laundry
  full-washes room w = simp (washes, append_assoc)

  sleep-washes : (room : String) (w : World D) → (prepare_for_sleep h room w).1.washes ≡ w.washes
  unfolding prepare_for_sleep action
  sleep-washes room w = simp (washes)

  tasks-washes :
      (request : CleaningRequest) (w : World D)
      → Case h request
      → (tasks h request w).1.washes ≡ w.washes ++ wash_orders request
  tasks-washes request w (guest is e) = rw (e, is) (guest-washes _ w ∙ sym (append-nil _))
  tasks-washes request w (daily is e) = rw (e, is) (daily-washes _ w)
  tasks-washes request w (full is e) = rw (e, is) (full-washes _ w)
  tasks-washes request w (sleep is e) = rw (e, is) (sleep-washes _ w ∙ sym (append-nil _))
  tasks-washes request w (unknown a b c d e) = rw (e, b, c) (sym (append-nil _))

  finish-washes : (t : Result ℤ) (w : World D) → (finish h t w).1.washes ≡ w.washes
  unfolding finish
  finish-washes (ok t) w = refl
  finish-washes (err e) w = refl

  start-washes :
      (request : CleaningRequest) (t : Result ℤ) (w : World D)
      → (start h request t w).1.washes ≡ washes_after t request w.washes
  unfolding start
  start-washes request (err e) w = refl
  start-washes request (ok t) w = finish-washes _ _ ∙ tasks-washes request _ (tasks-Case h request)

  -- Unless the first call of the clock fails, in which case it sends nothing, a cleaning request
  -- sends the launderers exactly its own wash requests in order: towels of the room for a daily
  -- cleaning, towels and then linens for a full one, and none for any other type, whatever the stock
  -- and the cottages answer.
  pub work-washes :
      (request : CleaningRequest) (w : World D)
      → (work h request w).1.washes ≡ washes_after (h.clock.now w.ext).0 request w.washes
  unfolding work
  work-washes request w = start-washes request (h.clock.now w.ext).0 _
