-- ===== src/App/Housekeeper/Status.antt =====
-- Which cleaning status a request leaves the cottage with.
use kenshu_elaris_project_st.Base.{
  ℤ, String, ◌≡◌, refl, sym, ◌∙◌, subst, Option, none, some, str_eq, if◌then◌else◌, List, [], ◌∷◌,
  ◌++◌, append_assoc,
}
use kenshu_elaris_project_st.Domain.Errors.{Error, Result, ok, err, as_stock_insufficient}
use kenshu_elaris_project_st.Domain.Documents.{
  CleaningRequest, status_prepared_for_guest, status_daily_cleaned, status_prepared_for_sleep,
  status_fully_cleaned,
}
use kenshu_elaris_project_st.Port.CottageContract.{CottageContract, Updated}
use kenshu_elaris_project_st.App.World.{World, Entry, failure, call}
use kenshu_elaris_project_st.App.Housekeeper.Cases.{
  Case, guest, daily, full, sleep, unknown, tasks-Case,
}
use kenshu_elaris_project_st.App.Housekeeper.{
  Housekeeper, action, consume_answer, action_consume_item, log_failure, retry, on_error,
  after_first, action_consume_item_retry, update_cleaning_status, action_laundry, prepare_for_guest,
  daily_cleaning, full_cleaning, prepare_for_sleep, tasks, finish, start, work,
}

-- The status that a request of each known type is to leave.
abbrev pub target : CleaningRequest → Option String
target request =
    if str_eq request.request_type "PREPARE_FOR_GUEST"
    then some status_prepared_for_guest
    else if str_eq request.request_type "DAILY_CLEANING"
    then some status_daily_cleaned
    else if str_eq request.request_type "FULL_CLEANING"
    then some status_fully_cleaned
    else if str_eq request.request_type "PREPARE_FOR_SLEEP"
    then some status_prepared_for_sleep
    else none

-- The clock, the stock, the stoker and, between the calls, the others leave the status of a room alone.
pub record KeepsStatus {D : Type 0} (h : Housekeeper D) (status : D → String → Option String)
    (room : String) : Type 0 where
  pub now_keeps : (x : D) → status (h.clock.now x).1 room ≡ status x room
  pub consume_keeps :
      (item : String) (quantity : ℤ) (x : D)
      → status (h.stock_repo.consume_item item quantity x).1 room ≡ status x room
  pub restock_keeps :
      (item : String) (x : D) → status (h.stoker.immediate_restock item x).1 room ≡ status x room
  pub others_keep : (x : D) → status (h.meanwhile x) room ≡ status x room

-- The line that an error of the update leaves in the log.
abbrev pub Reported : Option Error → List Entry → Type 0
Reported none log = Unit
Reported (some e) log =
    (first : List Entry) × (last : List Entry) × (log
      ≡ first ++ failure "failed to update cleaning status" e ∷ last)

module _ {D : Type 0} (h : Housekeeper D) (k : CottageContract h.cottage_repo) where
  open k use {status}

  -- For the target of a request: the repository was asked, in a state in which the room still had its
  -- status, to set the target, with an answer that its contract allows; the room has the
  -- status that this call left, and the log tells of the error that it answered, if any.
  abbrev pub Reaches : String → Option String → Option String → World D → Type 0
  Reaches room none before w' = status w'.ext room ≡ before
  Reaches room (some target_status) before w' =
      (x : D) × (status x room ≡ before)
      × (let (e, y) = h.cottage_repo.update_cleaning_status room target_status x in
          Updated room target_status (status x) e (status y)
          × (status w'.ext room ≡ status y room)
          × Reported e w'.log)

  -- And for the answer of the first call of `Now`.
  abbrev pub StatusAfter : Result ℤ → CleaningRequest → Option String → World D → Type 0
  StatusAfter (err e) request before w' = status w'.ext request.room_name ≡ before
  StatusAfter (ok t) request before w' = Reaches request.room_name (target request) before w'

  Reported-append :
      (e : Option Error) (log more : List Entry) → Reported e log → Reported e (log ++ more)
  Reported-append none log more h' = tt
  Reported-append (some e) log more (first, last, is) =
      (first, last ++ more, rw is (append_assoc first _ more))

  Reaches-later :
      (room : String) (goal : Option String) (before : Option String) (v w : World D)
      (more : List Entry)
      → status w.ext room ≡ status v.ext room
      → w.log ≡ v.log ++ more
      → Reaches room goal before v
      → Reaches room goal before w
  Reaches-later room none before v w more same log r = same ∙ r
  Reaches-later room (some goal) before v w more same log (x, was, (allowed, left, reported)) = (
    x,
    was,
    (
      allowed,
      same ∙ left,
      subst (Reported (h.cottage_repo.update_cleaning_status room goal x).0) (sym log)
          (Reported-append _ v.log more reported),
    ),
  )

module _ {D : Type 0} (h : Housekeeper D) (k : CottageContract h.cottage_repo) (room : String)
    (keeps : KeepsStatus h k.status room) where
  open k use {status, update_lem}

  log_failure-status :
      (text : String) (e : Option Error) (w : World D)
      → status (log_failure h text e w).1.ext room ≡ status w.ext room
  unfolding log_failure
  log_failure-status text none w = refl
  log_failure-status text (some e) w = refl

  consume_answer-status :
      (name : String) (e : Option Error) (w : World D)
      → status (consume_answer h name e w).1.ext room ≡ status w.ext room
  unfolding consume_answer
  consume_answer-status name none w = refl
  consume_answer-status name (some e) w = refl

  consume-status :
      (name item : String) (quantity : ℤ) (w : World D)
      → status (action_consume_item h name item quantity w).1.ext room ≡ status w.ext room
  unfolding action_consume_item
  consume-status name item quantity w =
      consume_answer-status name _ _
      ∙ keeps.consume_keeps item quantity (h.meanwhile w.ext)
      ∙ keeps.others_keep w.ext

  retry-status :
      (name item : String) (quantity : ℤ) (e : Option Error) (w : World D)
      → status (retry h name item quantity e w).1.ext room ≡ status w.ext room
  unfolding retry
  retry-status name item quantity (some e) w = refl
  retry-status name item quantity none w =
      log_failure-status "failed to consume item after restock" _ _
      ∙ consume-status name item quantity w

  on_error-status :
      (name item : String) (quantity : ℤ) (e : Error) (o : Option (String × ℤ)) (w : World D)
      → status (on_error h name item quantity e o w).1.ext room ≡ status w.ext room
  unfolding on_error
  on_error-status name item quantity e none w = refl
  on_error-status name item quantity e (some _) w =
      retry-status name item quantity (h.stoker.immediate_restock item (h.meanwhile w.ext)).0 _
      ∙ keeps.restock_keeps item (h.meanwhile w.ext)
      ∙ keeps.others_keep w.ext

  after_first-status :
      (name item : String) (quantity : ℤ) (e : Option Error) (w : World D)
      → status (after_first h name item quantity e w).1.ext room ≡ status w.ext room
  unfolding after_first
  after_first-status name item quantity none w = refl
  after_first-status name item quantity (some e) w =
      on_error-status name item quantity e (as_stock_insufficient e) w

  consume_retry-status :
      (name item : String) (quantity : ℤ) (w : World D)
      → status (action_consume_item_retry h name item quantity w).1.ext room ≡ status w.ext room
  unfolding action_consume_item_retry
  consume_retry-status name item quantity w =
      after_first-status name item quantity _ (action_consume_item h name item quantity w).1
      ∙ consume-status name item quantity w

  log_failure-Reported :
      (e : Option Error) (v : World D)
      → Reported e (log_failure h "failed to update cleaning status" e v).1.log
  unfolding log_failure
  log_failure-Reported none v = tt
  log_failure-Reported (some e) v = (v.log, [], refl)

  -- The update at the end of a task, in a world where the room's status is still that of the beginning.
  update-Reaches :
      (new_status : String) (before : Option String) (w : World D)
      → status w.ext room ≡ before
      → Reaches h k room (some new_status) before (update_cleaning_status h room new_status w).1
  unfolding update_cleaning_status
  update-Reaches new_status before w same =
      let x : D = h.meanwhile w.ext in
      let (e, y) = h.cottage_repo.update_cleaning_status room new_status x in
      (
        x,
        keeps.others_keep w.ext ∙ same,
        (
          update_lem room new_status x,
          log_failure-status "failed to update cleaning status" e (record w { ext = y }),
          log_failure-Reported e (record w { ext = y }),
        ),
      )

  tasks-Reaches :
      (request : CleaningRequest) (before : Option String) (w : World D)
      → request.room_name ≡ room
      → status w.ext room ≡ before
      → Case h request
      → Reaches h k room (target request) before (tasks h request w).1
  unfolding prepare_for_guest daily_cleaning full_cleaning prepare_for_sleep action action_laundry
  tasks-Reaches request before w in_room same (guest is e) =
      rw (e, is, in_room)
        (update-Reaches status_prepared_for_guest before _
          (consume_retry-status _ _ _ _ ∙ consume_retry-status _ _ _ _ ∙ same))
  tasks-Reaches request before w in_room same (daily is e) =
      rw (e, is, in_room)
        (update-Reaches status_daily_cleaned before _ (consume_retry-status _ _ _ _ ∙ same))
  tasks-Reaches request before w in_room same (full is e) =
      rw (e, is, in_room)
        (update-Reaches status_fully_cleaned before _ (consume_retry-status _ _ _ _ ∙ same))
  tasks-Reaches request before w in_room same (sleep is e) =
      rw (e, is, in_room)
        (update-Reaches status_prepared_for_sleep before _
          (consume_retry-status _ _ _ _ ∙ consume_retry-status _ _ _ _ ∙ same))
  tasks-Reaches request before w in_room same (unknown a b c d e) = rw (e, a, b, c, d) same

  finish-status :
      (t : Result ℤ) (w : World D) → status (finish h t w).1.ext room ≡ status w.ext room
  unfolding finish
  finish-status (ok t) w = refl
  finish-status (err e) w = refl

  finish-log :
      (t : Result ℤ) (w : World D) → (more : List Entry) × ((finish h t w).1.log ≡ w.log ++ more)
  unfolding finish
  finish-log (ok t) w = (_, refl)
  finish-log (err e) w = (_, refl)

  finished-Reaches :
      (goal : Option String) (before : Option String) (w : World D)
      → Reaches h k room goal before w
      → let (t, v) = call h.clock.now w in Reaches h k room goal before (finish h t v).1
  finished-Reaches goal before w r =
      let (t, v) = call h.clock.now w in
      let (more, log) = finish-log t v in
      Reaches-later h k room goal before w (finish h t v).1 more
        (finish-status t v ∙ keeps.now_keeps w.ext) log r

-- If nobody else changes the status of the room in the meantime: unless the first call of the clock
-- fails, in which case the room keeps its status, a cleaning request of a known type makes, in a
-- state in which the room still has its status, the call of `UpdateCleaningStatus` for its room
-- and the status of its type, also when the items that the cleaning needs could not be had; the room
-- ends with the status that this call left, as the contract of the repository allows, and an error
-- that it answered stands in the log. A request of any other type leaves the room its status.
pub work-StatusAfter :
    {D : Type 0} (h : Housekeeper D) (k : CottageContract h.cottage_repo)
    (request : CleaningRequest) (w : World D)
    → KeepsStatus h k.status request.room_name
    → StatusAfter h k
        (h.clock.now w.ext).0
        request
        (k.status w.ext request.room_name)
        (work h request w).1
unfolding work start
work-StatusAfter h k request w keeps =
    started (h.clock.now w.ext).0 (record w { ext = (h.clock.now w.ext).1 }) (keeps.now_keeps w.ext)
  where
    started :
        (t : Result ℤ) (v : World _)
        → k.status v.ext request.room_name ≡ k.status w.ext request.room_name
        → StatusAfter h k t request (k.status w.ext request.room_name) (start h request t v).1
    started (err e) v same = same
    started (ok t) v same =
        finished-Reaches h k request.room_name keeps (target request) _ _
          (tasks-Reaches h k request.room_name keeps request _ _ refl same (tasks-Case h request))
