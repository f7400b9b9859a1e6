-- ===== src/App/Unmarshal/Laws.antt =====
-- Which messages are accepted.
use kenshu_elaris_project_st.Base.{
  ℕ, ℤ, pos, String, true, false, all_space, trim_space, trim_space-eq-nil, str_eq_iff, ◌≡◌, ◌≢◌,
  refl, Bool-cases, inl, inr, none, some, List, if◌then◌else◌, arith,
}
use kenshu_elaris_project_st.Domain.Errors.{Result, ok, err, validation_constrain}
use kenshu_elaris_project_st.Domain.Documents.{CleaningRequest}
use kenshu_elaris_project_st.Validation.{validate_error, not_blank, not_zero_value, new}
use kenshu_elaris_project_st.App.Unmarshal.{
  Proto, CleaningRequestMessage, TimeEvent, request_type_string, is_unspecified,
  unmarshal_cleaning_request, unmarshal_time_event,
}

-- What becomes of a message that the library decoded.
pub data Read (p : Proto) (message : CleaningRequestMessage) : Result CleaningRequest → Type 0 where
  blank_room :
      all_space message.room_name ≡ true
      → Read p message (err (validation_constrain "roomName" "must not be blank"))
  unspecified :
      all_space message.room_name ≡ false
      → message.request ≡ pos 0
      → Read p message (err (validation_constrain "request" "must not be unspecified"))
  accepted :
      all_space message.room_name ≡ false
      → message.request ≢ pos 0
      → Read p message (
          ok (record {
            room_name = message.room_name;
            request_type = request_type_string p message.request;
          }))

room-error :
    (room : String)
    → validate_error (not_blank "roomName" room new) ≡ (
        if all_space room then some (validation_constrain "roomName" "must not be blank") else none)
unfolding validate_error not_blank
room-error room = ground (arith, str_eq_iff (trim_space room) "", trim_space-eq-nil room)

unspecified_not : (p : Proto) (n : ℤ) → is_unspecified p n ≡ false → n ≢ pos 0
unfolding is_unspecified
unspecified_not p n h = ground (arith, h)

unspecified_zero : (p : Proto) (n : ℤ) → is_unspecified p n ≡ true → n ≡ pos 0
unfolding is_unspecified
unspecified_zero p n h = ground (arith, h)

-- A cleaning request that the library decodes is accepted exactly when its room has a character that
-- is no white space and its type is not the number zero; the type is then the name of the number, or
-- what the library prints for a number with no name. Else it is refused with the error of the first
-- rule that it breaks.
pub unmarshal_cleaning_request-Read :
    (p : Proto) (body : List ℕ) (message : CleaningRequestMessage)
    → p.unmarshal_cleaning_request body ≡ ok message
    → Read p message (unmarshal_cleaning_request p body)
unfolding unmarshal_cleaning_request
unmarshal_cleaning_request-Read p body message decoded =
    rw (decoded, room-error message.room_name)
      (elim (Bool-cases (all_space message.room_name)) [
        | inl blank ↦ rw blank (blank_room blank)
        | inr room ↦ rw room (elim (Bool-cases (is_unspecified p message.request)) [
          | inl zero_type ↦
              rw zero_type (unspecified room (unspecified_zero p message.request zero_type))
          | inr other ↦ rw other (accepted room (unspecified_not p message.request other))
        ])
      ])

-- A time event that the library decodes gives its instant, and is refused if it has none.
pub unmarshal_time_event-instant :
    (p : Proto) (body : List ℕ) (event : TimeEvent)
    → p.unmarshal_time_event body ≡ ok event
    → ((event.time ≡ none)
        → unmarshal_time_event p body ≡ err (validation_constrain "time" "must not be zero value"))
      × ((t : ℤ) → event.time ≡ some t → unmarshal_time_event p body ≡ ok t)
unfolding unmarshal_time_event validate_error not_zero_value
unmarshal_time_event-instant p body event decoded =
    (λ absent. rw (decoded, absent) refl, λ t present. rw (decoded, present) refl)

pub accepted-ok :
    (p : Proto) (body : List ℕ) (message : CleaningRequestMessage)
    → p.unmarshal_cleaning_request body ≡ ok message
    → all_space message.room_name ≡ false
    → is_unspecified p message.request ≡ false
    → unmarshal_cleaning_request p body
      ≡ ok (record {
        room_name = message.room_name;
        request_type = request_type_string p message.request;
      })
unfolding unmarshal_cleaning_request
accepted-ok p body message decoded room other =
    rw (decoded, room-error message.room_name, room, other) refl
