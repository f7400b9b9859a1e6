-- ===== src/App/Unmarshal.antt =====
-- internal/app/utils.go without its log lines, with the enumeration of
-- internal/domain/dto/cleaning_request.pb.go. `Proto` is the library of protocol buffers, which
-- decodes bodies and prints numbers that the enumeration does not name.
pub mod Laws
use kenshu_elaris_project_st.Base.{
  ℕ, ℤ, pos, negsuc, ◌==◌, String, Bool, true, false, Option, none, some, List, [], ◌∷◌,
  if◌then◌else◌,
}
use kenshu_elaris_project_st.Domain.Errors.{Error, Result, ok, err, validation_constrain}
use kenshu_elaris_project_st.Domain.Documents.{CleaningRequest}
use kenshu_elaris_project_st.Validation.{
  AnyValue, value, new, validate_error, not_zero_value, not_blank,
}

-- `GetTime()` is nil if the message has no time; else this is the instant of its `AsTime()`.
pub record TimeEvent : Type 0 where
  pub time : Option ℤ

-- `GetRequest()` is any number of 32 bits.
pub record CleaningRequestMessage : Type 0 where
  pub room_name : String
  pub request : ℤ

pub record Proto : Type 0 where
  pub unmarshal_time_event : List ℕ → Result TimeEvent
  pub unmarshal_cleaning_request : List ℕ → Result CleaningRequestMessage
  pub unnamed : ℤ → String

-- `RequestType_name`.
abbrev pub request_type_name : ℤ → Option String
request_type_name (pos n) =
    if n == 0
    then some "UNSPECIFIED"
    else if n == 1
    then some "PREPARE_FOR_GUEST"
    else if n == 2
    then some "DAILY_CLEANING"
    else if n == 3
    then some "FULL_CLEANING"
    else if n == 4
    then some "PREPARE_FOR_SLEEP"
    else none
request_type_name (negsuc n) = none

-- A pointer as a value of the type `any`: its zero value is nil.
abbrev pub pointer : {A : Type 0} → Option A → AnyValue
pointer none = value true
pointer (some x) = value false

module _ (p : Proto) where
  named_or : ℤ → Option String → String
  named_or n none = p.unnamed n
  named_or n (some name) = name

  -- `RequestType.String`.
  unfoldable pub request_type_string : ℤ → String
  unfolding named_or
  request_type_string n = named_or n (request_type_name n)

  -- The instant behind the check that there is one.
  instant : Option ℤ → Option Error → Result ℤ
  instant time (some e) = err e
  instant none none = err (validation_constrain "time" "must not be zero value")
  instant (some t) none = ok t

  time_of : Result TimeEvent → Result ℤ
  unfolding instant
  time_of (err e) = err e
  time_of (ok event) =
      instant event.time (validate_error (not_zero_value "time" (pointer event.time) new))

  unfoldable pub unmarshal_time_event : List ℕ → Result ℤ
  unfolding time_of
  unmarshal_time_event body = time_of (p.unmarshal_time_event body)

  unfoldable pub is_unspecified : ℤ → Bool
  is_unspecified (pos n) = n == 0
  is_unspecified (negsuc n) = false

  request_checked : CleaningRequestMessage → Option Error → Result CleaningRequest
  unfolding request_type_string is_unspecified
  request_checked message (some e) = err e
  request_checked message none =
      if is_unspecified message.request
      then err (validation_constrain "request" "must not be unspecified")
      else ok (record {
        room_name = message.room_name;
        request_type = request_type_string message.request;
      })

  request_of : Result CleaningRequestMessage → Result CleaningRequest
  unfolding request_checked
  request_of (err e) = err e
  request_of (ok message) =
      request_checked message (validate_error (not_blank "roomName" message.room_name new))

  unfoldable pub unmarshal_cleaning_request : List ℕ → Result CleaningRequest
  unfolding request_of
  unmarshal_cleaning_request body = request_of (p.unmarshal_cleaning_request body)
