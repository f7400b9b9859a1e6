-- ===== src/Infra/Tracing.antt =====
-- internal/infra/telemetry/tracing.go: the spans of deliveries and of requests. A span is what the
-- library of OpenTelemetry is given for it; a value of the table of headers is of a type `V`, which
-- `fmt.Sprint` prints.
use kenshu_elaris_project_st.Base.{
  ℕ, ◌+◌, ◌-◌, ltb, ℤ, pos, negsuc, int_limit, String, Option, none, some, List, [], ◌∷◌, ◌++◌, map,
  concat, str_eq, lookup, insert, if◌then◌else◌,
}
use kenshu_elaris_project_st.Domain.Errors.{Error}

pub data AttributeValue : Type 0 where
  text : String → AttributeValue
  int64 : ℤ → AttributeValue

abbrev pub Attribute : Type 0
Attribute = String × AttributeValue

-- The fields of `amqp.Delivery` that are read; of the body, its length.
pub record DeliveryInfo (V : Type 0) : Type 0 where
  pub headers : List (String × V)
  pub routing_key : String
  pub exchange : String
  pub message_id : String
  pub correlation_id : String
  pub type_name : String
  pub body_size : ℕ
  pub delivery_tag : ℕ

pub record ConsumerSpan : Type 0 where
  pub name : String
  pub attributes : List Attribute

-- `int64(n)` of a number of 64 bits with no sign.
abbrev int64_of : ℕ → ℤ
int64_of n = if ltb n int_limit then pos n else negsuc (int_limit + int_limit - n - 1)

-- `RequestAttributes`.
abbrev pub request_attributes : String → Attribute
request_attributes employee_name = ("staff.employee.name", text employee_name)

unfoldable pub consumer_span_name : {V : Type 0} → String → DeliveryInfo V → String
consumer_span_name queue_name d =
    if str_eq d.routing_key ""
    then concat queue_name " receive"
    else concat queue_name (concat " receive " d.routing_key)

-- `if value != "" { attrs = append(attrs, ...) }`.
abbrev if_filled : (key value : String) → List Attribute
if_filled key value = if str_eq value "" then [] else (key, text value) ∷ []

unfoldable pub consumer_attributes : {V : Type 0} → String → DeliveryInfo V → List Attribute
consumer_attributes queue_name d =
    (("messaging.system", text "rabbitmq")
      ∷ ("messaging.operation", text "process")
      ∷ ("messaging.destination.name", text queue_name)
      ∷ ("messaging.rabbitmq.routing_key", text d.routing_key)
      ∷ ("messaging.message.body.size", int64 (pos d.body_size))
      ∷ ("messaging.rabbitmq.delivery_tag", int64 (int64_of d.delivery_tag))
      ∷ [])
    ++ if_filled "messaging.rabbitmq.exchange" d.exchange
    ++ if_filled "messaging.message.id" d.message_id
    ++ if_filled "messaging.message.conversation_id" d.correlation_id
    ++ if_filled "messaging.message.type" d.type_name

-- What `StartConsumerSpan` gives the library, besides the context that it reads the headers into.
unfoldable pub start_consumer_span : {V : Type 0} → DeliveryInfo V → String → ConsumerSpan
unfolding consumer_span_name consumer_attributes
start_consumer_span d queue_name = record {
  name = consumer_span_name queue_name d;
  attributes = consumer_attributes queue_name d;
}

-- `RecordSpanError`, on the errors that a span has so far.
unfoldable pub record_span_error : Option (List Error) → Option Error → Option (List Error)
record_span_error none e = none
record_span_error (some errors) none = some errors
record_span_error (some errors) (some e) = some (errors ++ e ∷ [])

-- The type `deliveryHeadersCarrier`.
module _ {V : Type 0} (sprint : V → String) where
  printed : Option V → String
  printed none = ""
  printed (some value) = sprint value

  unfoldable pub get : String → List (String × V) → String
  unfolding printed
  get key headers = printed (lookup key headers)

-- `text_value` makes a value of a text.
module _ {V : Type 0} (text_value : String → V) where
  unfoldable pub set : String → String → List (String × V) → List (String × V)
  set key value headers = insert key (text_value value) headers

unfoldable pub keys : {V : Type 0} → List (String × V) → List String
keys {V} headers = map (λ (entry : String × V). entry.0) headers

-- The names of the two tracers.
abbrev pub app_tracer_name : String
app_tracer_name = "github.com/Kenji-Uema/staffSimulator/internal/app"

abbrev pub consumer_tracer_name : String
consumer_tracer_name = "github.com/Kenji-Uema/staffSimulator/internal/infra/mq"

pub data SpanKind : Type 0 where
  internal : SpanKind
  consumer : SpanKind

-- What the library of OpenTelemetry does with a context `C`: it starts a span `S` of a tracer, and its
-- propagator reads a context out of a carrier, by the carrier's `Get`.
pub record Tracer (C S : Type 0) : Type 0 where
  pub start_span : (tracer_name span_name : String) → SpanKind → List Attribute → C → C × S
  pub extract : (get : String → String) → C → C

module _ {C S : Type 0} (tracer : Tracer C S) where
  unfoldable pub start_app_span : C → (name : String) → List Attribute → C × S
  start_app_span ctx name attrs = tracer.start_span app_tracer_name name internal attrs ctx

  -- `StartConsumerSpan`.
  unfoldable pub start_delivery_span :
      {V : Type 0} → (sprint : V → String) → C → DeliveryInfo V → (queue_name : String) → C × S
  unfolding start_consumer_span get
  start_delivery_span sprint ctx delivery queue_name =
      let span = start_consumer_span delivery queue_name in
      tracer.start_span consumer_tracer_name span.name consumer span.attributes
        (tracer.extract (λ key. get sprint key delivery.headers) ctx)
