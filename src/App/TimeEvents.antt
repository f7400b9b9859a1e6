-- ===== src/App/TimeEvents.antt =====
-- internal/app/time_event_notification_service.go but for its constructor. A channel of instants is a
-- number. The locks make `Register`, `Unregister` and the reading of a set one step each.
pub mod Notify
pub mod Settle
pub mod Registration
use kenshu_elaris_project_st.Base.{
  ℕ, suc, ℤ, ltb, ◌==◌, String, Bool, true, false, Option, none, some, List, [], ◌∷◌, ◌++◌, str_eq,
  concat, if◌then◌else◌,
}
use kenshu_elaris_project_st.Domain.Errors.{Error, Result, ok, err}
use kenshu_elaris_project_st.Domain.Set.{Set, new_set, add, remove, values}
use kenshu_elaris_project_st.App.World.{
  info, warning, failure, World, Action, ◌>>=◌, ◌>>◌, skip, call, write,
}
use kenshu_elaris_project_st.App.Registry.{
  TimeEventRegistry, time_event_hour_change, time_event_day_change,
}
use kenshu_elaris_project_st.App.Delivery.{
  Delivery, Broker, MqConsumer, ack_delivery, nack_delivery,
}
use kenshu_elaris_project_st.App.Unmarshal.{Proto, unmarshal_time_event}

pub record TimeEventNotificationService : Type 0 where
  pub hour_change_channels : Set ℕ
  pub day_change_channels : Set ℕ

-- What the service acts on: its sets, what waits in each channel, and the broker behind.
pub record Notified (D : Type 0) : Type 0 where
  pub service : TimeEventNotificationService
  pub buffers : ℕ → List ℤ
  pub outside : D

abbrev pub length : List ℤ → ℕ
length [] = 0
length (t ∷ instants) = suc (length instants)

unfoldable pub register :
    String → Option ℕ → TimeEventNotificationService → TimeEventNotificationService
register event_type none s = s
register event_type (some ch) s =
    if str_eq event_type time_event_hour_change
    then record s { hour_change_channels = add ◌==◌ ch s.hour_change_channels }
    else if str_eq event_type time_event_day_change
    then record s { day_change_channels = add ◌==◌ ch s.day_change_channels }
    else s

unfoldable pub unregister :
    String → Option ℕ → TimeEventNotificationService → TimeEventNotificationService
unregister event_type none s = s
unregister event_type (some ch) s =
    if str_eq event_type time_event_hour_change
    then record s { hour_change_channels = remove ◌==◌ ch s.hour_change_channels }
    else if str_eq event_type time_event_day_change
    then record s { day_change_channels = remove ◌==◌ ch s.day_change_channels }
    else s

-- The buffers with one more instant in a channel.
abbrev pub put : ℕ → ℤ → (ℕ → List ℤ) → ℕ → List ℤ
put ch current_time buffers c = if ch == c then buffers c ++ current_time ∷ [] else buffers c

-- What the `select` of `Start` receives; `elsewhere` is a step of other goroutines in between.
pub data Event (D : Type 0) : Type 0 where
  context_done : Event D
  hour_change : Delivery → Event D
  hour_closed : Event D
  day_change : Delivery → Event D
  day_closed : Event D
  elsewhere : (Notified D → Notified D) → Event D

module _ {D : Type 0} where
  -- The service as the interface that its clients hold.
  abbrev pub registry : TimeEventRegistry (Notified D)
  registry = record {
    register = λ event_type ch x. record x { service = register event_type ch x.service };
    unregister = λ event_type ch x. record x { service = unregister event_type ch x.service };
  }

  -- `capacity` is what the channels were made with.
  module _ (capacity : ℕ → ℕ) where
    -- The `select` with a `default`: a channel that is full is passed over.
    unfoldable pub send_or_skip : String → ℤ → ℕ → Action (Notified D) (Unit {0})
    send_or_skip event_name current_time ch w =
        if ltb (length (w.ext.buffers ch)) (capacity ch)
        then (tt, record w { ext = record w.ext { buffers = put ch current_time w.ext.buffers } })
        else write (warning (concat "skipped " (concat event_name " event for busy subscriber"))) w

    unfoldable pub notify : ℤ → List ℕ → String → Action (Notified D) (Unit {0})
    notify current_time [] event_name = skip
    notify current_time (ch ∷ channels) event_name = do
      send_or_skip event_name current_time ch
      notify current_time channels event_name

    unfoldable pub notify_hour_change : ℤ → Action (Notified D) (Unit {0})
    unfolding notify values
    notify_hour_change current_time w =
        notify current_time (values w.ext.service.hour_change_channels) "hour change" w

    unfoldable pub notify_day_change : ℤ → Action (Notified D) (Unit {0})
    unfolding notify values
    notify_day_change current_time w =
        notify current_time (values w.ext.service.day_change_channels) "day change" w

    module _ (p : Proto) (b : Broker (Notified D)) where
      -- The cases of the `select`, behind the decoding of the body.
      hour_received : Delivery → Result ℤ → Action (Notified D) (Unit {0})
      unfolding notify_hour_change
      hour_received delivery (err e) = do
        write (failure "failed to unmarshal hour change event" e)
        nack_delivery b "hourChangeEvent" delivery
      hour_received delivery (ok current_time) = do
        ack_delivery b "hourChangeEvent" delivery
        notify_hour_change current_time

      day_received : Delivery → Result ℤ → Action (Notified D) (Unit {0})
      unfolding notify_day_change
      day_received delivery (err e) = do
        write (failure "failed to unmarshal day change event" e)
        nack_delivery b "dayChangeEvent" delivery
      day_received delivery (ok current_time) = do
        ack_delivery b "dayChangeEvent" delivery
        notify_day_change current_time

      other_goroutines : (Notified D → Notified D) → Action (Notified D) (Unit {0})
      other_goroutines f w = (tt, record w { ext = f w.ext })

      -- The loop of `Start` over the events it receives; after the last of them it waits.
      pub loop : List (Event D) → Action (Notified D) (Unit {0})
      unfolding hour_received day_received other_goroutines
      loop [] = skip
      loop (context_done ∷ events) = skip
      loop (hour_closed ∷ events) = write (info "hour change consumer closed")
      loop (day_closed ∷ events) = write (info "day change consumer closed")
      loop (elsewhere f ∷ events) = do other_goroutines f; loop events
      loop (hour_change delivery ∷ events) = do
        hour_received delivery (unmarshal_time_event p delivery.body)
        loop events
      loop (day_change delivery ∷ events) = do
        day_received delivery (unmarshal_time_event p delivery.body)
        loop events

      module _ (hour_change_client day_change_client : MqConsumer (Notified D))
          (events : List (Event D)) where
        day_consumed : Option Error → Action (Notified D) (Unit {0})
        day_consumed (some e) = write (failure "failed to consume day change events" e)
        day_consumed none = loop events

        hour_consumed : Option Error → Action (Notified D) (Unit {0})
        unfolding day_consumed
        hour_consumed (some e) = write (failure "failed to consume hour change events" e)
        hour_consumed none = call day_change_client.consume >>= day_consumed

        unfoldable pub start : Action (Notified D) (Unit {0})
        unfolding hour_consumed
        start = call hour_change_client.consume >>= hour_consumed
