-- ===== src/App/TimeEvents/Registration.antt =====
-- The sets of subscribers under `Register` and `Unregister`.
use kenshu_elaris_project_st.Base.{
  ℕ, ◌==◌, ◌∙◌, ◌&&◌, Bool, true, not, if◌then◌else◌, str_eq_iff, String, false, ◌≡◌, refl, ap,
  Bool-cases, inl, inr, Option, none, some, List, [], ◌∷◌, ◌++◌, str_eq, arith,
}
use kenshu_elaris_project_st.Domain.Set.{Set, has, delete, add, remove, values}
use kenshu_elaris_project_st.Domain.Set.Laws.{has-add, has-delete}
use kenshu_elaris_project_st.App.Registry.{time_event_hour_change, time_event_day_change}
use kenshu_elaris_project_st.App.TimeEvents.{TimeEventNotificationService, register, unregister}

delete-absent : (x : ℕ) (items : List ℕ) → has ◌==◌ x items ≡ false → delete ◌==◌ x items ≡ items
unfolding has delete
delete-absent x [] h = refl
delete-absent x (y ∷ items) h = ground (arith, h, delete-absent x items)

delete-append :
    (x : ℕ) (items : List ℕ) → has ◌==◌ x items ≡ false → delete ◌==◌ x (items ++ x ∷ []) ≡ items
unfolding has delete
delete-append x [] h = ground arith
delete-append x (y ∷ items) h = ground (arith, h, delete-append x items)

pub remove-add :
    (x : ℕ) (s : Set ℕ) → has ◌==◌ x (values s) ≡ false → remove ◌==◌ x (add ◌==◌ x s) ≡ s
unfolding add remove values
remove-add x s absent = rw absent (ap (λ i. record { items = i }) (delete-append x s.items absent))

-- A channel that was not registered for either event is registered and taken out again without a
-- trace, whatever the type of the event.
pub unregister-register :
    (event_type : String) (ch : ℕ) (s : TimeEventNotificationService)
    → has ◌==◌ ch (values s.hour_change_channels) ≡ false
    → has ◌==◌ ch (values s.day_change_channels) ≡ false
    → unregister event_type (some ch) (register event_type (some ch) s) ≡ s
unfolding register unregister
unregister-register event_type ch s no_hour no_day =
    elim (Bool-cases (str_eq event_type time_event_hour_change)) [
      | inl hour ↦ rw hour (
          ap (λ c. record { hour_change_channels = c; day_change_channels = s.day_change_channels })
            (remove-add ch s.hour_change_channels no_hour))
      | inr other_type ↦ elim (Bool-cases (str_eq event_type time_event_day_change)) [
        | inl day ↦
            rw (other_type, day)
              (ap
                (λ c. record {
                  hour_change_channels = s.hour_change_channels;
                  day_change_channels = c;
                })
                (remove-add ch s.day_change_channels no_day))
        | inr neither ↦ rw (other_type, neither) refl
      ]
    ]

-- What a client asks for: a registration or its end.
pub data Request : Type 0 where
  registers : (event_type : String) (ch : Option ℕ) → Request
  unregisters : (event_type : String) (ch : Option ℕ) → Request

abbrev after_request : Request → TimeEventNotificationService → TimeEventNotificationService
after_request (registers event_type ch) s = register event_type ch s
after_request (unregisters event_type ch) s = unregister event_type ch s

abbrev pub after_requests :
    List Request → TimeEventNotificationService → TimeEventNotificationService
after_requests [] s = s
after_requests (request ∷ requests) s = after_requests requests (after_request request s)

-- The request is about this channel, which is not nil, and this event.
abbrev about : (event : String) (ch : ℕ) → (event_type : String) → Option ℕ → Bool
about event ch event_type none = false
about event ch event_type (some other) = str_eq event_type event && ch == other

abbrev told : (event : String) (ch : ℕ) → Bool → Request → Bool
told event ch before (registers event_type other) =
    if about event ch event_type other then true else before
told event ch before (unregisters event_type other) =
    if about event ch event_type other then false else before

-- Whether a channel gets an event: what the last request about them said, and, if there was none, what
-- was so before.
abbrev pub subscribed : (event : String) (ch : ℕ) → Bool → List Request → Bool
subscribed event ch before [] = before
subscribed event ch before (request ∷ requests) =
    subscribed event ch (told event ch before request) requests

has-remove :
    (x y : ℕ) (s : Set ℕ)
    → has ◌==◌ x (values (remove ◌==◌ y s)) ≡ (has ◌==◌ x (values s) && not (x == y))
unfolding remove values
has-remove x y s = has-delete x y s.items

hour_told :
    (ch : ℕ) (request : Request) (s : TimeEventNotificationService)
    → has ◌==◌ ch (values (after_request request s).hour_change_channels)
      ≡ told time_event_hour_change ch (has ◌==◌ ch (values s.hour_change_channels)) request
unfolding register unregister
hour_told ch (registers event_type none) s = refl
hour_told ch (registers event_type (some other)) s =
    ground (arith, has-add ch other s.hour_change_channels)
hour_told ch (unregisters event_type none) s = refl
hour_told ch (unregisters event_type (some other)) s =
    ground (arith, has-remove ch other s.hour_change_channels)

day_told :
    (ch : ℕ) (request : Request) (s : TimeEventNotificationService)
    → has ◌==◌ ch (values (after_request request s).day_change_channels)
      ≡ told time_event_day_change ch (has ◌==◌ ch (values s.day_change_channels)) request
unfolding register unregister
day_told ch (registers event_type none) s = refl
day_told ch (registers event_type (some other)) s =
    elim (Bool-cases (str_eq event_type time_event_hour_change)) [
      | inl hour ↦ rw ((str_eq_iff event_type time_event_hour_change).0 hour) refl
      | inr no_hour ↦ rw no_hour (ground (arith, has-add ch other s.day_change_channels))
    ]
day_told ch (unregisters event_type none) s = refl
day_told ch (unregisters event_type (some other)) s =
    elim (Bool-cases (str_eq event_type time_event_hour_change)) [
      | inl hour ↦ rw ((str_eq_iff event_type time_event_hour_change).0 hour) refl
      | inr no_hour ↦ rw no_hour (ground (arith, has-remove ch other s.day_change_channels))
    ]

-- After any registrations and ends of registrations, of any types and channels and in any order, a
-- channel is among the subscribers of the hour change, and of the day change, exactly if the last
-- request about this channel and this event was a registration, or, if there was none, if it was so
-- before.
pub after_requests-subscribed :
    (ch : ℕ) (requests : List Request) (s : TimeEventNotificationService)
    → (has ◌==◌ ch (values (after_requests requests s).hour_change_channels)
        ≡ subscribed time_event_hour_change ch
            (has ◌==◌ ch (values s.hour_change_channels))
            requests)
      × (has ◌==◌ ch (values (after_requests requests s).day_change_channels)
          ≡ subscribed time_event_day_change ch
              (has ◌==◌ ch (values s.day_change_channels))
              requests)
after_requests-subscribed ch [] s = (refl, refl)
after_requests-subscribed ch (request ∷ requests) s =
    let (hours, days) = after_requests-subscribed ch requests (after_request request s) in
    (
      hours
          ∙ ap (λ before. subscribed time_event_hour_change ch before requests)
              (hour_told ch request s),
      days
          ∙ ap (λ before. subscribed time_event_day_change ch before requests)
              (day_told ch request s),
    )
