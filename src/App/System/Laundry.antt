-- ===== src/App/System/Laundry.antt =====
-- The wash requests on their way from the housekeepers to the launderers.
use kenshu_elaris_project_st.Base.{
  ℕ, ◌+◌, String, Bool, true, false, ◌≡◌, refl, ◌∙◌, sym, ap, subst, inl, inr, Bool-cases, Option,
  none, some, List, [], ◌∷◌, lookup, insert, str_eq, count, count-append, arith,
}
use kenshu_elaris_project_st.Domain.Documents.{CleaningRequest, WashRequest}
use kenshu_elaris_project_st.App.Employee.{EmployeeStatus}
use kenshu_elaris_project_st.App.Employee.Run.Start.{started}
use kenshu_elaris_project_st.App.Employee.Laws.{at_each, at_first}
use kenshu_elaris_project_st.App.Employee.Run.{Phase, selecting, handling, stopped}
use kenshu_elaris_project_st.App.Employee.Run.Progress.{Worker-sent}
use kenshu_elaris_project_st.App.Flow.{AllWashable, AllWashable-append, orders-AllWashable}
use kenshu_elaris_project_st.App.Services.{Services, no_wash_request}
use kenshu_elaris_project_st.App.System.{
  System, Move, request_received, day_changed, manager_returns, cleaning_sent, restock_sent,
  housekeeper_takes, wash_sent, housekeeper_finishes, housekeeper_stops, launderer_moves,
  stocker_moves, signalled, Moves, here, step, opened, orders_of,
}

-- How many of the wash requests that are owed pass a test.
abbrev pub owing : (WashRequest → Bool) → List (String × List WashRequest) → ℕ
owing test [] = 0
owing test (entry ∷ owed) = let rest = owing test owed in count test entry.1 + rest

-- What a test counts in a list that may be missing.
abbrev found : (WashRequest → Bool) → Option (List WashRequest) → ℕ
found test none = 0
found test (some washes) = count test washes

owing-insert :
    (test : WashRequest → Bool) (name : String) (washes : List WashRequest)
    (owed : List (String × List WashRequest))
    → owing test (insert name washes owed) + found test (lookup name owed)
      ≡ owing test owed + count test washes
owing-insert test name washes [] = omega arith
owing-insert test name washes (entry ∷ owed) = elim (Bool-cases (str_eq entry.0 name)) [
  | inl same ↦ rw same (omega arith)
  | inr other ↦ rw other (omega (arith, owing-insert test name washes owed))
]

-- What a housekeeper owes, by the place of its goroutine: something only inside work.
abbrev pub OwesAtWork : Option (Phase CleaningRequest) → Option (List WashRequest) → Type 0
OwesAtWork (some (handling request)) (some washes) = Unit
OwesAtWork (some (handling request)) none = false ≡ true
OwesAtWork _ none = Unit
OwesAtWork _ (some []) = Unit
OwesAtWork _ (some (wash ∷ washes)) = false ≡ true

abbrev KnownItems : Option (List WashRequest) → Type 0
KnownItems none = Unit
KnownItems (some washes) = AllWashable washes

-- What was sent and what is owed together are what the works were to send; only who is inside work
-- owes anything; and the launderers know every item.
pub record Conserved (s : System) : Type 0 where
  pub balance :
      (test : WashRequest → Bool)
      → count test s.launderers.sent + owing test s.owed ≡ count test s.ordered
  pub at_work :
      (name : String) → OwesAtWork (lookup name s.housekeepers.workers) (lookup name s.owed)
  pub owed_known : (name : String) → KnownItems (lookup name s.owed)
  pub sent_known : AllWashable s.launderers.sent

nothing_found :
    (test : WashRequest → Bool) (washes : Option (List WashRequest))
    → OwesAtWork (some selecting) washes
    → found test washes ≡ 0
nothing_found test none h = refl
nothing_found test (some []) h = refl
nothing_found test (some (wash ∷ washes)) h = cc h

orders_of-known :
    (clock_answers : Bool) (request : CleaningRequest)
    → AllWashable (orders_of clock_answers request)
orders_of-known true request = orders-AllWashable request
orders_of-known false request = tt

one_fewer :
    (phase : Option (Phase CleaningRequest)) (wash : WashRequest) (rest : List WashRequest)
    → OwesAtWork phase (some (wash ∷ rest))
    → OwesAtWork phase (some rest)
one_fewer none wash rest h = cc h
one_fewer (some selecting) wash rest h = cc h
one_fewer (some (handling request)) wash rest h = tt
one_fewer (some stopped) wash rest h = cc h

resting :
    (washes : Option (List WashRequest))
    → OwesAtWork (some selecting) washes
    → OwesAtWork (some stopped) washes
resting none h = tt
resting (some []) h = tt
resting (some (wash ∷ washes)) h = h

-- What does not touch the laundry keeps it in order.
untouched :
    (s t : System)
    → Conserved s
    → t.housekeepers.workers ≡ s.housekeepers.workers
    → t.launderers.sent ≡ s.launderers.sent
    → t.owed ≡ s.owed
    → t.ordered ≡ s.ordered
    → Conserved t
untouched s t c workers sent owed ordered = record {
  balance = λ test. rw (sent, owed, ordered) (c.balance test);
  at_work = λ name. rw (workers, owed) (c.at_work name);
  owed_known = λ name. rw owed (c.owed_known name);
  sent_known = rw sent c.sent_known;
}

pub Move-Conserved : {s t : System} → Move s t → Conserved s → Conserved t
Move-Conserved (request_received s request ready) c = untouched s _ c refl refl refl refl
Move-Conserved (day_changed s request ready) c = untouched s _ c refl refl refl refl
Move-Conserved (manager_returns s ready) c = untouched s _ c refl refl refl refl
Move-Conserved (cleaning_sent s request sending room) c = untouched s _ c refl refl refl refl
Move-Conserved (restock_sent s request sending room) c = untouched s _ c refl refl refl refl
Move-Conserved (housekeeper_takes s name request rest clock_answers at is) c =
    let orders : List WashRequest = orders_of clock_answers request in
    record {
      balance = λ test. omega (
        arith,
        c.balance test,
        owing-insert test name orders s.owed,
        nothing_found test (lookup name s.owed) (rw at at (c.at_work name)),
        count-append test s.ordered orders,
      );
      at_work =
          at_each OwesAtWork name (handling request) orders s.housekeepers.workers s.owed tt
            c.at_work;
      owed_known =
          at_first (λ washes other. KnownItems washes) name orders s.owed s.owed
            (orders_of-known clock_answers request) c.owed_known;
      sent_known = c.sent_known;
    }
Move-Conserved (wash_sent s name wash rest owes room) c =
    let known : AllWashable (wash ∷ rest) = rw owes at (c.owed_known name) in
    record {
      balance = λ test. omega (
        arith,
        c.balance test,
        rw owes at (owing-insert test name rest s.owed),
        count-append test (wash ∷ []) rest,
        count-append test s.launderers.sent (wash ∷ []),
      );
      at_work =
          at_first (λ washes phase. OwesAtWork phase washes) name rest s.owed s.housekeepers.workers
            (one_fewer (lookup name s.housekeepers.workers) wash rest (rw owes at (c.at_work name)))
            c.at_work;
      owed_known =
          at_first (λ washes other. KnownItems washes) name rest s.owed s.owed known.1 c.owed_known;
      sent_known = AllWashable-append s.launderers.sent (wash ∷ []) c.sent_known (known.0, tt);
    }
Move-Conserved (housekeeper_finishes s name request at done) c = record {
  balance = c.balance;
  at_work = at_first OwesAtWork name selecting s.housekeepers.workers s.owed (rw done tt) c.at_work;
  owed_known = c.owed_known;
  sent_known = c.sent_known;
}
Move-Conserved (housekeeper_stops s name at cancelled) c = record {
  balance = c.balance;
  at_work =
      at_first OwesAtWork name stopped s.housekeepers.workers s.owed
        (resting (lookup name s.owed) (rw at at (c.at_work name))) c.at_work;
  owed_known = c.owed_known;
  sent_known = c.sent_known;
}
Move-Conserved (launderer_moves s after worker) c = record {
  balance = λ test.
      ap (λ sent. count test sent + owing test s.owed) (Worker-sent no_wash_request worker)
      ∙ c.balance test;
  at_work = c.at_work;
  owed_known = c.owed_known;
  sent_known = subst AllWashable (sym (Worker-sent no_wash_request worker)) c.sent_known;
}
Move-Conserved (stocker_moves s after worker) c = untouched s _ c refl refl refl refl
Move-Conserved (signalled s) c = untouched s _ c refl refl refl refl

pub Moves-keep : {s t : System} → Moves s t → Conserved s → Conserved t
Moves-keep here c = c
Moves-keep (step moves move) c = Move-Conserved move (Moves-keep moves c)

started-OwesAtWork :
    (employees : List (String × EmployeeStatus CleaningRequest)) (name : String)
    → OwesAtWork (lookup name (started employees)) none
started-OwesAtWork [] name = tt
started-OwesAtWork (entry ∷ employees) name = elim (Bool-cases (str_eq entry.0 name)) [
  | inl same ↦ rw same tt
  | inr other ↦ rw other (started-OwesAtWork employees name)
]

-- At every moment after the start of the services, in whatever order all of them move: by any test,
-- as many wash requests were sent to the launderers as the works of the housekeepers were to send so
-- far, less those that they still owe; only a housekeeper inside work owes any; and the launderers
-- know the item of every wash request that was sent to them.
pub Moves-Conserved :
    {C K S Q : Type 0} (services : Services C K S Q) {t : System}
    → Moves (opened services) t
    → Conserved t
Moves-Conserved services moves = Moves-keep moves (record {
  balance = λ test. refl;
  at_work = started-OwesAtWork services.housekeeper_service.employee_service.employees;
  owed_known = λ name. tt;
  sent_known = tt;
})
