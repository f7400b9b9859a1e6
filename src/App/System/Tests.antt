-- ===== src/App/System/Tests.antt =====
-- A day of three employees.
use kenshu_elaris_project_st.Base.{refl, [], ◌∷◌, arith}
use kenshu_elaris_project_st.Domain.Documents.{CleaningRequest, WashRequest}
use kenshu_elaris_project_st.App.Employee.{new_service}
use kenshu_elaris_project_st.App.Employee.Laws.{size}
use kenshu_elaris_project_st.App.Employee.Run.{taken, sent_to}
use kenshu_elaris_project_st.App.Employee.Run.Invariant.{Consistent}
use kenshu_elaris_project_st.App.Services.{no_cleaning_request, no_wash_request, no_restock_request}
use kenshu_elaris_project_st.App.System.{
  System, Moves, here, step, opened, request_received, dispatching, cleaning_sent,
}
use kenshu_elaris_project_st.App.System.Groups.{WithinCapacity, Moves-Consistent}
use kenshu_elaris_project_st.App.System.Laundry.{Conserved, Moves-Conserved}
use kenshu_elaris_project_st.App.System.Settled.{Settled, Moves-Settled}
use kenshu_elaris_project_st.App.System.Blocked.{Blocked, Blocked-forever}
use kenshu_elaris_project_st.App.System.Ended.{Over, Moves-Over}
use kenshu_elaris_project_st.App.System.Stuck.{Stuck}
use kenshu_elaris_project_st.App.System.Stuck.Jam.{Stuck-forever}
use kenshu_elaris_project_st.Sample.Staff.{port, small, one_of_each}

abbrev daily : CleaningRequest
daily = record { room_name = "A"; request_type = "DAILY_CLEANING" }

abbrev towels : WashRequest
towels = record { room_name = "A"; item = "towels" }

abbrev morning : System
morning = record (opened small) {
  housekeepers = record (opened small).housekeepers { requests = daily ∷ []; sent = daily ∷ [] };
}

asked : Moves (opened small) morning
unfolding new_service
asked =
    step (step here (request_received (opened small) daily refl)) (
      cleaning_sent (record (opened small) { manager = dispatching daily }) daily refl
        (omega arith))

Moves-Consistent_example :
    Consistent no_cleaning_request
      (size (new_service no_cleaning_request ("H" ∷ [])).employees)
      morning.housekeepers
    × Consistent no_wash_request
        (size (new_service no_wash_request ("L" ∷ [])).employees)
        morning.launderers
    × Consistent no_restock_request
        (size (new_service no_restock_request ("S" ∷ [])).employees)
        morning.stockers
    × WithinCapacity morning
Moves-Consistent_example =
    Moves-Consistent ("S" ∷ []) ("H" ∷ []) ("L" ∷ []) port port port port port port small
      one_of_each asked

Moves-Conserved_example : Conserved morning
Moves-Conserved_example = Moves-Conserved small asked

Moves-Settled_example : Settled ("H" ∷ []) morning
unfolding new_service
Moves-Settled_example =
    Moves-Settled morning "H" "L" "S" ("H" ∷ []) (Moves-Conserved small asked) refl (λ e. cc e) refl
      (λ e. cc e) refl (λ e. cc e)

-- The launderer washes the towels of the room.
abbrev washing : System
washing = record (opened small) {
  launderers = taken "L" towels [] (sent_to towels (opened small).launderers);
}

Stuck-forever_example :
    (t : System) × Moves washing t × Stuck "H" t × ((u : System) → Moves t u → Stuck "H" u)
unfolding new_service
Stuck-forever_example = Stuck-forever "H" "L" towels washing refl refl refl refl refl

abbrev evening_request : CleaningRequest
evening_request = record { room_name = "B"; request_type = "PREPARE_FOR_SLEEP" }

-- The housekeeper is inside a work that sends no laundry.
abbrev evening : System
evening = record (opened small) {
  housekeepers = taken "H" evening_request [] (sent_to evening_request (opened small).housekeepers);
  owed = ("H", []) ∷ [];
}

Blocked-forever_example :
    (t : System) × Moves evening t × Blocked t × ((u : System) → Moves t u → Blocked u)
unfolding new_service
Blocked-forever_example = Blocked-forever daily "H" evening_request evening refl refl refl refl

Moves-Over_example : Over ("H" ∷ []) ("L" ∷ []) ("S" ∷ []) morning
unfolding new_service
Moves-Over_example =
    Moves-Over morning "H" "L" "S" ("H" ∷ []) ("L" ∷ []) ("S" ∷ []) (Moves-Conserved small asked)
      refl (λ e. cc e) refl (λ e. cc e) refl (λ e. cc e)
