-- ===== src/App/System/Blocked.antt =====
-- A manager who waits for room in a channel that nobody reads any more.
use kenshu_elaris_project_st.Base.{
  ℕ, zero, suc, ◌≤◌, String, true, ◌≡◌, refl, ◌∙◌, ap, some, [], ◌∷◌, lookup, str_eq_iff, length,
  length-append, arith,
}
use kenshu_elaris_project_st.Domain.Documents.{CleaningRequest}
use kenshu_elaris_project_st.App.Employee.Laws.{lookup-insert_same}
use kenshu_elaris_project_st.App.Employee.Run.{selecting, handling, finished, sent_to, halted}
use kenshu_elaris_project_st.App.Services.{no_cleaning_request}
use kenshu_elaris_project_st.App.System.Gone.{AllGone, none_waits, none_works, one_by_one-AllGone}
use kenshu_elaris_project_st.App.System.{
  System, receiving, dispatching, Move, request_received, day_changed, cleaning_sent, restock_sent,
  manager_returns, housekeeper_takes, wash_sent, housekeeper_finishes, housekeeper_stops,
  launderer_moves, stocker_moves, signalled, Moves, here, step, then_moves, Reached,
  cleaning_capacity,
}

-- The manager has a cleaning request to send, the channel of the housekeepers is full, and the
-- goroutine of every housekeeper has ended.
pub record Blocked (s : System) : Type 0 where
  pub request : CleaningRequest
  pub sending : s.manager ≡ dispatching request
  pub full : length s.housekeepers.requests ≡ cleaning_capacity
  pub nobody : AllGone s.housekeepers.workers

-- What leaves the manager and the housekeepers alone.
kept :
    {s : System} (t : System) (b : Blocked s)
    → t.manager ≡ s.manager
    → t.housekeepers.requests ≡ s.housekeepers.requests
    → t.housekeepers.workers ≡ s.housekeepers.workers
    → Blocked t
kept t b same_manager same_requests same_workers = record {
  request = b.request;
  sending = same_manager ∙ b.sending;
  full = ap length same_requests ∙ b.full;
  nobody = rw same_workers b.nobody;
}

Move-Blocked : {s t : System} → Move s t → Blocked s → Blocked t
Move-Blocked (request_received s request ready) b = absurd (cc (ready, b.sending))
Move-Blocked (day_changed s request ready) b = absurd (cc (ready, b.sending))
Move-Blocked (manager_returns s ready) b = absurd (cc (ready, b.sending))
Move-Blocked (cleaning_sent s request sending room) b = absurd (omega (arith, room, b.full))
Move-Blocked (restock_sent s request sending room) b = absurd (cc (sending, b.sending))
Move-Blocked (housekeeper_takes s name request rest clock_answers at is) b =
    none_waits name s.housekeepers.workers b.nobody at
Move-Blocked (wash_sent s name wash rest owes room) b = kept _ b refl refl refl
Move-Blocked (housekeeper_finishes s name request at done) b =
    none_works name s.housekeepers.workers b.nobody at
Move-Blocked (housekeeper_stops s name at cancelled) b =
    none_waits name s.housekeepers.workers b.nobody at
Move-Blocked (launderer_moves s after worker) b = kept _ b refl refl refl
Move-Blocked (stocker_moves s after worker) b = kept _ b refl refl refl
Move-Blocked (signalled s) b = kept _ b refl refl refl

Moves-Blocked : {s t : System} → Moves s t → Blocked s → Blocked t
Moves-Blocked here b = b
Moves-Blocked (step moves move) b = Move-Blocked move (Moves-Blocked moves b)

module _ (request : CleaningRequest) where
  -- The manager waits, and has sent `n` requests that nobody took.
  record Queued (s : System) (n : ℕ) (t : System) : Type 0 where
    pub ready : t.manager ≡ receiving
    pub waiting : length t.housekeepers.requests ≡ n
    pub same_workers : t.housekeepers.workers ≡ s.housekeepers.workers
    pub same_owed : t.owed ≡ s.owed

  fill :
      (n : ℕ) (s : System)
      → n ≤ cleaning_capacity
      → s.manager ≡ receiving
      → s.housekeepers.requests ≡ []
      → Reached (Queued s n) s
  fill zero s small ready empty = record {
    end = s;
    moves = here;
    holds = record {
      ready = ready;
      waiting = ap length empty;
      same_workers = refl;
      same_owed = refl;
    };
  }
  fill (suc n) s small ready empty =
      let r : Reached (Queued s n) s = fill n s (omega (arith, small)) ready empty in
      let t : System = record r.end { manager = dispatching request } in
      record {
        end = record t { manager = receiving; housekeepers = sent_to request t.housekeepers };
        moves =
            step (step r.moves (request_received r.end request r.holds.ready))
              (cleaning_sent t request refl (omega (arith, r.holds.waiting, small)));
        holds = record {
          ready = refl;
          waiting =
              omega (arith, length-append t.housekeepers.requests (request ∷ []), r.holds.waiting);
          same_workers = r.holds.same_workers;
          same_owed = r.holds.same_owed;
        };
      }

  module _ (keeper : String) (cleaning : CleaningRequest) where
    -- The manager receives one request more, and the only housekeeper ends on the signal.
    block :
        (s t : System)
        → Queued s cleaning_capacity t
        → s.housekeepers.workers ≡ (keeper, handling cleaning) ∷ []
        → lookup keeper s.owed ≡ some []
        → Reached Blocked t
    block s t q only done =
        let u : System = record t {
          manager = dispatching request;
          housekeepers = record t.housekeepers { cancelled = true };
          launderers = record t.launderers { cancelled = true };
          stockers = record t.stockers { cancelled = true };
        } in
        let v : System = record u {
          housekeepers = finished no_cleaning_request keeper u.housekeepers;
        } in
        record {
          end = record v { housekeepers = halted keeper v.housekeepers };
          moves =
              step
                (step
                  (step (step here (request_received t request q.ready))
                    (signalled (record t { manager = dispatching request })))
                  (housekeeper_finishes u keeper cleaning
                    (rw (q.same_workers, only, (str_eq_iff keeper keeper).1 refl) refl)
                    (rw q.same_owed done)))
                (housekeeper_stops v keeper
                  (lookup-insert_same keeper selecting t.housekeepers.workers) refl);
          holds = record {
            request = request;
            sending = refl;
            full = q.waiting;
            nobody =
                one_by_one-AllGone keeper (handling cleaning) t.housekeepers.workers
                  (q.same_workers ∙ only);
          };
        }

    -- From any moment at which the manager waits, the only housekeeper is about to finish its work,
    -- and nothing waits in their channel, the hotel can come to a moment at which the manager has a
    -- cleaning request to send, the channel is full and the housekeeper's goroutine has ended on the
    -- signal; and from then on, whatever moves, the manager stays at this send: `Services.Start` does
    -- not return, so `run` does not come to the shutdown.
    pub Blocked-forever :
        (s : System)
        → s.manager ≡ receiving
        → s.housekeepers.workers ≡ (keeper, handling cleaning) ∷ []
        → s.housekeepers.requests ≡ []
        → lookup keeper s.owed ≡ some []
        → (t : System) × Moves s t × Blocked t × ((u : System) → Moves t u → Blocked u)
    Blocked-forever s ready only empty done =
        let r : Reached (Queued s cleaning_capacity) s =
          fill cleaning_capacity s (omega arith) ready empty in
        let b : Reached Blocked r.end = block s r.end r.holds only done in
        (b.end, then_moves r.moves b.moves, b.holds, λ u moves. Moves-Blocked moves b.holds)
