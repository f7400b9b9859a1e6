-- ===== src/App/System/Settled.antt =====
-- How the system comes to rest.
pub mod Sending
mod Serving
mod Clearing
mod Emptying
use kenshu_elaris_project_st.Base.{
  ◌<◌, String, ◌≡◌, ◌≢◌, refl, ◌∙◌, sym, ap, subst, ◌⊎◌, inl, inr, some, List, [], ◌∷◌, ◌++◌,
  append-nil, lookup, length, arith,
}
use kenshu_elaris_project_st.Domain.Documents.{CleaningRequest, WashRequest, RestockRequest}
use kenshu_elaris_project_st.App.Employee.Run.{Phase, Pool, selecting, stopped, sent_to}
use kenshu_elaris_project_st.App.Employee.Run.Progress.{In}
use kenshu_elaris_project_st.App.System.{
  System, Manager, receiving, dispatching, restocking, returned, Move, cleaning_sent, restock_sent,
  Moves, step, then_moves, cleaning_capacity, stocker_capacity,
}
use kenshu_elaris_project_st.App.System.Laundry.{Conserved, Move-Conserved, Moves-keep}
use kenshu_elaris_project_st.App.System.Settled.Sending.{OwesNothing}
use kenshu_elaris_project_st.App.System.Settled.Emptying.{Emptied, Moves-Emptied}

-- What the manager has still to send.
abbrev pub cleaning_held_back : Manager → List CleaningRequest
cleaning_held_back (dispatching request) = request ∷ []
cleaning_held_back _ = []

abbrev pub restock_held_back : Manager → List RestockRequest
restock_held_back (restocking request) = request ∷ []
restock_held_back _ = []

-- An end at which the manager has nothing to send, all channels are empty and the housekeepers that are
-- named owe nothing; of cleaning and restock requests, only those that the manager held were sent.
pub record Settled (names : List String) (s : System) : Type 0 where
  pub end : System
  pub moves : Moves s end
  pub manager_rests : (end.manager ≡ receiving) ⊎ (end.manager ≡ returned)
  pub no_cleaning : end.housekeepers.requests ≡ []
  pub no_washing : end.launderers.requests ≡ []
  pub no_restocking : end.stockers.requests ≡ []
  pub nothing_owed : (name : String) → In name names → OwesNothing name end
  pub dispatched : end.housekeepers.sent ≡ s.housekeepers.sent ++ cleaning_held_back s.manager
  pub restocked : end.stockers.sent ≡ s.stockers.sent ++ restock_held_back s.manager

module _ (keeper launderer stocker : String) (names : List String) where
  -- The end of a manager who has nothing to send.
  rest :
      (s : System) (e : Emptied keeper launderer stocker names s)
      → (e.end.manager ≡ receiving) ⊎ (e.end.manager ≡ returned)
      → cleaning_held_back s.manager ≡ []
      → restock_held_back s.manager ≡ []
      → Settled names s
  rest s e rests no_request no_restock = record {
    end = e.end;
    moves = e.moves;
    manager_rests = rests;
    no_cleaning = e.no_cleaning;
    no_washing = e.no_washing;
    no_restocking = e.no_restocking;
    nothing_owed = e.nothing_owed;
    dispatched = rw no_request (e.no_more_cleaning ∙ sym (append-nil s.housekeepers.sent));
    restocked = rw no_restock (e.no_more_restocking ∙ sym (append-nil s.stockers.sent));
  }

  -- The manager sends what it held, and the employees empty the channels again.
  send_held :
      (s t : System) (e : Emptied keeper launderer stocker names s)
      → Move e.end t
      → Conserved s
      → t.manager ≡ receiving
      → t.housekeepers.workers ≡ e.end.housekeepers.workers
      → t.launderers ≡ e.end.launderers
      → t.stockers.workers ≡ e.end.stockers.workers
      → t.housekeepers.sent ≡ s.housekeepers.sent ++ cleaning_held_back s.manager
      → t.stockers.sent ≡ s.stockers.sent ++ restock_held_back s.manager
      → Settled names s
  send_held s t e move c ready cleaners washers restockers cleaning restock =
      let f : Emptied keeper launderer stocker names t =
        Moves-Emptied t keeper launderer stocker names (Move-Conserved move (Moves-keep e.moves c))
          (ap (lookup keeper) cleaners ∙ e.keeper_ready) (λ h. cc h)
          (ap (λ (p : Pool WashRequest). lookup launderer p.workers) washers ∙ e.launderer_ready)
          (λ h. cc h) (ap (lookup stocker) restockers ∙ e.stocker_ready) (λ h. cc h) in
      record {
        end = f.end;
        moves = then_moves (step e.moves move) f.moves;
        manager_rests = inl (f.same_manager ∙ ready);
        no_cleaning = f.no_cleaning;
        no_washing = f.no_washing;
        no_restocking = f.no_restocking;
        nothing_owed = f.nothing_owed;
        dispatched = f.no_more_cleaning ∙ cleaning;
        restocked = f.no_more_restocking ∙ restock;
      }

  settle :
      (s : System) (manager : Manager)
      → s.manager ≡ manager
      → Conserved s
      → Emptied keeper launderer stocker names s
      → Settled names s
  settle s receiving is c e =
      rest s e (inl (e.same_manager ∙ is)) (ap cleaning_held_back is) (ap restock_held_back is)
  settle s returned is c e =
      rest s e (inr (e.same_manager ∙ is)) (ap cleaning_held_back is) (ap restock_held_back is)
  settle s (dispatching request) is c e =
      let t : System = e.end in
      send_held s (record t { manager = receiving; housekeepers = sent_to request t.housekeepers })
        e
        (cleaning_sent t request (e.same_manager ∙ is)
          (subst (λ l. length l < cleaning_capacity) (sym e.no_cleaning) (omega arith)))
        c refl refl refl refl
        (ap (λ sent. sent ++ request ∷ []) e.no_more_cleaning
          ∙ ap (λ m. s.housekeepers.sent ++ cleaning_held_back m) (sym is))
        (e.no_more_restocking
          ∙ sym (append-nil s.stockers.sent)
          ∙ ap (λ m. s.stockers.sent ++ restock_held_back m) (sym is))
  settle s (restocking request) is c e =
      let t : System = e.end in
      send_held s (record t { manager = receiving; stockers = sent_to request t.stockers }) e
        (restock_sent t request (e.same_manager ∙ is)
          (subst (λ l. length l < stocker_capacity) (sym e.no_restocking) (omega arith)))
        c refl refl refl refl
        (e.no_more_cleaning
          ∙ sym (append-nil s.housekeepers.sent)
          ∙ ap (λ m. s.housekeepers.sent ++ cleaning_held_back m) (sym is))
        (ap (λ sent. sent ++ request ∷ []) e.no_more_restocking
          ∙ ap (λ m. s.stockers.sent ++ restock_held_back m) (sym is))

-- From any moment at which the laundry is in order, and one housekeeper, one launderer and one
-- stocker have not ended, there are moves to a moment at which the manager has sent what it held, and
-- no other request, and has nothing to send, all three channels are empty and all the housekeepers
-- that are named owe nothing: however full the channels are, nobody blocks the others.
pub Moves-Settled :
    (s : System) (keeper launderer stocker : String) (names : List String)
    {phase : Phase CleaningRequest} {phase' : Phase WashRequest} {phase'' : Phase RestockRequest}
    → Conserved s
    → lookup keeper s.housekeepers.workers ≡ some phase
    → phase ≢ stopped
    → lookup launderer s.launderers.workers ≡ some phase'
    → phase' ≢ stopped
    → lookup stocker s.stockers.workers ≡ some phase''
    → phase'' ≢ stopped
    → Settled names s
Moves-Settled s keeper launderer stocker names c keeps awake washes awake' restocks awake'' =
    settle keeper launderer stocker names s s.manager refl c
      (Moves-Emptied s keeper launderer stocker names c keeps awake washes awake' restocks awake'')
