-- ===== src/App/System/Stuck/Jam.antt =====
-- How a housekeeper gets stuck.
use kenshu_elaris_project_st.Base.{
  ℕ, zero, suc, ◌+◌, ◌<◌, ◌≤◌, String, true, ◌≡◌, refl, sym, ap, subst, some, [], ◌∷◌, ◌++◌, lookup,
  insert, str_eq_iff, length, length-append, arith,
}
use kenshu_elaris_project_st.Domain.Documents.{CleaningRequest, WashRequest}
use kenshu_elaris_project_st.App.Employee.Laws.{lookup-insert_same}
use kenshu_elaris_project_st.App.Employee.Run.{
  selecting, handling, finishes, stops, taken, finished, sent_to, halted,
}
use kenshu_elaris_project_st.App.Services.{no_cleaning_request, no_wash_request}
use kenshu_elaris_project_st.App.System.Gone.{one_by_one-AllGone}
use kenshu_elaris_project_st.App.System.{
  System, receiving, dispatching, request_received, Reached, cleaning_sent, housekeeper_takes,
  wash_sent, housekeeper_finishes, launderer_moves, signalled, Moves, here, step, then_moves,
  cleaning_capacity,
}
use kenshu_elaris_project_st.App.System.Stuck.{Stuck, Moves-Stuck}

abbrev a_full_cleaning : CleaningRequest
a_full_cleaning = record { room_name = "A"; request_type = "FULL_CLEANING" }

abbrev towels : WashRequest
towels = record { room_name = "A"; item = "towels" }

abbrev linens : WashRequest
linens = record { room_name = "A"; item = "linens" }

-- A housekeeper waits, the only launderer washes, and of `n` full cleanings the wash requests are in
-- the channel.
record Filled (keeper launderer : String) (washing : WashRequest) (n : ℕ) (s : System)
    : Type 0 where
  pub ready : s.manager ≡ receiving
  pub keeps : lookup keeper s.housekeepers.workers ≡ some selecting
  pub taken_all : s.housekeepers.requests ≡ []
  pub only : s.launderers.workers ≡ (launderer, handling washing) ∷ []
  pub waiting : length s.launderers.requests ≡ n + n

module _ (keeper launderer : String) (washing : WashRequest) where
  -- The housekeeper takes a full cleaning.
  begun : System → System
  begun s = record s {
    manager = receiving;
    housekeepers =
        taken keeper a_full_cleaning []
          (record (sent_to a_full_cleaning s.housekeepers) { requests = a_full_cleaning ∷ [] });
    owed = insert keeper (towels ∷ linens ∷ []) s.owed;
    ordered = s.ordered ++ towels ∷ linens ∷ [];
  }

  begins : (n : ℕ) (s : System) → Filled keeper launderer washing n s → Moves s (begun s)
  unfolding begun
  begins n s f =
      let t : System = record s { manager = dispatching a_full_cleaning } in
      let u : System = record t {
        manager = receiving;
        housekeepers = sent_to a_full_cleaning s.housekeepers;
      } in
      step
        (step (step here (request_received s a_full_cleaning f.ready)) (
          cleaning_sent t a_full_cleaning refl
            (subst (λ l. length l < cleaning_capacity) (sym f.taken_all) (omega arith))))
        (housekeeper_takes u keeper a_full_cleaning [] true f.keeps
          (ap (λ l. l ++ a_full_cleaning ∷ []) f.taken_all))

  round :
      (n : ℕ) (s : System)
      → n < 16
      → Filled keeper launderer washing n s
      → Reached (Filled keeper launderer washing (suc n)) s
  unfolding begun
  round n s small f =
      let t : System = begun s in
      let u : System = record t {
        launderers = sent_to towels t.launderers;
        owed = insert keeper (linens ∷ []) t.owed;
      } in
      let v : System = record u {
        launderers = sent_to linens u.launderers;
        owed = insert keeper [] u.owed;
      } in
      let longer : length u.launderers.requests ≡ suc (n + n) =
        omega (arith, length-append t.launderers.requests (towels ∷ []), f.waiting) in
      record {
        end = record v { housekeepers = finished no_cleaning_request keeper v.housekeepers };
        moves =
            step
              (step
                (step (begins n s f) (
                  wash_sent t keeper towels (linens ∷ [])
                    (lookup-insert_same keeper (towels ∷ linens ∷ []) s.owed)
                    (omega (arith, f.waiting, small))))
                (wash_sent u keeper linens [] (lookup-insert_same keeper (linens ∷ []) t.owed)
                  (omega (arith, longer, small))))
              (housekeeper_finishes v keeper a_full_cleaning
                (lookup-insert_same keeper (handling a_full_cleaning) s.housekeepers.workers)
                (lookup-insert_same keeper [] u.owed));
        holds = record {
          ready = refl;
          keeps = lookup-insert_same keeper selecting v.housekeepers.workers;
          taken_all = refl;
          only = f.only;
          waiting = omega (arith, length-append u.launderers.requests (linens ∷ []), longer);
        };
      }

  rounds :
      (n : ℕ) (s : System)
      → n ≤ 16
      → Filled keeper launderer washing 0 s
      → Reached (Filled keeper launderer washing n) s
  rounds zero s small f = record { end = s; moves = here; holds = f }
  rounds (suc n) s small f =
      let r : Reached (Filled keeper launderer washing n) s = rounds n s (omega (arith, small)) f in
      let q : Reached (Filled keeper launderer washing (suc n)) r.end =
        round n r.end (omega (arith, small)) r.holds in
      record { end = q.end; moves = then_moves r.moves q.moves; holds = q.holds }

  jam : (s : System) → Filled keeper launderer washing 16 s → Reached (Stuck keeper) s
  unfolding begun
  jam s f =
      let t : System = begun s in
      let u : System = record t {
        housekeepers = record t.housekeepers { cancelled = true };
        launderers = record t.launderers { cancelled = true };
        stockers = record t.stockers { cancelled = true };
      } in
      let v : System = record u { launderers = finished no_wash_request launderer u.launderers } in
      record {
        end = record v { launderers = halted launderer v.launderers };
        moves =
            step
              (step (step (begins 16 s f) (signalled t)) (
                launderer_moves u v.launderers (
                  finishes launderer washing (
                    subst (λ workers. lookup launderer workers ≡ some (handling washing))
                      (sym f.only) (rw ((str_eq_iff launderer launderer).1 refl) refl)))))
              (launderer_moves v (halted launderer v.launderers) (
                stops launderer (lookup-insert_same launderer selecting s.launderers.workers)
                  refl));
        holds = record {
          request = a_full_cleaning;
          inside = lookup-insert_same keeper (handling a_full_cleaning) s.housekeepers.workers;
          wash = towels;
          rest = linens ∷ [];
          owes = lookup-insert_same keeper (towels ∷ linens ∷ []) s.owed;
          full = f.waiting;
          nobody = one_by_one-AllGone launderer (handling washing) s.launderers.workers f.only;
        };
      }

  -- From any moment at which the manager and a housekeeper wait, the only launderer is inside work, and
  -- their channels are empty, the hotel can come to a moment at which the housekeeper has a wash request to send, the
  -- channel is full and the launderer's goroutine has ended on the signal; and from then on, whatever
  -- moves, the housekeeper stays there, inside work: its goroutine does not end.
  pub Stuck-forever :
      (s : System)
      → s.manager ≡ receiving
      → lookup keeper s.housekeepers.workers ≡ some selecting
      → s.housekeepers.requests ≡ []
      → s.launderers.workers ≡ (launderer, handling washing) ∷ []
      → s.launderers.requests ≡ []
      → (t : System) × Moves s t × Stuck keeper t × ((u : System) → Moves t u → Stuck keeper u)
  Stuck-forever s ready keeps none_to_take only none_waiting =
      let f : Filled keeper launderer washing 0 s = record {
        ready = ready;
        keeps = keeps;
        taken_all = none_to_take;
        only = only;
        waiting = ap length none_waiting;
      } in
      let r : Reached (Filled keeper launderer washing 16) s = rounds 16 s (omega arith) f in
      let j : Reached (Stuck keeper) r.end = jam r.end r.holds in
      (j.end, then_moves r.moves j.moves, j.holds, λ u moves. Moves-Stuck keeper moves j.holds)
