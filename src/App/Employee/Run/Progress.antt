-- ===== src/App/Employee/Run/Progress.antt =====
-- What the employees can still reach from any moment of a run.
use kenshu_elaris_project_st.Base.{
  String, true, false, ◌≡◌, ◌≢◌, ◌⊎◌, refl, ◌∙◌, some, List, [], ◌∷◌, lookup, str_eq,
}
use kenshu_elaris_project_st.App.Employee.Laws.{lookup-insert_same}
use kenshu_elaris_project_st.App.Employee.Run.{
  Worker, takes, finishes, stops, taken, finished, Phase, selecting, handling, stopped, Pool,
}

-- The list names it.
abbrev pub In : String → List String → Type 0
In name [] = false ≡ true
In name (other ∷ names) = (str_eq other name ≡ true) ⊎ In name names

module _ {R : Type 0} (no_request : R) where
  -- A run in which the employees move alone.
  pub data WorkerRun (p : Pool R) : Pool R → Type 0 where
    at_work : WorkerRun p p
    works : {q r : Pool R} → WorkerRun p q → Worker no_request q r → WorkerRun p r

  pub Worker-sent : {p q : Pool R} → Worker no_request p q → q.sent ≡ p.sent
  Worker-sent (takes name request rest at is) = refl
  Worker-sent (finishes name request at) = refl
  Worker-sent (stops name at cancelled) = refl

  pub WorkerRun-sent : {p q : Pool R} → WorkerRun p q → q.sent ≡ p.sent
  WorkerRun-sent at_work = refl
  WorkerRun-sent (works run worker) = Worker-sent worker ∙ WorkerRun-sent run

  pub then_work : {p q r : Pool R} → WorkerRun p q → WorkerRun q r → WorkerRun p r
  then_work first at_work = first
  then_work first (works second last) = works (then_work first second) last

  -- A run of the employees alone to a moment at which the channel is empty and one of them waits.
  pub record Drained (name : String) (p : Pool R) : Type 0 where
    pub end : Pool R
    pub run : WorkerRun p end
    pub empty : end.requests ≡ []
    pub ready : lookup name end.workers ≡ some selecting

  behind : {name : String} {p q : Pool R} → WorkerRun p q → Drained name q → Drained name p
  behind first d = record {
    end = d.end;
    run = then_work first d.run;
    empty = d.empty;
    ready = d.ready;
  }

  drain :
      (requests : List R) (p : Pool R) (name : String)
      → p.requests ≡ requests
      → lookup name p.workers ≡ some selecting
      → Drained name p
  drain [] p name is at = record { end = p; run = at_work; empty = is; ready = at }
  drain (request ∷ rest) p name is at =
      let q : Pool R = taken name request rest p in
      behind
        (works (works at_work (takes name request rest at is))
          (finishes name request (lookup-insert_same name (handling request) p.workers)))
        (drain rest (finished no_request name q) name refl
          (lookup-insert_same name selecting q.workers))

  -- From any moment at which one employee's goroutine has not ended there is a run, by steps of the
  -- employees alone, to a moment at which every request was taken out of the channel and this
  -- employee waits for the next: no state is a deadlock, and no employee needs another one.
  pub Run-Drained :
      (p : Pool R) (name : String) (phase : Phase R)
      → lookup name p.workers ≡ some phase
      → phase ≢ stopped
      → Drained name p
  Run-Drained p name selecting at running = drain p.requests p name refl at
  Run-Drained p name (handling request) at running =
      behind (works at_work (finishes name request at)) (
        drain p.requests (finished no_request name p) name refl
          (lookup-insert_same name selecting p.workers))
  Run-Drained p name stopped at running = absurd (running refl)
