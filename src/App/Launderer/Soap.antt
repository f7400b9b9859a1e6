-- ===== src/App/Launderer/Soap.antt =====
-- What becomes of the stock, and what is written, when a launderer works on a request.
use kenshu_elaris_project_st.Base.{
  ℕ, ℤ, pos, leb_ℤ, String, ◌≡◌, refl, sym, ◌∙◌, true, false, Bool-cases, inl, inr, Option, none,
  some, List, [], ◌∷◌, ◌++◌, append_assoc, append-nil, lookup, ◌*◌,
}
use kenshu_elaris_project_st.Domain.Errors.{Error, Result, ok, err, as_stock_insufficient}
use kenshu_elaris_project_st.Domain.Documents.{Stock, soap, WashRequest}
use kenshu_elaris_project_st.Port.StockContract.{
  StockContract, Taken, Added, Short, Consumed, Restocked,
}
use kenshu_elaris_project_st.Port.StockLaws.{Consumed-insufficient, Consumed-name}
use kenshu_elaris_project_st.App.World.{World, Entry, info, warning, failure}
use kenshu_elaris_project_st.App.Registry.{time_event_hour_change}
use kenshu_elaris_project_st.App.Housekeeper.Retry.{RestockerContract, Elapsed}
use kenshu_elaris_project_st.App.Launderer.{
  Launderer, WashConfig, wash_table, CycleEvent, context_done, hour, Progress, waiting, returned,
  hour_length, sub, cycle_end, leave_cycle, washing_cycle, washed, soap_taken, wash_with, wash,
  second_washed, wash_again, wash_failed, first_washed, start_wash, work,
}

-- A cycle has no error of its own.
abbrev Fine : Progress (Result ℤ) → Type 0
Fine waiting = Unit
Fine (returned (ok t)) = Unit
Fine (returned (err e)) = false ≡ true

cycle_end-Fine :
    (start : ℤ) (hours : ℕ) (events : List CycleEvent) → Fine (cycle_end start hours events)
unfolding cycle_end
cycle_end-Fine start hours [] = tt
cycle_end-Fine start hours (context_done ∷ events) = tt
cycle_end-Fine start hours (hour now ∷ events) =
    elim (Bool-cases (leb_ℤ (pos (hours * hour_length)) (sub now start))) [
      | inl late ↦ rw late tt
      | inr early ↦ rw early (cycle_end-Fine start hours events)
    ]

-- What the end of a cycle makes of `work`, and what is written then.
abbrev pub over : Progress (Result ℤ) → Progress (Unit {0})
over waiting = waiting
over (returned r) = returned tt

abbrev pub cycle_lines : Progress (Result ℤ) → List Entry
cycle_lines waiting = []
cycle_lines (returned r) = info "launderer is done" ∷ []

abbrev pub short_line : Entry
short_line = warning "insufficient stock to wash item, requesting restock"

-- How a request goes whose item needs `quantity` of soap and whose cycle goes as `cycle` says: what
-- is written, what the stock becomes, and whether the call comes back. `Between` relates the stock
-- behind a call to the stock at the next one, when the others have had their turn.
pub data Washing (Between : Option Stock → Option Stock → Type 0) (quantity : ℤ)
    (cycle : Progress (Result ℤ)) (before after : Option Stock)
    : List Entry → Progress (Unit {0}) → Type 0 where
  washed_once :
      Taken soap quantity before after
      → Washing Between quantity cycle before after (cycle_lines cycle) (over cycle)
  washed_later :
      (at_restock restocked at_second : Option Stock)
      → Short soap quantity before
      → Between before at_restock
      → Added soap (pos 50) at_restock restocked
      → Between restocked at_second
      → Taken soap quantity at_second after
      → Washing Between quantity cycle before after (short_line ∷ cycle_lines cycle) (over cycle)
  refused :
      (e : Error)
      → as_stock_insufficient e ≡ none
      → Consumed soap quantity before (some e) after
      → Washing Between quantity cycle before after
          (failure "failed to wash item" e ∷ [])
          (returned tt)
  not_restocked :
      (at_restock : Option Stock) (e : Error)
      → Short soap quantity before
      → Between before at_restock
      → Restocked soap (pos 50) at_restock (some e) after
      → Washing Between quantity cycle before after
          (short_line ∷ failure "failed to restock item" e ∷ [])
          (returned tt)
  refused_later :
      (at_restock restocked at_second : Option Stock) (e : Error)
      → Short soap quantity before
      → Between before at_restock
      → Added soap (pos 50) at_restock restocked
      → Between restocked at_second
      → Consumed soap quantity at_second (some e) after
      → Washing Between quantity cycle before after
          (short_line ∷ failure "failed to wash item after restock" e ∷ [])
          (returned tt)

-- The registry leaves the stock alone.
pub record KeepsStock {D : Type 0} (l : Launderer D) (stock : D → Option Stock) : Type 0 where
  pub register_keeps :
      (ch : Option ℕ) (x : D) → stock (l.hour_change.register time_event_hour_change ch x) ≡ stock x
  pub unregister_keeps :
      (ch : Option ℕ) (x : D)
      → stock (l.hour_change.unregister time_event_hour_change ch x) ≡ stock x

module _ {D : Type 0} (l : Launderer D) (k : StockContract l.stock_repo) (ch : ℕ)
    (events : List CycleEvent) where
  open k use {stock, consume_lem}

  module _ (keeps : KeepsStock l stock) (r : RestockerContract stock l.stocker) (item : String)
      (start : ℤ) (c : WashConfig) where
    abbrev entered : World D → World D
    entered w = record w { ext = l.hour_change.register time_event_hour_change (some ch) w.ext }

    first_taken :
        (cycle : Progress (Result ℤ)) (w : World D)
        → Fine cycle
        → let (p, v) = leave_cycle l ch events cycle (entered w) in
          let (q, u) = washed l ch events p v in
          let (o, z) = first_washed l ch events item start q u in
          (o ≡ over cycle) × (z.log ≡ w.log ++ cycle_lines cycle) × (stock z.ext ≡ stock w.ext)
    unfolding leave_cycle washed first_washed
    first_taken waiting w fine =
        (refl, sym (append-nil w.log), keeps.register_keeps (some ch) w.ext)
    first_taken (returned (ok t)) w fine =
        (refl, refl, keeps.unregister_keeps (some ch) _ ∙ keeps.register_keeps (some ch) w.ext)
    first_taken (returned (err e)) w fine = cc fine

    second_taken :
        (cycle : Progress (Result ℤ)) (w : World D)
        → Fine cycle
        → let (p, v) = leave_cycle l ch events cycle (entered w) in
          let (q, u) = washed l ch events p v in
          let (o, z) = second_washed l ch events q u in
          (o ≡ over cycle) × (z.log ≡ w.log ++ cycle_lines cycle) × (stock z.ext ≡ stock w.ext)
    unfolding leave_cycle washed second_washed
    second_taken waiting w fine =
        (refl, sym (append-nil w.log), keeps.register_keeps (some ch) w.ext)
    second_taken (returned (ok t)) w fine =
        (refl, refl, keeps.unregister_keeps (some ch) _ ∙ keeps.register_keeps (some ch) w.ext)
    second_taken (returned (err e)) w fine = cc fine

    abbrev cycle : Progress (Result ℤ)
    cycle = cycle_end start c.cycle_duration_in_hours events

    fine : Fine cycle
    fine = cycle_end-Fine start c.cycle_duration_in_hours events

    -- The call wrote some lines behind `log`, and went as `Washing` says.
    abbrev pub Went : Option Stock → List Entry → Progress (Unit {0}) × World D → Type 0
    Went before log (o, z) =
        (lines : List Entry) × (z.log ≡ log ++ lines)
        × Washing (Elapsed stock l.meanwhile) c.soap cycle before (stock z.ext) lines o

    second :
        (before at_restock restocked at_second : Option Stock) (v : World D) (e : Option Error)
        (y : D) (log : List Entry)
        → v.log ≡ log ++ short_line ∷ []
        → Short soap c.soap before
        → Elapsed stock l.meanwhile before at_restock
        → Added soap (pos 50) at_restock restocked
        → Elapsed stock l.meanwhile restocked at_second
        → Consumed soap c.soap at_second e (stock y)
        → let (p, u) =
            soap_taken l ch events start c.cycle_duration_in_hours e (record v { ext = y }) in
          Went before log (second_washed l ch events p u)
    unfolding soap_taken washing_cycle second_washed
    second before at_restock restocked at_second v none y log at short el added el' taken =
        let (comes, writes, leaves) = second_taken cycle (record v { ext = y }) fine in
        (
          short_line ∷ cycle_lines cycle,
          writes ∙ rw at (append_assoc log _ _),
          rw (comes, leaves) (washed_later at_restock restocked at_second short el added el' taken),
        )
    second before at_restock restocked at_second v (some e) y log at short el added el' refusal = (
      short_line ∷ failure "failed to wash item after restock" e ∷ [],
      rw at (append_assoc log _ _),
      refused_later at_restock restocked at_second e short el added el' refusal,
    )

    module _ (known : lookup item wash_table ≡ some c) where
      again :
          (before at_restock : Option Stock) (v : World D) (e : Option Error) (y : D)
          (log : List Entry)
          → v.log ≡ log ++ short_line ∷ []
          → Short soap c.soap before
          → Elapsed stock l.meanwhile before at_restock
          → Restocked soap (pos 50) at_restock e (stock y)
          → Went before log (wash_again l ch events item start e (record v { ext = y }))
      unfolding wash_again wash wash_with
      again before at_restock v (some e) y log at short el refusal = (
        short_line ∷ failure "failed to restock item" e ∷ [],
        rw at (append_assoc log _ _),
        not_restocked at_restock e short el refusal,
      )
      again before at_restock v none y log at short el added =
          let z : D = l.meanwhile y in
          rw known (
            second before at_restock (stock y) (stock z) v
              (l.stock_repo.consume_item soap c.soap z).0
              (l.stock_repo.consume_item soap c.soap z).1 log at short el added (y, refl, refl)
              (consume_lem soap c.soap z))

      failed :
          (before : Option Stock) (w : World D) (e : Error) (y : D) (o : Option (String × ℤ))
          → as_stock_insufficient e ≡ o
          → Consumed soap c.soap before (some e) (stock y)
          → Went before w.log (wash_failed l ch events item start e o (record w { ext = y }))
      unfolding wash_failed
      failed before w e y none is refusal =
          (failure "failed to wash item" e ∷ [], refl, refused e is refusal)
      failed before w e y (some what) is refusal =
          let (short, same) = Consumed-insufficient soap c.soap e is refusal in
          let z : D = l.meanwhile y in
          rw (Consumed-name soap c.soap before (stock y) e is refusal) (
            again before (stock z) (record w { log = w.log ++ short_line ∷ [] })
              (l.stocker.immediate_restock soap z).0 (l.stocker.immediate_restock soap z).1 w.log
              refl short (y, same, refl) (r.restock_lem soap z))

      first :
          (before : Option Stock) (w : World D) (e : Option Error) (y : D)
          → Consumed soap c.soap before e (stock y)
          → let (p, u) =
              soap_taken l ch events start c.cycle_duration_in_hours e (record w { ext = y }) in
            Went before w.log (first_washed l ch events item start p u)
      unfolding soap_taken washing_cycle first_washed
      first before w none y taken =
          let (comes, writes, leaves) = first_taken cycle (record w { ext = y }) fine in
          (cycle_lines cycle, writes, rw (comes, leaves) (washed_once taken))
      first before w (some e) y refusal = failed before w e y (as_stock_insufficient e) refl refusal

  -- With a stock repository and a stocker that keep the contract of the port, a clock that answers, a
  -- registry that leaves the stock alone, and an item of the wash table, and whatever the others do to
  -- the stock between the calls: the request uses exactly the item's soap, at once or after one
  -- restock of 50 of it, and then goes as its cycle does, for which it comes back or still waits; or
  -- it is given up with one line that tells why, the stock having moved as the case says.
  pub work-Washing :
      (keeps : KeepsStock l stock) (r : RestockerContract stock l.stocker) (request : WashRequest)
      (start : ℤ) (c : WashConfig) (w : World D)
      → lookup request.item wash_table ≡ some c
      → (l.clock.now w.ext).0 ≡ ok start
      → Went keeps r request.item start c
          (stock (l.meanwhile (l.clock.now w.ext).1))
          (w.log ++ info "launderer started to workFn on washing request" ∷ [])
          (work l ch events request w)
  unfolding work start_wash wash wash_with
  work-Washing keeps r request start c w known now =
      let x : D = l.meanwhile (l.clock.now w.ext).1 in
      let begun : World D = record w {
        ext = x;
        log = w.log ++ info "launderer started to workFn on washing request" ∷ [];
      } in
      rw (now, known)
        (first keeps r request.item start c known (stock x) begun
          (l.stock_repo.consume_item soap c.soap x).0 (l.stock_repo.consume_item soap c.soap x).1
          (consume_lem soap c.soap x))
