-- ===== src/App/World.antt =====
-- What the employees of internal/app act on, and the sequencing of their statements. Spans, debug
-- lines and the attributes of a log line but its error are left out.
use kenshu_elaris_project_st.Base.{ℕ, String, List, [], ◌∷◌, ◌++◌}
use kenshu_elaris_project_st.Domain.Errors.{Error}
use kenshu_elaris_project_st.Domain.Documents.{CleaningRequest, WashRequest, RestockRequest}

-- A line that `slog` wrote: `InfoContext`, `WarnContext`, and `ErrorContext` with and without an
-- error.
pub data Entry : Type 0 where
  info : String → Entry
  warning : String → Entry
  failure : String → Error → Entry
  problem : String → Entry

-- A delivery that was settled: by `Ack(false)`, or by `Nack(false, false)`, which drops it.
pub data Settlement : Type 0 where
  acked : (tag : ℕ) → Settlement
  nacked : (tag : ℕ) → Settlement

-- `ext` is the outside that the ports act on; `cleanings`, `washes` and `restocks` are what was sent
-- into the channels of init.go to the housekeepers, launderers and stockers, `settled` is how
-- deliveries were settled, and `log` is what was written, each oldest first.
pub record World (D : Type 0) : Type 0 where
  pub ext : D
  pub cleanings : List CleaningRequest
  pub washes : List WashRequest
  pub restocks : List RestockRequest
  pub settled : List Settlement
  pub log : List Entry

abbrev pub Action : Type 0 → Type 0 → Type 0
Action D A = World D → A × World D

module _ {D : Type 0} where
  infixl 5 ◌>>=◌ ◌>>◌
  abbrev pub ◌>>=◌ : {A B : Type 0} → Action D A → (A → Action D B) → Action D B
  ◌>>=◌ m f w = f (m w).0 (m w).1

  abbrev pub ◌>>◌ : {A B : Type 0} → Action D A → Action D B → Action D B
  ◌>>◌ m k w = k (m w).1

  abbrev pub pure : {A : Type 0} → A → Action D A
  pure a w = (a, w)

  -- A statement with nothing to do.
  abbrev pub skip : Action D (Unit {0})
  skip = pure tt

  -- A call of a port.
  abbrev pub call : {A : Type 0} → (D → A × D) → Action D A
  call f w = ((f w.ext).0, record w { ext = (f w.ext).1 })

  -- A call of a repository, behind what the other goroutines did to the outside since the one before.
  abbrev pub call_behind : {A : Type 0} → (D → D) → (D → A × D) → Action D A
  call_behind meanwhile f w = call f (record w { ext = meanwhile w.ext })

  abbrev pub write : Entry → Action D (Unit {0})
  write entry w = (tt, record w { log = w.log ++ entry ∷ [] })

  -- `h.laundererRequestChan <- request`. The send waits while the channel is full; this is the state
  -- after it went through.
  abbrev pub send_wash : WashRequest → Action D (Unit {0})
  send_wash request w = (tt, record w { washes = w.washes ++ request ∷ [] })

  -- `s.cleaningCh <- cleaningRequest`, after it went through.
  abbrev pub send_cleaning : CleaningRequest → Action D (Unit {0})
  send_cleaning request w = (tt, record w { cleanings = w.cleanings ++ request ∷ [] })

  -- `s.stockerCh <- domain.RestockRequest{ItemsName: items}`, after it went through.
  abbrev pub send_restock : RestockRequest → Action D (Unit {0})
  send_restock request w = (tt, record w { restocks = w.restocks ++ request ∷ [] })
