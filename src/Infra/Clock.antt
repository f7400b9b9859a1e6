-- ===== src/Infra/Clock.antt =====
-- internal/infra/clock/clock_client.go. A connection of gRPC is a number; the generated client is part
-- of the library.
use kenshu_elaris_project_st.Base.{ℕ, ℤ, pos, String, Option, none, some}
use kenshu_elaris_project_st.Domain.Errors.{Error, Result, ok, err}
use kenshu_elaris_project_st.Port.{Clock}
use kenshu_elaris_project_st.Config.{ServicesConfig}

-- A host and a port, which package fmt prints as "%s:%d".
pub record Target : Type 0 where
  pub host : String
  pub port : ℤ

-- `now` answers the instant of the message, if it has one.
pub record Grpc (D : Type 0) : Type 0 where
  pub new_client : Target → D → Result ℕ × D
  pub now : (conn : ℕ) → D → Result (Option ℤ) × D
  pub close : (conn : ℕ) → D → Option Error × D

-- `AsTime` of a timestamp, which may be nil: then it is the epoch.
abbrev pub as_time : Option ℤ → ℤ
as_time none = pos 0
as_time (some t) = t

module _ {D : Type 0} (grpc : Grpc D) where
  -- `NewClockClient`; the client is its connection.
  unfoldable pub new_clock_client : ServicesConfig → D → Result ℕ × D
  new_clock_client cfg =
      grpc.new_client
        (record { host = cfg.clock_simulator.grpc_host; port = cfg.clock_simulator.grpc_port })

  answered : Result (Option ℤ) → Result ℤ
  answered (err e) = err e
  answered (ok time) = ok (as_time time)

  unfoldable pub now : ℕ → D → Result ℤ × D
  unfolding answered
  now conn x = let (answer, y) = grpc.now conn x in (answered answer, y)

  unfoldable pub close : ℕ → D → Option Error × D
  close conn = grpc.close conn

  -- It implements the port.
  abbrev pub clock_client : ℕ → Clock D
  clock_client conn = record { now = now conn }
