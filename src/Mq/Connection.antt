-- ===== src/Mq/Connection.antt =====
-- internal/infra/mq/rabbitmq_connection.go. The mutex makes each method one step.
pub mod Laws
pub mod Kept
use kenshu_elaris_project_st.Base.{
  ℕ, zero, suc, ◌==◌, String, Bool, true, false, not, Option, none, some, if◌then◌else◌,
}
use kenshu_elaris_project_st.Domain.Errors.{Error, Result, ok, err, foreign, plain, wrapped}
use kenshu_elaris_project_st.Config.{RabbitMqConfig}
use kenshu_elaris_project_st.App.World.{
  info, warning, World, Action, ◌>>=◌, ◌>>◌, skip, pure, write,
}
use kenshu_elaris_project_st.Mq.Amqp.{Amqp, Uri, RabbitMqConnection, Wire, library}

abbrev pub rabbit_dial_attempts : ℕ
rabbit_dial_attempts = 5

abbrev pub connection_closed_error : Error
connection_closed_error = plain "rabbitmq connection closed"

unfoldable pub uri_of : RabbitMqConfig → Uri
uri_of cfg = record {
  username = cfg.username.value;
  password = cfg.password.value;
  host = cfg.host;
  port = cfg.port;
}

-- The error behind the last attempt; `%w` of no error prints it so.
abbrev pub last_error : Option Error → Error
last_error (some e) = e
last_error none = foreign "%!w(<nil>)"

module _ {D : Type 0} (a : Amqp D) where
  pub set_conn : ℕ → Action (Wire D) (Unit {0})
  set_conn conn w = (
    tt,
    record w { ext = record w.ext { connection = record w.ext.connection { conn = some conn } } },
  )

  -- The pause behind a failed attempt, unless it was the last.
  pub back_off : (left : ℕ) → Action (Wire D) (Unit {0})
  back_off zero = skip
  back_off (suc left) = library a.sleep

  -- What an attempt does with the answer of `Dial`; `again` is the rest of the loop.
  pub dial_answer :
      (left : ℕ)
      → (again : Error → Action (Wire D) (Option Error)) → Result ℕ
      → Action (Wire D) (Option Error)
  unfolding set_conn back_off
  dial_answer left again (ok conn) = do set_conn conn; pure none
  dial_answer left again (err e) = do write (warning "rabbitmq dial failed"); back_off left; again e

  -- The loop of `reconnectLocked`, with the number of attempts left and the error of the last one.
  pub dial_loop : (left : ℕ) → Option Error → Action (Wire D) (Option Error)
  unfolding dial_answer uri_of
  dial_loop zero last_err w =
      (some (wrapped "dial rabbitmq after 5 attempts" (last_error last_err)), w)
  dial_loop (suc left) last_err w =
      let (answer, v) = library (a.dial (uri_of w.ext.connection.cfg)) w in
      dial_answer left (λ e. dial_loop left (some e)) answer v

  unfoldable pub reconnect_locked : Action (Wire D) (Option Error)
  unfolding dial_loop
  reconnect_locked w =
      if w.ext.connection.closed
      then (some connection_closed_error, w)
      else dial_loop rabbit_dial_attempts none w

  pub closed_before : Option ℕ → Action (Wire D) Bool
  closed_before none = pure true
  closed_before (some conn) = library (a.connection_closed conn)

  -- What `openConnection` answers behind the call of `reconnectLocked`. The connection that it leaves
  -- is there: the last clause for a connection of nil is what Go would answer.
  pub opened : Option Error → Action (Wire D) (Result ℕ)
  opened (some e) w = (err e, w)
  opened none w = elim w.ext.connection.conn [
    | some conn ↦ (ok conn, w)
    | none ↦ (err (foreign "nil connection"), w)
  ]

  pub open_unless : (conn : Option ℕ) (is_closed : Bool) → Action (Wire D) (Result ℕ)
  unfolding opened reconnect_locked
  open_unless none is_closed = reconnect_locked >>= opened
  open_unless (some conn) true = reconnect_locked >>= opened
  open_unless (some conn) false = pure (ok conn)

  unfoldable pub open_connection : Action (Wire D) (Result ℕ)
  unfolding open_unless closed_before
  open_connection w =
      if w.ext.connection.closed
      then (err connection_closed_error, w)
      else (closed_before w.ext.connection.conn >>= open_unless w.ext.connection.conn) w

  -- `IsConnectionOpen`.
  unfoldable pub is_connection_open : Action (Wire D) Bool
  unfolding closed_before
  is_connection_open w =
      let (is_closed, v) = closed_before w.ext.connection.conn w in (not is_closed, v)

  pub mark_closed : Action (Wire D) (Unit {0})
  mark_closed w = (
    tt,
    record w { ext = record w.ext { connection = record w.ext.connection { closed = true } } },
  )

  pub close_unless : (conn : Option ℕ) (is_closed : Bool) → Action (Wire D) (Option Error)
  close_unless none is_closed = pure none
  close_unless (some conn) true = pure none
  close_unless (some conn) false = library (a.close_connection conn)

  unfoldable pub close : Action (Wire D) (Option Error)
  unfolding mark_closed close_unless closed_before
  close w =
      let conn = w.ext.connection.conn in
      (mark_closed >> (closed_before conn >>= close_unless conn)) w

pub established : {D : Type 0} → Option Error → Action (Wire D) (Option Error)
established none w = (none, (write (info "rabbitmq connection established") w).1)
established (some e) w = (some e, w)

abbrev pub fresh_connection : RabbitMqConfig → RabbitMqConnection
fresh_connection cfg = record { conn = none; cfg = cfg; closed = false }

-- `NewRabbitMqConnection`: the error, or nothing, and the connection in the state, where it takes the
-- place of the one before.
unfoldable pub new_rabbit_mq_connection :
    {D : Type 0} → Amqp D → RabbitMqConfig → Action (Wire D) (Option Error)
unfolding reconnect_locked established
new_rabbit_mq_connection a cfg w =
    let start : World (Wire _) = record w {
      ext = record w.ext { connection = fresh_connection cfg };
    } in
    (reconnect_locked a >>= established) start
