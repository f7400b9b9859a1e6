-- ===== src/Mq/Channel.antt =====
-- internal/infra/mq/rabbitmq_channel.go. The channel of the library that a `RabbitMqChannel` holds is
-- an argument, and the one that it holds afterwards a part of the answer.
pub mod Laws
pub mod Kept
use kenshu_elaris_project_st.Base.{ℕ, Bool, true, false, Option, none, some}
use kenshu_elaris_project_st.Domain.Errors.{Error, Result, ok, err, mq_unexpected}
use kenshu_elaris_project_st.App.World.{
  warning, failure, World, Action, ◌>>=◌, ◌>>◌, skip, pure, write,
}
use kenshu_elaris_project_st.Mq.Amqp.{Amqp, Wire, library}
use kenshu_elaris_project_st.Mq.Connection.{open_connection}

-- `NewRabbitMqChannel` leaves the channel nil.
abbrev pub new_channel : Option ℕ
new_channel = none

module _ {D : Type 0} (a : Amqp D) where
  -- The second attempt of `openChannel`, and how it ends.
  pub channel_answer : Result ℕ → Action (Wire D) (Result ℕ)
  channel_answer r = pure r

  pub retry_channel : Result ℕ → Action (Wire D) (Result ℕ)
  unfolding channel_answer
  retry_channel (err e) w = (err e, w)
  retry_channel (ok conn) w = (library (a.channel conn) >>= channel_answer) w

  -- An error of the first attempt, with whether the connection has closed since.
  pub channel_failed : Error → Bool → Action (Wire D) (Result ℕ)
  unfolding retry_channel
  channel_failed e false w = (err e, w)
  channel_failed e true w = (open_connection a >>= retry_channel) w

  pub first_channel : ℕ → Result ℕ → Action (Wire D) (Result ℕ)
  unfolding channel_failed
  first_channel conn (ok ch) w = (ok ch, w)
  first_channel conn (err e) w = (library (a.connection_closed conn) >>= channel_failed e) w

  pub with_connection : Result ℕ → Action (Wire D) (Result ℕ)
  unfolding first_channel
  with_connection (err e) w = (err e, w)
  with_connection (ok conn) w = (library (a.channel conn) >>= first_channel conn) w

  -- `openChannel`: the channel that it stores, or the error.
  unfoldable pub open_channel : Action (Wire D) (Result ℕ)
  unfolding with_connection
  open_channel = open_connection a >>= with_connection

  pub reopened : Result ℕ → Action (Wire D) (Result ℕ)
  reopened (ok ch) w = (ok ch, w)
  reopened (err e) w = (
    err (mq_unexpected "unexpected error when reopening channel" e),
    (write (failure "failed to open channel" e) w).1,
  )

  unfoldable pub reopen_channel : Action (Wire D) (Result ℕ)
  unfolding open_channel reopened
  reopen_channel = do
    write (warning "channel is closed, opening a new one")
    opened ← open_channel
    reopened opened

  -- `r.channel == nil || r.channel.IsClosed()`.
  unfoldable pub is_gone : Option ℕ → Action (Wire D) Bool
  is_gone none w = (true, w)
  is_gone (some ch) w = library (a.channel_closed ch) w

  close_present : Option ℕ → Bool → Action (Wire D) (Option Error)
  close_present none gone w = (none, w)
  close_present (some ch) true w = (none, w)
  close_present (some ch) false w = library (a.close_channel ch) w

  unfoldable pub close_channel : Option ℕ → Action (Wire D) (Option Error)
  unfolding is_gone close_present
  close_channel channel = is_gone channel >>= close_present channel
