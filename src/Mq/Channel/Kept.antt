-- ===== src/Mq/Channel/Kept.antt =====
-- What the opening of a channel leaves alone.
use kenshu_elaris_project_st.Base.{ℕ, Bool, true, false, ◌≡◌, refl, ◌∙◌, Option, none, some}
use kenshu_elaris_project_st.Domain.Errors.{Error, Result, ok, err}
use kenshu_elaris_project_st.App.World.{World, warning, write}
use kenshu_elaris_project_st.Mq.Amqp.{Amqp, Wire, library}
use kenshu_elaris_project_st.Mq.Connection.{open_connection}
use kenshu_elaris_project_st.Mq.Connection.Kept.{KeptByOpen, open_connection-Kept}
use kenshu_elaris_project_st.Mq.Channel.{
  channel_answer, retry_channel, channel_failed, first_channel, with_connection, open_channel,
  reopened, reopen_channel, is_gone,
}

-- What the calls of an `openChannel` do not change.
pub record KeptByChannel {D : Type 0} (a : Amqp D) {A : Type 0} (f : D → A) : Type 0 where
  pub by_open : KeptByOpen a f
  pub channel_keeps : (conn : ℕ) (x : D) → f (a.channel conn x).1 ≡ f x
  pub channel_closed_keeps : (ch : ℕ) (x : D) → f (a.channel_closed ch x).1 ≡ f x

pub is_gone-Kept :
    {D : Type 0} (a : Amqp D) {A : Type 0} {f : D → A}
    → ((ch : ℕ) (x : D) → f (a.channel_closed ch x).1 ≡ f x)
    → (channel : Option ℕ) (w : World (Wire D))
    → f (is_gone a channel w).1.ext.outside ≡ f w.ext.outside
unfolding is_gone
is_gone-Kept a keeps none w = refl
is_gone-Kept a keeps (some ch) w = keeps ch w.ext.outside

module _ {D : Type 0} (a : Amqp D) {A : Type 0} {f : D → A} (kept : KeptByChannel a f) where
  open kept use {by_open, channel_keeps}

  abbrev Kept : {B : Type 0} → World (Wire D) → B × World (Wire D) → Type 0
  Kept w r = f r.1.ext.outside ≡ f w.ext.outside

  retry-Kept : (r : Result ℕ) (w : World (Wire D)) → Kept w (retry_channel a r w)
  unfolding retry_channel channel_answer
  retry-Kept (err e) w = refl
  retry-Kept (ok conn) w = channel_keeps conn w.ext.outside

  failed-Kept :
      (e : Error) (is_closed : Bool) (w : World (Wire D)) → Kept w (channel_failed a e is_closed w)
  unfolding channel_failed
  failed-Kept e false w = refl
  failed-Kept e true w =
      let (conn, v) = open_connection a w in retry-Kept conn v ∙ open_connection-Kept a by_open w

  first-Kept : (conn : ℕ) (r : Result ℕ) (w : World (Wire D)) → Kept w (first_channel a conn r w)
  unfolding first_channel
  first-Kept conn (ok ch) w = refl
  first-Kept conn (err e) w =
      let (is_closed, v) = library (a.connection_closed conn) w in
      failed-Kept e is_closed v ∙ by_open.connection_closed_keeps conn w.ext.outside

  with_connection-Kept : (conn : Result ℕ) (w : World (Wire D)) → Kept w (with_connection a conn w)
  unfolding with_connection
  with_connection-Kept (err e) w = refl
  with_connection-Kept (ok conn) w =
      let (r, v) = library (a.channel conn) w in
      first-Kept conn r v ∙ channel_keeps conn w.ext.outside

  pub open_channel-Kept :
      (w : World (Wire D)) → f (open_channel a w).1.ext.outside ≡ f w.ext.outside
  unfolding open_channel
  open_channel-Kept w =
      let (conn, v) = open_connection a w in
      with_connection-Kept conn v ∙ open_connection-Kept a by_open w

  reopened-Kept : (r : Result ℕ) (w : World (Wire D)) → Kept w (reopened a r w)
  unfolding reopened
  reopened-Kept (ok ch) w = refl
  reopened-Kept (err e) w = refl

  pub reopen_channel-Kept :
      (w : World (Wire D)) → f (reopen_channel a w).1.ext.outside ≡ f w.ext.outside
  unfolding reopen_channel
  reopen_channel-Kept w =
      let v : World (Wire D) = (write (warning "channel is closed, opening a new one") w).1 in
      let (r, z) = open_channel a v in reopened-Kept r z ∙ open_channel-Kept v
