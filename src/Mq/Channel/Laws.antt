-- ===== src/Mq/Channel/Laws.antt =====
-- What the end of a channel leaves alone.
use kenshu_elaris_project_st.Base.{ℕ, Bool, true, false, ◌≡◌, refl, ◌∙◌, Option, none, some}
use kenshu_elaris_project_st.App.World.{World}
use kenshu_elaris_project_st.Mq.Amqp.{Amqp, Wire}
use kenshu_elaris_project_st.Mq.Channel.Kept.{is_gone-Kept}
use kenshu_elaris_project_st.Mq.Channel.{close_channel, is_gone, close_present}

-- What the calls of a `CloseChannel` do not change.
pub record KeptByCloseChannel {D : Type 0} (a : Amqp D) {A : Type 0} (f : D → A) : Type 0 where
  pub channel_closed_keeps : (ch : ℕ) (x : D) → f (a.channel_closed ch x).1 ≡ f x
  pub close_channel_keeps : (ch : ℕ) (x : D) → f (a.close_channel ch x).1 ≡ f x

module _ {D : Type 0} (a : Amqp D) {A : Type 0} {f : D → A} (kept : KeptByCloseChannel a f) where
  close_present-kept :
      (channel : Option ℕ) (gone : Bool) (w : World (Wire D))
      → f (close_present a channel gone w).1.ext.outside ≡ f w.ext.outside
  unfolding close_present
  close_present-kept none gone w = refl
  close_present-kept (some ch) true w = refl
  close_present-kept (some ch) false w = kept.close_channel_keeps ch w.ext.outside

  pub close_channel-kept :
      (channel : Option ℕ) (w : World (Wire D))
      → f (close_channel a channel w).1.ext.outside ≡ f w.ext.outside
  unfolding close_channel
  close_channel-kept channel w =
      let (gone, v) = is_gone a channel w in
      close_present-kept channel gone v ∙ is_gone-Kept a kept.channel_closed_keeps channel w
