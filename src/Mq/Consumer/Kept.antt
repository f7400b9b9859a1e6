-- ===== src/Mq/Consumer/Kept.antt =====
-- What the choice of a channel leaves alone.
use kenshu_elaris_project_st.Base.{ℕ, Bool, true, false, ◌≡◌, refl, ◌∙◌, Option, none, some}
use kenshu_elaris_project_st.App.World.{World}
use kenshu_elaris_project_st.Mq.Amqp.{Amqp, Wire}
use kenshu_elaris_project_st.Mq.Channel.{is_gone}
use kenshu_elaris_project_st.Mq.Channel.Kept.{KeptByChannel, reopen_channel-Kept, is_gone-Kept}
use kenshu_elaris_project_st.Mq.Consumer.{kept_or_new, usable_channel}

module _ {D : Type 0} (a : Amqp D) {A : Type 0} {f : D → A} (kept : KeptByChannel a f) where
  kept_or_new-Kept :
      (channel : Option ℕ) (gone : Bool) (w : World (Wire D))
      → f (kept_or_new a channel gone w).1.ext.outside ≡ f w.ext.outside
  unfolding kept_or_new
  kept_or_new-Kept none gone w = reopen_channel-Kept a kept w
  kept_or_new-Kept (some ch) true w = reopen_channel-Kept a kept w
  kept_or_new-Kept (some ch) false w = refl

  pub usable_channel-Kept :
      (channel : Option ℕ) (w : World (Wire D))
      → f (usable_channel a channel w).1.ext.outside ≡ f w.ext.outside
  unfolding usable_channel
  usable_channel-Kept channel w =
      let (gone, v) = is_gone a channel w in
      kept_or_new-Kept channel gone v ∙ is_gone-Kept a kept.channel_closed_keeps channel w
