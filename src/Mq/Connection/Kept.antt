-- ===== src/Mq/Connection/Kept.antt =====
-- What the opening of a connection leaves alone.
use kenshu_elaris_project_st.Base.{
  ℕ, zero, suc, Bool, true, false, if◌then◌else◌, ◌≡◌, refl, ◌∙◌, Option, none, some,
}
use kenshu_elaris_project_st.Domain.Errors.{Error, Result, ok, err, foreign}
use kenshu_elaris_project_st.App.World.{World}
use kenshu_elaris_project_st.Mq.Amqp.{Amqp, Uri, Wire}
use kenshu_elaris_project_st.Mq.Connection.{
  uri_of, set_conn, back_off, dial_answer, dial_loop, reconnect_locked, rabbit_dial_attempts,
  closed_before, connection_closed_error, opened, open_unless, open_connection,
}

-- What the calls of an `openConnection` do not change.
pub record KeptByOpen {D : Type 0} (a : Amqp D) {A : Type 0} (f : D → A) : Type 0 where
  pub dial_keeps : (uri : Uri) (x : D) → f (a.dial uri x).1 ≡ f x
  pub sleep_keeps : (x : D) → f (a.sleep x).1 ≡ f x
  pub connection_closed_keeps : (conn : ℕ) (x : D) → f (a.connection_closed conn x).1 ≡ f x

module _ {D : Type 0} (a : Amqp D) {A : Type 0} {f : D → A} (kept : KeptByOpen a f) where
  abbrev Kept : {B : Type 0} → World (Wire D) → B × World (Wire D) → Type 0
  Kept w r = f r.1.ext.outside ≡ f w.ext.outside

  back_off-Kept : (left : ℕ) (w : World (Wire D)) → Kept w (back_off a left w)
  unfolding back_off
  back_off-Kept zero w = refl
  back_off-Kept (suc left) w = kept.sleep_keeps w.ext.outside

  answer-Kept :
      (left : ℕ) (again : Error → World (Wire D) → Option Error × World (Wire D))
      → ((e : Error) (v : World (Wire D)) → Kept v (again e v))
      → (answer : Result ℕ) (w : World (Wire D)) → Kept w (dial_answer a left again answer w)
  unfolding dial_answer set_conn
  answer-Kept left again rest (ok conn) w = refl
  answer-Kept left again rest (err e) w = rest e _ ∙ back_off-Kept left _

  dial_loop-Kept :
      (left : ℕ) (last : Option Error) (w : World (Wire D)) → Kept w (dial_loop a left last w)
  unfolding dial_loop
  dial_loop-Kept zero last w = refl
  dial_loop-Kept (suc left) last w =
      answer-Kept left (λ e. dial_loop a left (some e)) (λ e. dial_loop-Kept left (some e)) _ _
      ∙ kept.dial_keeps (uri_of w.ext.connection.cfg) w.ext.outside

  branches-Kept :
      {B : Type 0} (b : Bool) (w : World (Wire D)) (r s : B × World (Wire D))
      → Kept w r
      → Kept w s
      → Kept w (if b then r else s)
  branches-Kept true w r s hr hs = hr
  branches-Kept false w r s hr hs = hs

  reconnect-Kept : (w : World (Wire D)) → Kept w (reconnect_locked a w)
  unfolding reconnect_locked
  reconnect-Kept w =
      branches-Kept w.ext.connection.closed w (some connection_closed_error, w)
        (dial_loop a rabbit_dial_attempts none w) refl (dial_loop-Kept rabbit_dial_attempts none w)

  opened-Kept : (e : Option Error) (w : World (Wire D)) → Kept w (opened a e w)
  unfolding opened
  opened-Kept (some e) w = refl
  opened-Kept none w = there w.ext.connection.conn
    where
      there :
          (conn : Option ℕ)
          → Kept {B = Result ℕ} w
              (elim conn [ some conn ↦ (ok conn, w) | none ↦ (err (foreign "nil connection"), w) ])
      there (some conn) = refl
      there none = refl

  open_unless-Kept :
      (conn : Option ℕ) (is_closed : Bool) (w : World (Wire D))
      → Kept w (open_unless a conn is_closed w)
  unfolding open_unless
  open_unless-Kept none is_closed w =
      opened-Kept (reconnect_locked a w).0 (reconnect_locked a w).1 ∙ reconnect-Kept w
  open_unless-Kept (some conn) true w =
      opened-Kept (reconnect_locked a w).0 (reconnect_locked a w).1 ∙ reconnect-Kept w
  open_unless-Kept (some conn) false w = refl

  closed_before-Kept : (conn : Option ℕ) (w : World (Wire D)) → Kept w (closed_before a conn w)
  unfolding closed_before
  closed_before-Kept none w = refl
  closed_before-Kept (some conn) w = kept.connection_closed_keeps conn w.ext.outside

  pub open_connection-Kept :
      (w : World (Wire D)) → f (open_connection a w).1.ext.outside ≡ f w.ext.outside
  unfolding open_connection
  open_connection-Kept w =
      let conn = w.ext.connection.conn in
      let (is_closed, v) = closed_before a conn w in
      branches-Kept w.ext.connection.closed w (err connection_closed_error, w)
        (open_unless a conn is_closed v) refl
        (open_unless-Kept conn is_closed v ∙ closed_before-Kept conn w)
