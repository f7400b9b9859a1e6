-- ===== src/Mq/Connection/Laws.antt =====
-- The dials of a connection, and its calls behind a `Close`.
use kenshu_elaris_project_st.Base.{
  ℕ, zero, suc, ◌+◌, ◌<◌, ◌≤◌, Bool, true, false, ◌≡◌, refl, sym, ◌∙◌, ap, subst, Option, none,
  some, List, [], ◌∷◌, ◌++◌, if◌then◌else◌, arith,
}
use kenshu_elaris_project_st.Domain.Errors.{Error, Result, ok, err, wrapped}
use kenshu_elaris_project_st.App.World.{World, warning}
use kenshu_elaris_project_st.Mq.Amqp.{Amqp, Uri, RabbitMqConnection, Wire}
use kenshu_elaris_project_st.Mq.Connection.{
  dial_answer, dial_loop, back_off, set_conn, uri_of, last_error, reconnect_locked,
  rabbit_dial_attempts, connection_closed_error, open_connection, is_connection_open, closed_before,
  close, mark_closed, close_unless,
}

-- What the calls behind a `Close` do not change.
pub record KeptByClose {D : Type 0} (a : Amqp D) {A : Type 0} (f : D → A) : Type 0 where
  pub closed_keeps : (conn : ℕ) (x : D) → f (a.connection_closed conn x).1 ≡ f x
  pub close_keeps : (conn : ℕ) (x : D) → f (a.close_connection conn x).1 ≡ f x

-- `dials` counts the calls of `Dial`, and no other call of the library that a connection makes.
pub record CountsDials {D : Type 0} (a : Amqp D) (dials : D → ℕ) : Type 0 where
  pub dial_counts : (uri : Uri) (x : D) → dials (a.dial uri x).1 ≡ suc (dials x)
  pub sleep_keeps : (x : D) → dials (a.sleep x).1 ≡ dials x
  pub kept_by_close : KeptByClose a dials

module _ {D : Type 0} (a : Amqp D) {dials : D → ℕ} (counts : CountsDials a dials) where
  abbrev dialled : World (Wire D) → ℕ
  dialled w = dials w.ext.outside

  -- The error that the last of `left` attempts got from `Dial`, or the one before, if none is left.
  abbrev pub LastAnswer : ℕ → Option Error → World (Wire D) → Error → Type 0
  LastAnswer zero last_err w last = last ≡ last_error last_err
  LastAnswer (suc left) last_err w last =
      (x : D) × ((a.dial (uri_of w.ext.connection.cfg) x).0 ≡ err last)
      × (dials (a.dial (uri_of w.ext.connection.cfg) x).1 ≡ dials w.ext.outside + suc left)

  -- How a connection is after at most `left` attempts, behind one that failed with `last_err`.
  abbrev pub Dialled : ℕ → Option Error → World (Wire D) → Option Error × World (Wire D) → Type 0
  Dialled left last_err w (none, v) =
      ((conn : ℕ) × (v.ext.connection.conn ≡ some conn))
      × (dials w.ext.outside < dials v.ext.outside)
      × (dials v.ext.outside ≤ dials w.ext.outside + left)
  Dialled left last_err w (some e, v) =
      ((last : Error) × LastAnswer left last_err w last
        × (e ≡ wrapped "dial rabbitmq after 5 attempts" last))
      × (v.ext.connection.conn ≡ w.ext.connection.conn)
      × (dials v.ext.outside ≡ dials w.ext.outside + left)

  back_off-dials :
      (left : ℕ) (w : World (Wire D))
      → let v = (back_off a left w).1 in
        (dialled v ≡ dialled w) × (v.ext.connection ≡ w.ext.connection)
  unfolding back_off
  back_off-dials zero w = (refl, refl)
  back_off-dials (suc left) w = (counts.sleep_keeps w.ext.outside, refl)

  answer_later :
      (left : ℕ) (e : Error) (w v : World (Wire D)) (last : Error)
      → (a.dial (uri_of w.ext.connection.cfg) w.ext.outside).0 ≡ err e
      → dialled v ≡ suc (dialled w)
      → v.ext.connection ≡ w.ext.connection
      → LastAnswer left (some e) v last
      → LastAnswer (suc left) (some e) w last
  answer_later zero e w v last got more same is = (
    w.ext.outside,
    got ∙ ap err (sym is),
    omega (arith, counts.dial_counts (uri_of w.ext.connection.cfg) w.ext.outside),
  )
  answer_later (suc left) e w v last got more same (x, answers, count) = (
    x,
    subst (λ (c : RabbitMqConnection). (a.dial (uri_of c.cfg) x).0 ≡ err last) same answers,
    subst
        (λ (c : RabbitMqConnection). dials (a.dial (uri_of c.cfg) x).1 ≡ dialled w + suc (suc left))
        same (omega (arith, more, count)),
  )

  Dialled-later :
      (left : ℕ) (before : Option Error) (e : Error) (w v : World (Wire D))
      (r : Option Error × World (Wire D))
      → (a.dial (uri_of w.ext.connection.cfg) w.ext.outside).0 ≡ err e
      → dialled v ≡ suc (dialled w)
      → v.ext.connection ≡ w.ext.connection
      → Dialled left (some e) v r
      → Dialled (suc left) before w r
  Dialled-later left before e w v (none, u) got more same (there, after, upto) =
      (there, omega (arith, more, after), omega (arith, more, upto))
  Dialled-later left before e w v (some f, u) got more same ((last, answered, is), kept, all) = (
    (last, answer_later left e w v last got more same answered, is),
    kept ∙ ap (λ (c : RabbitMqConnection). c.conn) same,
    omega (arith, more, all),
  )

  answer-Dialled :
      (left : ℕ) (again : Error → World (Wire D) → Option Error × World (Wire D))
      → ((e : Error) (v : World (Wire D)) → Dialled left (some e) v (again e v))
      → (before : Option Error) (w : World (Wire D)) (answer : Result ℕ) (v : World (Wire D))
      → (a.dial (uri_of w.ext.connection.cfg) w.ext.outside).0 ≡ answer
      → dialled v ≡ suc (dialled w)
      → v.ext.connection ≡ w.ext.connection
      → Dialled (suc left) before w (dial_answer a left again answer v)
  unfolding dial_answer set_conn
  answer-Dialled left again rest before w (ok conn) v got more same =
      ((conn, refl), omega (arith, more), omega (arith, more))
  answer-Dialled left again rest before w (err e) v got more same =
      let u : World (Wire D) = record v { log = v.log ++ warning "rabbitmq dial failed" ∷ [] } in
      let (kept, still) = back_off-dials left u in
      let z : World (Wire D) = (back_off a left u).1 in
      Dialled-later left before e w z (again e z) got (kept ∙ more) (still ∙ same) (rest e z)

  dial_loop-Dialled :
      (left : ℕ) (last : Option Error) (w : World (Wire D))
      → Dialled left last w (dial_loop a left last w)
  unfolding dial_loop
  dial_loop-Dialled zero last w = ((last_error last, refl, refl), refl, omega arith)
  dial_loop-Dialled (suc left) last w =
      let uri : Uri = uri_of w.ext.connection.cfg in
      answer-Dialled left (λ e. dial_loop a left (some e))
        (λ e v. dial_loop-Dialled left (some e) v) last w (a.dial uri w.ext.outside).0 _ refl
        (counts.dial_counts uri w.ext.outside) refl

  -- If `dials` counts the calls of `Dial`: unless the connection was closed, a reconnection succeeds
  -- after one to five dials, and then there is a connection; or it fails after exactly five, with the
  -- connection that there was and the error, wrapped, that the fifth dial, of the configuration's
  -- address, answered.
  pub reconnect-Dialled :
      (w : World (Wire D))
      → w.ext.connection.closed ≡ false
      → Dialled 5 none w (reconnect_locked a w)
  unfolding reconnect_locked
  reconnect-Dialled w not_closed =
      subst
        (λ b. Dialled 5 none w (
          if b then (some connection_closed_error, w) else dial_loop a rabbit_dial_attempts none w))
        (sym not_closed) (dial_loop-Dialled rabbit_dial_attempts none w)

-- The calls of a connection, by whichever of its users.
pub data Use : Type 0 where
  asks_open : Use
  opens : Use
  closes : Use

module _ {D : Type 0} (a : Amqp D) where
  -- The state after some calls, one behind the other as the mutex orders them.
  abbrev pub after_uses : List Use → World (Wire D) → World (Wire D)
  after_uses [] w = w
  after_uses (asks_open ∷ uses) w = after_uses uses (is_connection_open a w).1
  after_uses (opens ∷ uses) w = after_uses uses (open_connection a w).1
  after_uses (closes ∷ uses) w = after_uses uses (close a w).1

  module _ {A : Type 0} {f : D → A} (kept : KeptByClose a f) where
    -- Closed, and otherwise as `w`.
    abbrev Shut : World (Wire D) → World (Wire D) → Type 0
    Shut w v = (v.ext.connection.closed ≡ true) × (f v.ext.outside ≡ f w.ext.outside)

    closed_before-Shut :
        (conn : Option ℕ) (w v : World (Wire D)) → Shut w v → Shut w (closed_before a conn v).1
    unfolding closed_before
    closed_before-Shut none w v h = h
    closed_before-Shut (some conn) w v h = (h.0, kept.closed_keeps conn v.ext.outside ∙ h.1)

    close_unless-Shut :
        (conn : Option ℕ) (is_closed : Bool) (w v : World (Wire D))
        → Shut w v
        → Shut w (close_unless a conn is_closed v).1
    unfolding close_unless
    close_unless-Shut none is_closed w v h = h
    close_unless-Shut (some conn) true w v h = h
    close_unless-Shut (some conn) false w v h = (h.0, kept.close_keeps conn v.ext.outside ∙ h.1)

    pub close-Shut :
        (w v : World (Wire D)) → f v.ext.outside ≡ f w.ext.outside → Shut w (close a v).1
    unfolding close mark_closed
    close-Shut w v same =
        close_unless-Shut v.ext.connection.conn _ w _
          (closed_before-Shut v.ext.connection.conn w _ (refl, same))

  open_connection-closed :
      (v : World (Wire D))
      → v.ext.connection.closed ≡ true
      → open_connection a v ≡ (err connection_closed_error, v)
  unfolding open_connection
  open_connection-closed v closed = rw closed refl

  module _ {dials : D → ℕ} (counts : CountsDials a dials) where
    open counts use {kept_by_close}

    uses-Shut :
        (uses : List Use) (w v : World (Wire D))
        → Shut kept_by_close w v
        → Shut kept_by_close w (after_uses uses v)
    unfolding is_connection_open
    uses-Shut [] w v h = h
    uses-Shut (asks_open ∷ uses) w v h =
        uses-Shut uses w (is_connection_open a v).1
          (closed_before-Shut kept_by_close v.ext.connection.conn w v h)
    uses-Shut (opens ∷ uses) w v h =
        uses-Shut uses w (open_connection a v).1 (rw (open_connection-closed v h.0) h)
    uses-Shut (closes ∷ uses) w v h =
        uses-Shut uses w (close a v).1 (close-Shut kept_by_close w v h.1)

    -- If `dials` counts the calls of `Dial`: behind a `Close`, and after any further calls of the
    -- connection, nobody has dialled again, and who asks for the connection gets the error that it was
    -- closed.
    pub close_is_final :
        (uses : List Use) (w : World (Wire D))
        → let v = after_uses uses (close a w).1 in
          (dials v.ext.outside ≡ dials w.ext.outside)
          × ((open_connection a v).0 ≡ err connection_closed_error)
    close_is_final uses w =
        let h = uses-Shut uses w (close a w).1 (close-Shut kept_by_close w w refl) in
        (h.1, ap (λ r. r.0) (open_connection-closed (after_uses uses (close a w).1) h.0))
