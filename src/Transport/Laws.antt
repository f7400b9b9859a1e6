-- ===== src/Transport/Laws.antt =====
-- When the program says that it is ready.
use kenshu_elaris_project_st.Base.{ℕ, Bool, true, false, ◌≡◌, Option, none, some}
use kenshu_elaris_project_st.Domain.Errors.{Error}
use kenshu_elaris_project_st.App.World.{World}
use kenshu_elaris_project_st.Mq.Amqp.{Amqp}
use kenshu_elaris_project_st.Mdb.Client.{Driver, Mdb}

module _ {D : Type 0} (a : Amqp D) (driver : Driver D) where
  -- What stands behind a code of the readiness probe: the connection, and then the ping.
  abbrev pub Readiness : Bool → Option Error → ℕ → Type 0
  Readiness true none code = code ≡ 200
  Readiness true (some e) code = code ≡ 503
  Readiness false answer code = code ≡ 503
