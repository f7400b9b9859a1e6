-- ===== src/Main/Released.antt =====
-- What is closed when the process ends.
use kenshu_elaris_project_st.Base.{ℕ, true, ◌≡◌, List, ◌++◌}
use kenshu_elaris_project_st.Domain.Errors.{Result, ok, err}
use kenshu_elaris_project_st.App.World.{World, Action, info, write, ◌>>◌}
use kenshu_elaris_project_st.App.Services.{Made, made, refused, panic}
use kenshu_elaris_project_st.Config.{Configs, load_configs}
use kenshu_elaris_project_st.Mq.Amqp.{Wire, library}
use kenshu_elaris_project_st.Infra.{Rabbitmq, new_rabbitmq}
use kenshu_elaris_project_st.Infra.Database.{Mongo, open_repositories}
use kenshu_elaris_project_st.Infra.Telemetry.{Providers}
use kenshu_elaris_project_st.Infra.Telemetry as telemetry
use kenshu_elaris_project_st.Infra.Clock.{new_clock_client}
use kenshu_elaris_project_st.Main.{
  Outside, Held, Staff, holding, Finish, finished, failed, panicked, or_return, served,
  with_clients, with_rabbitmq, with_mongo, with_telemetry, with_configs, loaded, run, ended, main,
}
use kenshu_elaris_project_st.Main.Shutdown.{Part, Records, all_parts, shutdown-Closes}

module _ {D : Type 0} (o : Outside D) {closes : D → List Part} (r : Records o closes) where
  -- The last such calls are those of a shutdown, and the broker's connection is marked as closed.
  abbrev pub Released : World (Wire D) → Type 0
  Released v =
      ((earlier : List Part) × (closes v.ext.outside ≡ earlier ++ all_parts))
      × (v.ext.connection.closed ≡ true)

  abbrev WhenFinished : Finish → World (Wire D) → Type 0
  WhenFinished finished v = Released v
  WhenFinished (failed e) v = Unit
  WhenFinished panicked v = Unit

  or_return-Released :
      {A : Type 0} (rest : A → Action (Wire D) Finish)
      → ((x : A) (w : World (Wire D)) → WhenFinished (rest x w).0 (rest x w).1)
      → (x : Result A) (w : World (Wire D))
      → WhenFinished (or_return o rest x w).0 (or_return o rest x w).1
  unfolding or_return
  or_return-Released rest h (ok x) w = h x w
  or_return-Released rest h (err e) w = tt

  served-Released :
      (h : Held D) (s : Made (Staff D)) (w : World (Wire D))
      → WhenFinished (served o h s w).0 (served o h s w).1
  unfolding served
  served-Released h (made s) w = let (all, marked) = shutdown-Closes o r h _ in ((_, all), marked)
  served-Released h (refused e) w = tt
  served-Released h panic w = tt

  with_clients-Released :
      (configs : Configs) (providers : Providers) (mongo : Mongo D) (rabbitmq : Rabbitmq)
      (client : ℕ) (w : World (Wire D))
      → let (f, v) = with_clients o configs providers mongo rabbitmq client w in WhenFinished f v
  unfolding with_clients
  with_clients-Released configs providers mongo rabbitmq client w =
      served-Released (holding configs providers mongo rabbitmq client) _ w

  with_rabbitmq-Released :
      (configs : Configs) (providers : Providers) (mongo : Mongo D) (rabbitmq : Rabbitmq)
      (w : World (Wire D))
      → let (f, v) = with_rabbitmq o configs providers mongo rabbitmq w in WhenFinished f v
  unfolding with_rabbitmq
  with_rabbitmq-Released configs providers mongo rabbitmq w =
      let (client, v) = library (new_clock_client o.grpc configs.services) w in
      or_return-Released (with_clients o configs providers mongo rabbitmq)
        (with_clients-Released configs providers mongo rabbitmq) client v

  with_mongo-Released :
      (configs : Configs) (providers : Providers) (mongo : Mongo D) (w : World (Wire D))
      → let (f, v) = with_mongo o configs providers mongo w in WhenFinished f v
  unfolding with_mongo
  with_mongo-Released configs providers mongo w =
      let (rabbitmq, v) = new_rabbitmq o.amqp configs.rabbit_mq_config w in
      or_return-Released (with_rabbitmq o configs providers mongo)
        (with_rabbitmq-Released configs providers mongo) rabbitmq v

  with_telemetry-Released :
      (configs : Configs) (providers : Providers) (w : World (Wire D))
      → let (f, v) = with_telemetry o configs providers w in WhenFinished f v
  unfolding with_telemetry
  with_telemetry-Released configs providers w =
      let (mongo, v) =
        library (open_repositories o.driver o.collection o.decode configs.mongo_config) w in
      or_return-Released (with_mongo o configs providers) (with_mongo-Released configs providers)
        mongo v

  with_configs-Released :
      (configs : Configs) (w : World (Wire D))
      → let (f, v) = with_configs o configs w in WhenFinished f v
  unfolding with_configs
  with_configs-Released configs w =
      let (providers, v) =
        (write (info "staff simulator starting") >> telemetry.init o.otel configs.app_config) w in
      or_return-Released (with_telemetry o configs) (with_telemetry-Released configs) providers v

  run-Released : (w : World (Wire D)) → WhenFinished (run o w).0 (run o w).1
  unfolding run
  run-Released w =
      let (parsed, v) = library o.parse w in
      let (configs, z) = loaded o (load_configs parsed) v in
      or_return-Released (with_configs o) with_configs-Released configs z

  ended-Released :
      (f : Finish) (v : World (Wire D))
      → WhenFinished f v
      → (ended o f v).0 ≡ 0
      → Released (ended o f v).1
  unfolding ended
  ended-Released finished v h zero_code = h
  ended-Released (failed e) v h zero_code = cc zero_code
  ended-Released panicked v h zero_code = cc zero_code

  -- If `closes` records the calls that close a part of the program, and the process ends with the
  -- status 0, then a shutdown has closed each part once, in its order, as the last such calls, and the
  -- connection of the broker is marked as closed.
  pub main-Released : (w : World (Wire D)) → (main o w).0 ≡ 0 → Released (main o w).1
  unfolding main
  main-Released w zero_code = ended-Released (run o w).0 (run o w).1 (run-Released w) zero_code
