-- ===== src/Mdb/Client/Leak.antt =====
-- What the error of `NewMongoDb` in internal/infra/mdb/mongo_db.go tells, if the ping fails.
use kenshu_elaris_project_st.Base.{
  ℕ, ℤ, String, true, false, ◌≡◌, refl, ◌||◌, some, concat, concat_assoc, starts_with,
}
use kenshu_elaris_project_st.Domain.Errors.{Error, Result, ok, err, error_text}
use kenshu_elaris_project_st.Config.{MongoConfig}
use kenshu_elaris_project_st.Mdb.Client.{
  Driver, Mdb, client_options, build_mongo_uri, pinged, connected, new_mongo_db,
}

-- A text stands somewhere in another.
pub record Holds (text part : String) : Type 0 where
  pub before : String
  pub after : String
  pub is : text ≡ concat before (concat part after)

module _ {D : Type 0} (driver : Driver D) (decimal : ℤ → String) where
  abbrev pub Tells : String → Result Mdb → Type 0
  Tells part (ok m) = false ≡ true
  Tells part (err e) = Holds (error_text decimal e) part

  -- If the host of the configuration is no URI of its own, and the ping of the client that `Connect`
  -- made fails, then the text of the error that `NewMongoDb` answers holds the password.
  pub new_mongo_db-Tells :
      (config : MongoConfig) (client : ℕ) (e : Error) (x : D)
      → starts_with config.conn.host "mongodb://" || starts_with config.conn.host "mongodb+srv://"
        ≡ false
      → (driver.connect (client_options config) x).0 ≡ ok client
      → (driver.ping client (driver.connect (client_options config) x).1).0 ≡ some e
      → Tells config.conn.password.value (new_mongo_db driver config x).0
  unfolding new_mongo_db connected pinged error_text build_mongo_uri
  new_mongo_db-Tells config client e x no_uri connects fails =
      let user = config.conn.username.value in
      let password = config.conn.password.value in
      let host = config.conn.host in
      let reason = error_text decimal e in
      rw (connects, fails, no_uri)
        (record {
          before = concat "mongo ping failed for URI: mongodb://" (concat user ":");
          after = concat (concat "@" host) (concat ", error: " reason);
          is = simp (concat_assoc) refl;
        })
