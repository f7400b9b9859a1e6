-- ===== src/Mdb/Client/Laws.antt =====
-- The clients of the database that are connected behind `NewMongoDb`.
use kenshu_elaris_project_st.Base.{
  ℕ, suc, ◌-◌, arith, ◌≡◌, ◌∙◌, refl, ◌⊎◌, inl, inr, Option, none, some,
}
use kenshu_elaris_project_st.Domain.Errors.{Error, Result, ok, err}
use kenshu_elaris_project_st.Config.{MongoConfig}
use kenshu_elaris_project_st.Mdb.Client.{
  Driver, Mdb, ClientOptions, client_options, pinged, connected, new_mongo_db,
}

-- `clients` counts the clients that are connected: `Connect` adds one unless it fails, `Disconnect`
-- takes one away if it answers nil, and `Ping` does neither. What a `Disconnect` with an error has
-- closed is left open.
abbrev pub WithConnect : {D : Type 0} → (D → ℕ) → D → Result ℕ × D → Type 0
WithConnect clients x (ok client, y) = clients y ≡ suc (clients x)
WithConnect clients x (err e, y) = clients y ≡ clients x

abbrev pub WithDisconnect : {D : Type 0} → (D → ℕ) → D → Option Error × D → Type 0
WithDisconnect clients x (none, y) = clients y ≡ clients x - 1
WithDisconnect clients x (some e, y) = Unit

pub record CountsClients {D : Type 0} (driver : Driver D) (clients : D → ℕ) : Type 0 where
  pub connect_counts :
      (options : ClientOptions) (x : D) → WithConnect clients x (driver.connect options x)
  pub ping_keeps : (client : ℕ) (x : D) → clients (driver.ping client x).1 ≡ clients x
  pub disconnect_counts :
      (client : ℕ) (x : D) → WithDisconnect clients x (driver.disconnect client x)

module _ {D : Type 0} (driver : Driver D) {clients : D → ℕ} (k : CountsClients driver clients) where
  -- `Disconnect` was asked for a client, last of all, and failed.
  pub record Kept (y : D) : Type 0 where
    pub client : ℕ
    pub reason : Error
    pub earlier : D
    pub is : driver.disconnect client earlier ≡ (some reason, y)

  -- A client that answers to a ping is open, or none is in addition, or it could not be closed.
  abbrev pub Balanced : ℕ → Result Mdb × D → Type 0
  Balanced before (ok m, y) = (clients y ≡ suc before)
  Balanced before (err e, y) = (clients y ≡ before) ⊎ Kept y

  dropped :
      (before client : ℕ) (x : D) (answer : Option Error × D)
      → driver.disconnect client x ≡ answer
      → WithDisconnect clients x answer
      → clients x ≡ suc before
      → (clients answer.1 ≡ before) ⊎ Kept answer.1
  dropped before client x (none, y) is less more = inl (omega (arith, less, more))
  dropped before client x (some e, y) is less more =
      inr (record { client = client; reason = e; earlier = x; is = is })

  pinged-Balanced :
      (config : MongoConfig) (before client : ℕ) (e : Option Error) (x : D)
      → clients x ≡ suc before
      → Balanced before (pinged driver config client e x)
  unfolding pinged
  pinged-Balanced config before client none x is = is
  pinged-Balanced config before client (some e) x is =
      dropped before client x (driver.disconnect client x) refl (k.disconnect_counts client x) is

  connected-Balanced :
      (config : MongoConfig) (x : D) (r : Result ℕ) (y : D)
      → WithConnect clients x (r, y)
      → Balanced (clients x) (connected driver config r y)
  unfolding connected
  connected-Balanced config x (err e) y same = inl same
  connected-Balanced config x (ok client) y more =
      let (e, z) = driver.ping client y in
      pinged-Balanced config (clients x) client e z (k.ping_keeps client y ∙ more)

  -- If `clients` counts the clients that are connected: `NewMongoDb` leaves one more of them if it
  -- succeeds. If it fails, be it in the connection or in the ping, it leaves as many as before, unless
  -- the last call was a `Disconnect` that failed, whose error is dropped.
  pub new_mongo_db-Balanced :
      (config : MongoConfig) (x : D) → Balanced (clients x) (new_mongo_db driver config x)
  unfolding new_mongo_db
  new_mongo_db-Balanced config x =
      let (r, y) = driver.connect (client_options config) x in
      connected-Balanced config x r y (k.connect_counts (client_options config) x)
