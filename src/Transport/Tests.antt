-- ===== src/Transport/Tests.antt =====
-- The readiness probe before a connection is made.
use kenshu_elaris_project_st.Mdb.Client.{Mdb}

abbrev client : Mdb
client = record { client = 3; database = "hotel" }
