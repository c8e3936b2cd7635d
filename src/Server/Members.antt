-- ===== src/Server/Members.antt =====
-- The server as a table that says how often a connection stands in the pool of a client, without the
-- order of the lists, the channels and the states of the connections: what the calls of
-- `Server.Running` promise about server/server.go, server/pool.go and server/connectionStatus.go.
pub mod Table
pub mod Handled
pub mod Synced
pub mod Swept
pub mod Refinement
use zk_wsp.Prelude.{
  ℕ, ◌+◌, ◌≡◌, ◌⊎◌, true, if◌then◌else◌, Bool, Option, none, some, List, [], ◌∷◌, Bytes, same,
}
use zk_wsp.Prelude.Dict.{lookup}
use zk_wsp.Result.{value}
use zk_wsp.Http.Header.{Header}
use zk_wsp.Http.Request.{UrlLib}
use zk_wsp.Common.Store.{Connection, write_conn, Store}
use zk_wsp.Common.Types.{is_closed}
use zk_wsp.Common.Auth.{ValidateAccessTokenResponse}
use zk_wsp.Common.Read.Laws.{same_conn}
use zk_wsp.Server.Pool.{Pool}
use zk_wsp.Server.Pool.Remove.{present}
use zk_wsp.Server.Handlers.{Server, RegisterEnv}
use zk_wsp.Server.Handlers.Registration.{validated}
use zk_wsp.Server.Running.{Call, registered, requested, cleaned, synced, started, ended}

abbrev pub Table : Type 0
Table = Bytes → Connection → ℕ

abbrev pub count_in : Connection → Option Pool → ℕ
count_in d none = 0
count_in d (some p) = present d p

abbrev pub table_of : List (Bytes × Pool) → Table
table_of ps k d = count_in d (lookup k ps)

abbrev pub IsSame : Table → Table → Type 0
IsSame v v' = (k : Bytes) (d : Connection) → v' k d ≡ v k d

-- One connection more for a client
abbrev pub IsJoined : Bytes → Connection → Table → Table → Type 0
IsJoined id c v v' =
    (k : Bytes) (d : Connection)
    → v' k d ≡ v k d + (if same id k then (if same_conn c d then 1 else 0) else 0)

-- A client without one connection
abbrev pub IsLeft : Bytes → Connection → Table → Table → Type 0
IsLeft id c v v' =
    (k : Bytes) (d : Connection)
    → v' k d ≡ (if same id k then (if same_conn c d then 0 else v k d) else v k d)

-- Some connections are gone.
abbrev pub IsThinned : Table → Table → Type 0
IsThinned v v' = (k : Bytes) (d : Connection) → (v' k d ≡ v k d) ⊎ (v' k d ≡ 0)

-- What a call may do to the table of the server `sv`; `s'` is the store behind it.
module _ (lib : UrlLib) where
  abbrev pub Promise : Call lib → Server → Store → Table → Table → Type 0
  Promise (registered e header w) sv s' v v' =
      IsSame v v'
      ⊎ ((response : ValidateAccessTokenResponse) × (validated e header sv ≡ value response)
          × (response.payload.is_valid ≡ true)
          × ((c : Connection) × IsJoined response.payload.cluster_id c v v'))
  Promise (requested e w r) sv s' v v' =
      IsSame v v'
      ⊎ ((id : Bytes) × ((i : ℕ) × (is_closed (s'.writes i).status ≡ true)
            × IsLeft id (write_conn i) v v'))
  Promise (cleaned held now) sv s' v v' = IsThinned v v'
  Promise (synced e) sv s' v v' = IsSame v v'
  Promise (started id i now) sv s' v v' = IsSame v v'
  Promise (ended id c) sv s' v v' = IsLeft id c v v'
