-- ===== src/Server/Status.antt =====
-- Whether clients are connected: server/connectionStatus.go, and `getConnectionStatus` of
-- server/server.go.
pub mod Sync
use zk_wsp.Result.{Result, ◌>>=◌ as ◌>>>=◌, ◌>>◌, or_error, require}
use zk_wsp.Server.Config.{Config}
use zk_wsp.Prelude.Int.{ℤ, pos, ltb_ℤ}
use zk_wsp.Prelude.{
  ◌||◌, not, List, [], ◌∷◌, ◌++◌, codes, ℕ, Bool, true, false, Option, none, some, Bytes, length,
  ltb,
}
use zk_wsp.Prelude.Dict.{lookup, keys}
use zk_wsp.Outcome.{Outcome, ok, ◌>>=◌}
use zk_wsp.Common.Store.{Store}
use zk_wsp.Common.Write.{PingEnv, PingError, send_ping_message}
use zk_wsp.Common.Receive.{Round}
use zk_wsp.Server.Pool.{
  Pool, server_pool, get_all_busy_write_connections, get_idle_write_connection,
}
use zk_wsp.Server.Handlers.{Server, set_pool}

pub data StatusError : Type 0 where
  no_pool no_connection ping_failed : StatusError

abbrev pub status_of : Bool → Option StatusError
status_of true = none
status_of false = some no_connection

abbrev pub ping_status : Option PingError → Option StatusError
ping_status none = none
ping_status (some _) = some ping_failed

-- `getConnectionStatus` behind `GetIdleWriteConnection`; `busy` says whether a connection is busy.
abbrev pub probe :
    PingEnv
    → Bytes
    → Bool
    → Server
    → Option ℕ × Store × Pool
    → Outcome (Option StatusError × Store × Server)
probe ping id busy sv (none, s, p) = ok (status_of busy, s, set_pool id p sv)
probe ping id busy sv (some i, s, p) = send_ping_message server_pool ping i s p >>= λ (err, s', p').
    ok (ping_status err, s', set_pool id p' sv)

-- `getConnectionStatus`: the client is connected if there is no error.
unfoldable pub get_connection_status :
    (ℕ → Round) → PingEnv → Bytes → Store → Server → Outcome (Option StatusError × Store × Server)
get_connection_status rounds ping id s sv = elim (lookup id sv.pools) [
  | none ↦ ok (some no_pool, s, sv)
  | some p ↦
      probe ping id (ltb 0 (length (get_all_busy_write_connections s p))) sv
        (get_idle_write_connection sv.config rounds s p)
]

-- What `PeriodicSync` meets: for each client the rounds of the wait and the ping, and the calls that
-- push the data: `json.Marshal`, `http.NewRequest` (false is an error) and `client.Do`, which
-- answers the status code.
pub record SyncEnv : Type 0 where
  pub rounds : Bytes → ℕ → Round
  pub ping : Bytes → PingEnv
  pub marshal : List (Bytes × Bool) → Option Bytes
  pub new_request : Bytes → Bool
  pub post : Bytes → Bytes → Option ℤ

pub data PushError : Type 0 where
  not_marshaled bad_request not_sent : PushError
  bad_status : ℤ → PushError

abbrev is_ok : ℤ → Bool
is_ok code = not (ltb_ℤ code (pos 200) || ltb_ℤ (pos 200) code)

-- `PushData`: only the status 200 will do.
unfoldable pub push_data : SyncEnv → Bytes → List (Bytes × Bool) → Result PushError (Unit {0})
push_data e url data_ = or_error (e.marshal data_) not_marshaled >>>= λ json.
    require (e.new_request url) bad_request
    >> (or_error (e.post url json) not_sent >>>= λ code. require (is_ok code) (bad_status code))

abbrev pub is_connected : Option StatusError → Bool
is_connected none = true
is_connected (some _) = false

-- The loop of `PeriodicSync` over the clients
unfoldable pub collect :
    SyncEnv → List Bytes → Store → Server → Outcome (List (Bytes × Bool) × Store × Server)
collect e [] s sv = ok ([], s, sv)
collect e (id ∷ ids) s sv =
    get_connection_status (e.rounds id) (e.ping id) id s sv >>= λ (err, s', sv').
    collect e ids s' sv' >>= λ (states, s'', sv''). ok ((id, is_connected err) ∷ states, s'', sv'')

abbrev pub sync_url : Config → Bytes
sync_url c =
    codes "http://"
    ++ c.zk_cloud.host
    ++ codes ":"
    ++ c.zk_cloud.port
    ++ c.zk_cloud.connection_sync_path

-- `PeriodicSync`: what it pushes, the error of `PushData`, which it drops, and the state behind it.
unfoldable pub periodic_sync :
    SyncEnv
    → Store
    → Server
    → Outcome (List (Bytes × Bool) × Result PushError (Unit {0}) × Store × Server)
periodic_sync e s sv = collect e (keys sv.pools) s sv >>= λ (states, s', sv').
    ok (states, push_data e (sync_url sv.config) states, s', sv')
