-- ===== src/Client/Login.antt =====
-- client/wspLogin.go: the token with which the client logs in to the server, and its refresh.
pub mod Refresh
pub mod Interleaving
use zk_wsp.Prelude.{
  Bool, true, false, ◌||◌, Option, none, some, ◌++◌, if◌then◌else◌, Bytes, codes, same, [],
}
use zk_wsp.Prelude.Int.{ℤ}
use zk_wsp.Result.{Result, value, error, ◌>>=◌, ◌>>◌, or_error, require}
use zk_wsp.Common.Utils.{resp_code_is_ok}
use zk_wsp.Client.Config.{Config, WspLoginConfig}

-- `refresh_in_progress` is read and written under the mutex, the other fields are not.
pub record WspLogin : Type 0 where
  pub auth_token : Bytes
  pub cluster_id : Bytes
  pub killed : Bool
  pub refresh_in_progress : Bool

pub record WspTokenObj : Type 0 where
  pub auth_token : Bytes
  pub cluster_id : Bytes
  pub killed : Bool

-- Of the error object only the message is read.
pub record WspLoginResponse : Type 0 where
  pub payload : WspTokenObj
  pub error : Option Bytes

pub record WspLoginRequest : Type 0 where
  pub cluster_key : Bytes

-- A response: its status code, and its body unless reading it fails.
pub record LoginReply : Type 0 where
  pub status_code : ℤ
  pub body : Option Bytes

-- What `GetSecretValue` of Client/Secrets answers, `json.Marshal`, `http.NewRequest` (false is an error),
-- `http.DefaultClient.Do` and `json.Unmarshal`.
pub record LoginLib : Type 0 where
  pub get_secret_value : Option Bytes
  pub marshal : WspLoginRequest → Option Bytes
  pub new_request : Bytes → Bool
  pub post : Bytes → Bytes → Option LoginReply
  pub unmarshal : Bytes → Option WspLoginResponse

pub data LoginError : Type 0 where
  cluster_killed no_secret not_marshaled bad_request not_sent unreadable bad_json : LoginError
  bad_status : ℤ → LoginError
  refused : Bytes → LoginError

unfoldable pub endpoint : WspLoginConfig → Bytes
endpoint c =
    let protocol = if same c.port (codes "443") then codes "https" else codes "http" in
    protocol ++ codes "://" ++ c.host ++ codes ":" ++ c.port ++ c.path

abbrev no_error : Option Bytes → Result LoginError (Unit {0})
no_error none = value tt
no_error (some message) = error (refused message)

-- `updateAuthTokenFromZkCloud` up to the response of the cloud service
unfoldable pub fetch : LoginLib → Config → Result LoginError WspLoginResponse
fetch lib config = do
  cluster_key ← or_error lib.get_secret_value no_secret
  data_ ← or_error (lib.marshal (record { cluster_key = cluster_key })) not_marshaled
  require (lib.new_request (endpoint config.wsp_login)) bad_request
  reply ← or_error (lib.post (endpoint config.wsp_login) data_) not_sent
  body ← or_error reply.body unreadable
  require (resp_code_is_ok reply.status_code) (bad_status reply.status_code)
  response ← or_error (lib.unmarshal body) bad_json
  no_error response.error
  value response

abbrev pub Refreshing : Type 0
Refreshing = Option LoginError × WspLogin

-- `updateAuthTokenFromZkCloud`: the killed mark is set and never cleared.
unfoldable pub store_token : Result LoginError WspLoginResponse → WspLogin → Refreshing
store_token (error e) h = (some e, h)
store_token (value r) h = (
  none,
  record h {
    killed = h.killed || r.payload.killed;
    auth_token = r.payload.auth_token;
    cluster_id = r.payload.cluster_id;
  },
)

unfoldable pub update_auth_token_from_zk_cloud : LoginLib → Config → WspLogin → Refreshing
update_auth_token_from_zk_cloud lib config h = store_token (fetch lib config) h

-- How `RefreshWspToken` goes on behind its first critical section.
pub data Begun : Type 0 where
  already_in_progress is_killed started : Begun

-- The first critical section of `RefreshWspToken`, and the test of `killed`
unfoldable pub begin_refresh : WspLogin → Begun × WspLogin
begin_refresh h =
    if h.refresh_in_progress
    then (already_in_progress, h)
    else if h.killed
    then (is_killed, record h { refresh_in_progress = true })
    else (started, record h { refresh_in_progress = true })

-- The second critical section
unfoldable pub end_refresh : WspLogin → WspLogin
end_refresh h = record h { refresh_in_progress = false }

unfoldable pub continue_refresh : Result LoginError WspLoginResponse → Begun × WspLogin → Refreshing
continue_refresh x (already_in_progress, h) = (none, h)
continue_refresh x (is_killed, h) = (some cluster_killed, h)
continue_refresh x (started, h) = let (err, h') = store_token x h in (err, end_refresh h')

-- `RefreshWspToken`
unfoldable pub refresh_wsp_token : LoginLib → Config → WspLogin → Refreshing
refresh_wsp_token lib config h = continue_refresh (fetch lib config) (begin_refresh h)

abbrev pub new_login : WspLogin
new_login = record { auth_token = []; cluster_id = []; killed = false; refresh_in_progress = false }

abbrev pub login_or_nil : Refreshing → Option WspLogin
login_or_nil (none, h) = some h
login_or_nil (some _, h) = none

-- `CreateWspLogin`: nil if the first refresh fails.
unfoldable pub create_wsp_login : LoginLib → Config → Option WspLogin
create_wsp_login lib config = login_or_nil (refresh_wsp_token lib config new_login)
