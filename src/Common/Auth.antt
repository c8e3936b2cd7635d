-- ===== src/Common/Auth.antt =====
-- common/model.go and common/zkAuthClient.go: the check of an access token with the cloud service.
use zk_wsp.Prelude.{Bool, Option, none, some, Bytes}
use zk_wsp.Prelude.Int.{ℤ}
use zk_wsp.Result.{Result, value, error, ◌>>=◌, ◌>>◌, or_error, require}
use zk_wsp.Common.Utils.{resp_code_is_ok}

pub record ValidateAccessTokenObj : Type 0 where
  pub is_valid : Bool
  pub ttl : ℤ
  pub cluster_id : Bytes

-- Of the error object only the message is read.
pub record ValidateAccessTokenResponse : Type 0 where
  pub payload : ValidateAccessTokenObj
  pub error : Option Bytes

pub record ValidateAccessTokenRequest : Type 0 where
  pub access_token : Bytes
  pub cluster_id : Bytes

-- A response: its status code, and its body unless reading it fails.
pub record Reply : Type 0 where
  pub status_code : ℤ
  pub body : Option Bytes

-- `http.NewRequest` (false is an error), `http.DefaultClient.Do` and `json.Unmarshal`.
pub record AuthLib : Type 0 where
  pub new_request : Bytes → Bool
  pub post : Bytes → ValidateAccessTokenRequest → Option Reply
  pub unmarshal : Bytes → Option ValidateAccessTokenResponse

pub data AuthError : Type 0 where
  bad_request not_sent unreadable bad_json : AuthError
  bad_status : ℤ → AuthError
  refused : Bytes → AuthError

abbrev no_error : Option Bytes → Result AuthError (Unit {0})
no_error none = value tt
no_error (some message) = error (refused message)

unfoldable pub validate_key_with_zk_cloud :
    AuthLib → Bytes → Bytes → Bytes → Result AuthError ValidateAccessTokenResponse
validate_key_with_zk_cloud lib cluster_key cluster_id endpoint = do
  require (lib.new_request endpoint) bad_request
  reply ←
      or_error (lib.post endpoint (record { access_token = cluster_key; cluster_id = cluster_id }))
        not_sent
  require (resp_code_is_ok reply.status_code) (bad_status reply.status_code)
  body ← or_error reply.body unreadable
  response ← or_error (lib.unmarshal body) bad_json
  no_error response.error
  value response
