-- ===== src/Client/Login/Refresh.antt =====
-- What a refresh of the token does: client/wspLogin.go, `RefreshWspToken`.
use zk_wsp.Prelude.{◌≡◌, refl, true, false, none, some}
use zk_wsp.Result.{Result, value, error}
use zk_wsp.Client.Config.{Config}
use zk_wsp.Client.Login.{
  WspLogin, WspLoginResponse, LoginLib, LoginError, cluster_killed, fetch, store_token,
  begin_refresh, continue_refresh, end_refresh, Refreshing, refresh_wsp_token,
}

-- What a refresh that asks the cloud service returns and leaves.
abbrev pub Answered : Result LoginError WspLoginResponse → WspLogin → Refreshing → Type 0
Answered (error e) h (err, h') = (err ≡ some e) × (h' ≡ h)
Answered (value r) h (err, h') =
    (err ≡ none)
    × (h'.auth_token ≡ r.payload.auth_token)
    × (h'.cluster_id ≡ r.payload.cluster_id)
    × (h'.killed ≡ r.payload.killed)
    × (h'.refresh_in_progress ≡ false)

continue-Answered :
    (x : Result LoginError WspLoginResponse) (h : WspLogin)
    → h.killed ≡ false
    → h.refresh_in_progress ≡ false
    → Answered x h (continue_refresh x (begin_refresh h))
unfolding continue_refresh begin_refresh store_token end_refresh
continue-Answered (error e) h k b = rw (b, k) (refl, refl)
continue-Answered (value r) h k b = rw (b, k) (refl, refl, refl, refl, refl)

-- If the login is not marked as killed and no refresh is in progress, then a refresh asks the cloud
-- service: on an error it returns that error and leaves the login as it was, and on an answer it
-- takes over the token, the cluster and the killed mark. It leaves no refresh in progress.
pub refresh-Answered :
    (lib : LoginLib) (config : Config) (h : WspLogin)
    → h.killed ≡ false
    → h.refresh_in_progress ≡ false
    → Answered (fetch lib config) h (refresh_wsp_token lib config h)
unfolding refresh_wsp_token
refresh-Answered lib config h k b = continue-Answered (fetch lib config) h k b

-- Once the login is marked as killed and no refresh is in progress, the next refresh returns an
-- error, but it leaves the refresh in progress for ever: each later one returns no error, asks
-- nothing and changes nothing.
pub refresh-killed :
    (lib later_lib : LoginLib) (config : Config) (h : WspLogin)
    → h.killed ≡ true
    → h.refresh_in_progress ≡ false
    → let stuck = record h { refresh_in_progress = true } in
      (refresh_wsp_token lib config h ≡ (some cluster_killed, stuck))
      × (refresh_wsp_token later_lib config stuck ≡ (none, stuck))
unfolding refresh_wsp_token begin_refresh continue_refresh
refresh-killed lib later_lib config h k b = (rw (b, k) refl, refl)
