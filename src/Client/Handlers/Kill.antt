-- ===== src/Client/Handlers/Kill.antt =====
-- The answer of a killed client: client/client.go, `Request` and `SendKillResponse`.
use zk_wsp.Prelude.{◌≡◌, refl, true, false, some, none, Bytes, ◌++◌}
use zk_wsp.Outcome.{ok}
use zk_wsp.Http.Writer.{ResponseWriter}
use zk_wsp.Http.Request.{UrlLib, Request}
use zk_wsp.Common.Store.{Store}
use zk_wsp.Client.Handlers.{Client, RequestEnv, send_kill_response, request}

-- What a killed client answers: the status 200 with the header as it was, and the text.
abbrev pub IsKillAnswer : Bytes → ResponseWriter → ResponseWriter → Type 0
IsKillAnswer json w w' = (w'.sent ≡ some (200, w.header)) × (w'.body ≡ w.body ++ json)

-- A killed client answers a request, to whatever destination, without a look at its pool: the store
-- and the client are as they were, no refresh is started, and what goes out is the status 200 with
-- the header that the writer had, so without the content type that is set too late.
pub request-killed :
    (lib : UrlLib) (e : RequestEnv) (w : ResponseWriter) (r : Request lib.Url) (s : Store)
    (c : Client)
    → c.killed ≡ true
    → w.sent ≡ none
    → (w' : ResponseWriter) × (request lib e w r s c ≡ ok (w', s, c, false))
      × IsKillAnswer e.kill_json w w'
unfolding request send_kill_response
request-killed lib e w r s c k n = (send_kill_response e.kill_json w, rw k refl, (rw n refl, refl))
