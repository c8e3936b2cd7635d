-- ===== src/Server/Handlers/Errors.antt =====
-- Requests that name no client: server/server.go, `Request`.
use zk_wsp.Prelude.{is_empty, ◌≡◌, refl, true, false, some, none, codes, is_empty}
use zk_wsp.Outcome.{ok}
use zk_wsp.Http.Header.{get, query_get}
use zk_wsp.Http.Writer.{ResponseWriter}
use zk_wsp.Http.Response.{proxy_errorf}
use zk_wsp.Http.Request.{UrlLib, Request}
use zk_wsp.Common.Utils.{field, get_client_id, get_destination_url}
use zk_wsp.Common.Store.{Store}
use zk_wsp.Server.Handlers.{Server, RequestEnv, request}

module _ (lib : UrlLib) (w : ResponseWriter) (r : Request lib.Url) where
  get_destination_url-parsed :
      (url : lib.Url)
      → is_empty (field lib r (codes "X-PROXY-DESTINATION")) ≡ false
      → lib.parse (field lib r (codes "X-PROXY-DESTINATION")) ≡ some url
      → get_destination_url lib w r ≡ (some url, w)
  unfolding get_destination_url
  get_destination_url-parsed url b c = rw (b, c) refl

  get_client_id-missing :
      is_empty (get r.header (codes "X-CLIENT-ID")) ≡ true
      → is_empty (query_get (lib.query r.url) (codes "X-CLIENT-ID")) ≡ true
      → get_client_id lib w r ≡ (none, proxy_errorf (codes "Missing clientId value") w)
  unfolding get_client_id
  get_client_id-missing a d = rw (a, d) refl

-- A request with a destination that can be parsed but without the header field X-CLIENT-ID is
-- refused if the destination has no such query parameter, even if the URL of the request has one,
-- and the refusal is written twice.
pub request-missing_client :
    (lib : UrlLib) (e : RequestEnv) (w : ResponseWriter) (r : Request lib.Url) (s : Store)
    (sv : Server) (url : lib.Url)
    → is_empty (get r.header (codes "X-CLIENT-ID")) ≡ true
    → is_empty (field lib r (codes "X-PROXY-DESTINATION")) ≡ false
    → lib.parse (field lib r (codes "X-PROXY-DESTINATION")) ≡ some url
    → is_empty (query_get (lib.query url) (codes "X-CLIENT-ID")) ≡ true
    → request lib e w r s sv
      ≡ ok (
        proxy_errorf
            (codes "Missing clientId value")
            (proxy_errorf (codes "Missing clientId value") w),
        s,
        sv,
      )
unfolding request
request-missing_client lib e w r s sv url a b c d =
    let found = get_destination_url-parsed lib w r url b c in
    let missing = get_client_id-missing lib w (record r { url = url }) a d in
    rw (found, missing) refl
