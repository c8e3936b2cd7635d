-- ===== src/Common/Utils.antt =====
-- common/utils.go: what the two proxies read of a request, and the test of a response code.
use zk_wsp.Prelude.{Bool, ◌&&◌, Option, none, some, Bytes, codes, is_empty, if◌then◌else◌}
use zk_wsp.Prelude.Int.{ℤ, pos, ltb_ℤ}
use zk_wsp.Http.Header.{get, query_get}
use zk_wsp.Http.Writer.{ResponseWriter}
use zk_wsp.Http.Response.{proxy_errorf}
use zk_wsp.Http.Request.{UrlLib, Request}

unfoldable pub resp_code_is_ok : ℤ → Bool
resp_code_is_ok status = ltb_ℤ (pos 199) status && ltb_ℤ status (pos 300)

module _ (lib : UrlLib) where
  open lib use {Url, parse, query}

  -- A header field, or the query parameter of the same name where that is missing or empty.
  abbrev pub field : Request Url → Bytes → Bytes
  field r key = let v = get r.header key in if is_empty v then query_get (query r.url) key else v

  -- `GetClientId`: `none` is the error.
  unfoldable pub get_client_id : ResponseWriter → Request Url → Option Bytes × ResponseWriter
  get_client_id w r =
      let id = field r (codes "X-CLIENT-ID") in
      if is_empty id then (none, proxy_errorf (codes "Missing clientId value") w) else (some id, w)

  abbrev pub parse_or_error : ResponseWriter → Option Url → Option Url × ResponseWriter
  parse_or_error w none =
      (none, proxy_errorf (codes "Unable to parse X-PROXY-DESTINATION header") w)
  parse_or_error w (some u) = (some u, w)

  -- `GetDestinationUrl`
  unfoldable pub get_destination_url : ResponseWriter → Request Url → Option Url × ResponseWriter
  get_destination_url w r =
      let dst = field r (codes "X-PROXY-DESTINATION") in
      if is_empty dst
      then (none, proxy_errorf (codes "Missing X-PROXY-DESTINATION value") w)
      else parse_or_error w (parse dst)
