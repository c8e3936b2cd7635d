-- ===== src/Http/Request.antt =====
-- request.go: the serializable request. net/url is a parameter.
use zk_wsp.Prelude.{Option, none, some, List, Bytes}
use zk_wsp.Prelude.Int.{ℤ}
use zk_wsp.Http.Header.{Header}

-- `url.Parse`, `URL.String` and `URL.Query`.
pub record UrlLib : Type 1 where
  pub Url : Type 0
  pub parse : Bytes → Option Url
  pub string : Url → Bytes
  pub query : Url → List (Bytes × Bytes)

-- What the serializer reads of an `http.Request`; the query is that of `URL`.
pub record Request (Url : Type 0) : Type 0 where
  pub method : Bytes
  pub url : Url
  pub header : Header
  pub content_length : ℤ

pub record HttpRequest : Type 0 where
  pub method : Bytes
  pub url : Bytes
  pub header : Header
  pub content_length : ℤ

module _ (lib : UrlLib) where
  open lib use {Url, parse, string}

  unfoldable pub serialize_http_request : Request Url → HttpRequest
  serialize_http_request r = record {
    method = r.method;
    url = string r.url;
    header = r.header;
    content_length = r.content_length;
  }

  -- `UnserializeHTTPRequest`: `none` is the error of `url.Parse`.
  unfoldable pub unserialize_http_request : HttpRequest → Option (Request Url)
  unserialize_http_request r = elim (parse r.url) [
    | none ↦ none
    | some u ↦ some (record {
      method = r.method;
      url = u;
      header = r.header;
      content_length = r.content_length;
    })
  ]
