-- ===== src/Http/Response.antt =====
-- response.go
use zk_wsp.Prelude.{[], Bytes}
use zk_wsp.Prelude.Int.{ℤ, pos}
use zk_wsp.Http.Header.{Header}
use zk_wsp.Http.Writer.{ResponseWriter, error}

-- The serializable version of `http.Response`.
pub record HttpResponse : Type 0 where
  pub status_code : ℤ
  pub header : Header
  pub content_length : ℤ

-- What the serializer reads of an `http.Response`, and its body.
pub record Response : Type 0 where
  pub status_code : ℤ
  pub header : Header
  pub content_length : ℤ
  pub body : Bytes

unfoldable pub serialize_http_response : Response → HttpResponse
serialize_http_response r = record {
  status_code = r.status_code;
  header = r.header;
  content_length = r.content_length;
}

unfoldable pub new_http_response : HttpResponse
new_http_response = record { status_code = pos 0; header = []; content_length = pos 0 }

-- `ProxyError`; `ProxyErrorf` builds the message and calls it.
unfoldable pub proxy_error : Bytes → ResponseWriter → ResponseWriter
unfolding error
proxy_error message w = error message 500 w

abbrev pub proxy_errorf : Bytes → ResponseWriter → ResponseWriter
proxy_errorf message w = proxy_error message w

-- `InvalidClusterError`; `InvalidClusterErrorf` builds the message and calls it.
unfoldable pub invalid_cluster_error : Bytes → ResponseWriter → ResponseWriter
unfolding error
invalid_cluster_error message w = error message 526 w

abbrev pub invalid_cluster_errorf : Bytes → ResponseWriter → ResponseWriter
invalid_cluster_errorf message w = invalid_cluster_error message w
