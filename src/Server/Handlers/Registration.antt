-- ===== src/Server/Handlers/Registration.antt =====
-- Who gets a connection into which pool: server/server.go, `Register`.
use zk_wsp.Prelude.{ℕ, ◌≡◌, ◌⊎◌, inl, inr, refl, true, Option, none, some, Bytes, codes, Bool-cases}
use zk_wsp.Prelude.Int.{ℤ}
use zk_wsp.Outcome.{ok, panic, Returns, Returns->>=}
use zk_wsp.Result.{Result, value, error}
use zk_wsp.Http.Header.{Header, get}
use zk_wsp.Http.Writer.{ResponseWriter}
use zk_wsp.Common.Types.{of_int}
use zk_wsp.Common.Store.{Connection, Store}
use zk_wsp.Common.Auth.{ValidateAccessTokenResponse, validate_key_with_zk_cloud, AuthError}
use zk_wsp.Greeting.{parse_greeting, atoi}
use zk_wsp.Greeting.RoundTrip.{NoSeparator, parse_greeting-one}
use zk_wsp.Server.Handlers.Pools.{IsFiled}
use zk_wsp.Server.Handlers.Entered.{Entered, register_connection-Entered}
use zk_wsp.Server.Handlers.{
  is_made, find_pool, Server, RegisterEnv, Registered, register, greet, register_connection,
  login_url, enter, upgrade, admit,
}

-- What the cloud service answers to the key of a request.
abbrev pub validated : RegisterEnv → Header → Server → Result AuthError ValidateAccessTokenResponse
validated e header sv =
    validate_key_with_zk_cloud e.auth (get header (codes "X-SECRET-KEY"))
      (get header (codes "X-CLUSTER-ID")) (login_url sv.config)

-- A connection was admitted: the service called the key valid, the connection was upgraded, its
-- greeting was read, and it has entered the pool of the cluster that the service named.
pub record Admitted (e : RegisterEnv) (header : Header) (s : Store) (sv : Server) (s' : Store)
    (sv' : Server) (started : Option Connection) : Type 0 where
  pub response : ValidateAccessTokenResponse
  pub answered : validated e header sv ≡ value response
  pub valid : response.payload.is_valid ≡ true
  pub ws : ℕ
  pub upgraded : e.upgrade ≡ some ws
  pub message : Bytes
  pub greeted : e.read_message ≡ some message
  pub idle_size : ℤ
  pub type : ℤ
  pub parsed : parse_greeting message ≡ ok (some (idle_size, type))
  pub registered :
      (started, s', sv')
      ≡ register_connection response.payload.cluster_id idle_size (of_int type) ws s sv
  pub entered : Entered response.payload.cluster_id idle_size (of_int type) s sv (started, s', sv')

-- Either the server is as it was and no connection is started, or a connection was admitted.
abbrev pub Registers : RegisterEnv → Header → Store → Server → Registered → Type 0
Registers e header s sv (w', s', sv', started) =
    ((sv' ≡ sv) × (started ≡ none)) ⊎ Admitted e header s sv s' sv' started

parsed-Registers :
    (e : RegisterEnv) (header : Header) (w : ResponseWriter) (s : Store) (sv : Server)
    (response : ValidateAccessTokenResponse) (ws : ℕ) (message : Bytes) (parsed : Option (ℤ × ℤ))
    → validated e header sv ≡ value response
    → response.payload.is_valid ≡ true
    → e.upgrade ≡ some ws
    → e.read_message ≡ some message
    → parse_greeting message ≡ ok parsed
    → IsFiled sv.pools
    → Returns (Registers e header s sv) (enter response.payload.cluster_id ws w s sv parsed)
unfolding enter
parsed-Registers e header w s sv response ws message none a v u m g f = inl (refl, refl)
parsed-Registers e header w s sv response ws message (some (size, type)) a v u m g f =
    elim (Bool-cases (is_made sv.config (find_pool response.payload.cluster_id sv.pools))) [
      | inr n ↦ rw n tt
      | inl y ↦ rw y (
          inr (record {
            response = response;
            answered = a;
            valid = v;
            ws = ws;
            upgraded = u;
            message = message;
            greeted = m;
            idle_size = size;
            type = type;
            parsed = g;
            registered = refl;
            entered =
                register_connection-Entered response.payload.cluster_id size (of_int type) ws s sv
                  f;
          }))
    ]

-- Let the pools be filed under their clients. If `Register` returns, then it has left the server as it
-- was and started no connection, or the cloud service called the key valid, and a greeting was read.
-- Then only the pool of the cluster that the service named has changed: it has the idle size of the
-- greeting, and if it was not shut down and the type of the greeting is known, the new connection
-- stands at the end of its list of this type and is started; else it has got no connection.
pub register-Registers :
    (e : RegisterEnv) (header : Header) (w : ResponseWriter) (s : Store) (sv : Server)
    → IsFiled sv.pools
    → Returns (Registers e header s sv) (register e header w s sv)
unfolding register
register-Registers e header w s sv f = admitted (validated e header sv) refl
  where
    greeted :
        (response : ValidateAccessTokenResponse) (ws : ℕ) (m : Option Bytes)
        → validated e header sv ≡ value response
        → response.payload.is_valid ≡ true
        → e.upgrade ≡ some ws
        → e.read_message ≡ m
        → Returns (Registers e header s sv) (greet response.payload.cluster_id ws w s sv m)
    greeted response ws none a v u m = unfold greet in inl (refl, refl)
    greeted response ws (some message) a v u m =
        unfold greet in
        Returns->>= (Registers e header s sv) (parse_greeting message) _
          λ parsed g. parsed-Registers e header w s sv response ws message parsed a v u m g f

    upgraded :
        (response : ValidateAccessTokenResponse) (u : Option ℕ)
        → validated e header sv ≡ value response
        → response.payload.is_valid ≡ true
        → e.upgrade ≡ u
        → Returns (Registers e header s sv) (upgrade e response.payload.cluster_id w s sv u)
    upgraded response none a v u = unfold upgrade in inl (refl, refl)
    upgraded response (some ws) a v u =
        unfold upgrade in greeted response ws e.read_message a v u refl

    admitted :
        (x : Result AuthError ValidateAccessTokenResponse)
        → validated e header sv ≡ x
        → Returns (Registers e header s sv) (admit e w s sv x)
    admitted (error x) a = unfold admit in inl (refl, refl)
    admitted (value response) a = elim (Bool-cases response.payload.is_valid) [
      | inl v ↦ unfold admit in rw v (upgraded response e.upgrade a v refl)
      | inr v ↦ unfold admit in rw v (inl (refl, refl))
    ]

-- A peer whose key is valid and whose greeting is one number with no separator makes `Register`
-- panic, since it reads a second part of the greeting that is not there.
pub register-NoSeparator :
    (e : RegisterEnv) (header : Header) (w : ResponseWriter) (s : Store) (sv : Server)
    (response : ValidateAccessTokenResponse) (ws : ℕ) (g : Bytes) (n : ℤ)
    → validated e header sv ≡ value response
    → response.payload.is_valid ≡ true
    → e.upgrade ≡ some ws
    → e.read_message ≡ some g
    → NoSeparator g
    → atoi g ≡ some n
    → register e header w s sv ≡ panic
unfolding register admit upgrade greet
register-NoSeparator e header w s sv response ws g n a v u m h k =
    rw (a, v, u, m, parse_greeting-one g n h k)
