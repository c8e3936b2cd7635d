-- ===== src/Server/Running.antt =====
-- The server as it runs: the handlers of server/server.go, its cleaning, the sync of
-- server/connectionStatus.go, and the start and the end of its connections, in any order. Each of
-- them is one step.
pub mod Handling
pub mod Minding
pub mod Stopping
use zk_wsp.Prelude.{Bool, ℕ, Option, none, some, List, [], ◌∷◌, Bytes}
use zk_wsp.Prelude.Dict.{lookup}
use zk_wsp.Outcome.{Outcome, ok, ◌>>=◌}
use zk_wsp.Http.Header.{Header}
use zk_wsp.Http.Writer.{ResponseWriter}
use zk_wsp.Http.Request.{UrlLib, Request}
use zk_wsp.Common.Store.{Connection, Store}
use zk_wsp.Common.Write.{release}
use zk_wsp.Common.Read.{close_connection}
use zk_wsp.Server.Pool.{Pool, server_pool, remove}
use zk_wsp.Server.Handlers.{Server, RegisterEnv, RequestEnv, set_pool, register, request}
use zk_wsp.Server.Upkeep.{clean}
use zk_wsp.Server.Status.{SyncEnv, periodic_sync}

module _ (lib : UrlLib) where
  -- `started` is the call of `Release` at the start of a write connection's `Start`, and `ended` what
  -- the end of a connection's `Start` defers; both name the client of the connection's pool.
  pub data Call : Type 0 where
    registered : RegisterEnv → Header → ResponseWriter → Call
    requested : RequestEnv → ResponseWriter → Request lib.Url → Call
    cleaned : (Connection → Bool) → ℕ → Call
    synced : SyncEnv → Call
    started : Bytes → ℕ → ℕ → Call
    ended : Bytes → Connection → Call

  -- `Release`, with the pool of the connection; one that was dropped is not followed.
  abbrev pub start_in : Bytes → ℕ → ℕ → Store → Server → Option Pool → Outcome (Store × Server)
  start_in id i now s sv none = ok (s, sv)
  start_in id i now s sv (some p) =
      release server_pool now i s p >>= λ (s', p'). ok (s', set_pool id p' sv)

  -- `Remove` and `Close`
  abbrev pub end_in : Bytes → Connection → Store → Server → Option Pool → Outcome (Store × Server)
  end_in id c s sv none = close_connection c s >>= λ s'. ok (s', sv)
  end_in id c s sv (some p) = close_connection c s >>= λ s'. ok (s', set_pool id (remove c p) sv)

  unfoldable pub call : Call → Store → Server → Outcome (Store × Server)
  call (registered e header w) s sv = register e header w s sv >>= λ (_, s', sv', _). ok (s', sv')
  call (requested e w r) s sv = request lib e w r s sv >>= λ (_, s', sv'). ok (s', sv')
  call (cleaned held now) s sv = clean held now s sv
  call (synced e) s sv = periodic_sync e s sv >>= λ (_, _, s', sv'). ok (s', sv')
  call (started id i now) s sv = start_in id i now s sv (lookup id sv.pools)
  call (ended id c) s sv = end_in id c s sv (lookup id sv.pools)

  unfoldable pub run : List Call → Store → Server → Outcome (Store × Server)
  run [] s sv = ok (s, sv)
  run (c ∷ cs) s sv = call c s sv >>= λ (s', sv'). run cs s' sv'
