-- ===== src/Server/Running/Stopping.antt =====
-- The server can be shut down whatever it has done: server/server.go.
use zk_wsp.Prelude.{◌≡◌, true, false, List, [], ◌∷◌}
use zk_wsp.Prelude.Dict.{lookup}
use zk_wsp.Outcome.{Returns, Returns->>=, of_Returns, Returns-mono, Succeeds}
use zk_wsp.Http.Request.{UrlLib}
use zk_wsp.Common.Store.{Store}
use zk_wsp.Common.Write.Laws.{IsSound}
use zk_wsp.Common.Utils.{get_destination_url}
use zk_wsp.Server.Handlers.{request, register, Server}
use zk_wsp.Server.Status.{periodic_sync}
use zk_wsp.Server.Upkeep.{shutdown_server}
use zk_wsp.Server.Upkeep.Stop.{IsStopped, shutdown_server-IsStopped}
use zk_wsp.Server.Running.{registered, requested, cleaned, synced, started, ended, Call, call, run}
use zk_wsp.Server.Running.Handling.{IsUp, IsLeftUp, admit-IsUp, on_destination-IsUp}
use zk_wsp.Server.Running.Minding.{synced-IsUp, clean-IsUp, start_in-IsUp, end_in-IsUp}

module _ (lib : UrlLib) where
  pub call-IsUp :
      (c : Call lib) (s : Store) (sv : Server) → IsUp (s, sv) → Returns IsUp (call lib c s sv)
  unfolding call register request periodic_sync
  call-IsUp (registered e header w) s sv v =
      Returns->>= IsUp (register e header w s sv) _ λ (w', s', sv', o) h.
        of_Returns IsLeftUp (register e header w s sv) (admit-IsUp e s sv v w _) h
  call-IsUp (requested e w r) s sv v =
      Returns->>= IsUp (request lib e w r s sv) _ λ (w', s', sv') h.
        of_Returns (λ (_, s', sv'). IsUp (s', sv')) (request lib e w r s sv)
          (on_destination-IsUp lib e sv v.1 r s (get_destination_url lib w r) v.0) h
  call-IsUp (cleaned held now) s sv v = clean-IsUp held now s sv v
  call-IsUp (synced e) s sv v = synced-IsUp e s sv v
  call-IsUp (started id i now) s sv v = start_in-IsUp lib id i now s sv (lookup id sv.pools) v
  call-IsUp (ended id c) s sv v = end_in-IsUp lib id c s sv (lookup id sv.pools) v

  run-IsUp :
      (cs : List (Call lib)) (s : Store) (sv : Server)
      → IsUp (s, sv)
      → Returns IsUp (run lib cs s sv)
  unfolding run
  run-IsUp [] s sv v = v
  run-IsUp (c ∷ cs) s sv v =
      Returns->>= IsUp (call lib c s sv) _
        λ (s', sv') h. run-IsUp cs s' sv' (of_Returns IsUp (call lib c s sv) (call-IsUp c s sv v) h)

  -- Start with a server that is not shut down and with sound connections, and let its handlers, its
  -- cleaning, its syncs and its connections run in any order: if all these calls return, then so does
  -- the shutdown of the server. It leaves no pool, and every connection that stood in a pool is closed.
  pub run-stops :
      (cs : List (Call lib)) (s : Store) (sv : Server)
      → IsSound s
      → sv.done ≡ false
      → Returns
          (λ (s', sv').
            Succeeds
              (λ (s'', sv''). IsStopped s' sv'.pools s'' × (sv''.pools ≡ []) × (sv''.done ≡ true))
              (shutdown_server s' sv'))
          (run lib cs s sv)
  run-stops cs s sv v d =
      Returns-mono (run lib cs s sv) (λ (s', sv') (w, f). shutdown_server-IsStopped s' sv' w f)
        (run-IsUp cs s sv (v, d))
