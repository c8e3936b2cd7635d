-- ===== src/Tests/Running.antt =====
-- Runs of the server.
use zk_wsp.Prelude.{false, ◌≡◌, refl, true, List, [], ◌∷◌, codes}
use zk_wsp.Outcome.{Returns, Succeeds}
use zk_wsp.Http.Writer.{fresh}
use zk_wsp.Common.Store.{write_conn}
use zk_wsp.Server.Running.{Call, registered, requested, cleaned, synced, ended, run}
use zk_wsp.Server.Running.Stopping.{run-stops}
use zk_wsp.Server.Upkeep.{shutdown_server}
use zk_wsp.Prelude.Dict.{lookup}
use zk_wsp.Server.Members.Refinement.{Follows, run-Follows}
use zk_wsp.Server.Upkeep.Stop.{IsStopped}
use zk_wsp.Tests.Data.{store, server, plain_urls, http_request, request_env}
use zk_wsp.Tests.Connections.{store-IsSound}
use zk_wsp.Tests.Handlers.{register_env, sync_env}

-- A client registers a connection, whose `Start` releases it; the server pings its clients, answers a
-- request without a destination and cleans its pools; another connection ends.
abbrev calls : List (Call plain_urls)
calls =
    registered register_env [] fresh
    ∷ synced sync_env
    ∷ requested request_env fresh http_request
    ∷ ended (codes "c1") (write_conn 3)
    ∷ cleaned (λ _. false) 90
    ∷ []

stops_example :
    Returns
      (λ (s', sv').
        Succeeds
          (λ (s'', sv''). IsStopped s' sv'.pools s'' × (sv''.pools ≡ []) × (sv''.done ≡ true))
          (shutdown_server s' sv'))
      (run plain_urls calls store server)
stops_example = run-stops plain_urls calls store server store-IsSound refl

promises_example :
    Returns
      (λ (s', sv'). Follows plain_urls calls store server s' sv')
      (run plain_urls calls store server)
unfolding lookup
promises_example =
    run-Follows plain_urls calls store server store-IsSound refl ((refl, tt), (refl, tt))
