-- ===== src/Client/Running/Ending.antt =====
-- All calls of the client, in any order: client/client.go, client/pool.go.
use zk_wsp.Prelude.{◌≡◌, true, false, List, [], ◌∷◌, All}
use zk_wsp.Outcome.{Returns, Returns->>=, of_Returns, Succeeds, Succeeds->>=, Succeeds-Returns}
use zk_wsp.Http.Request.{UrlLib}
use zk_wsp.Client.Config.{Config}
use zk_wsp.Client.Pool.{default_interval}
use zk_wsp.Client.Handlers.{request}
use zk_wsp.Client.Handlers.Retry.{IsPaced}
use zk_wsp.Client.Running.{
  Running, Call, ticked, requested, refreshed, started, ended, call, run, start_in, end_in,
}
use zk_wsp.Client.Running.Handling.{
  IsBetween, Leaves, start_in-IsBetween, end_in-IsBetween, request-Leaves,
}
use zk_wsp.Client.Running.Rounds.{IsTurn, turn-IsTurn, turn-Succeeds}

-- A call that does not wait for the peer or for room in the channel: a tick of a loop that stops once
-- the pool is shut down, a refresh, or the end of a connection.
abbrev pub IsPrompt : {lib : UrlLib} → Call lib → Type 0
IsPrompt (ticked t) = t.quits ≡ true
IsPrompt (requested e w r) = ⊥
IsPrompt (refreshed login) = Unit
IsPrompt (started i now) = ⊥
IsPrompt (ended d) = Unit

module _ (lib : UrlLib) (config : Config) (j : IsPaced config (default_interval config)) where
  call-IsTurn :
      (k : Call lib) (x : Running) → IsTurn config x → Returns (IsTurn config) (call lib k x)
  unfolding call
  call-IsTurn (ticked t) (false, s, c) b = b
  call-IsTurn (ticked t) (true, s, c) (v, e, (p, a, g)) =
      turn-IsTurn config t s c p j v e c.pool a a g
  call-IsTurn (requested env w r) (l, s, c) (v, e, (p, a, g)) =
      Returns->>= (IsTurn config) (request lib env w r s c) _ λ (w', s', c', o) got.
        of_Returns (Leaves config c p lib env) (request lib env w r s c)
          (request-Leaves config c p lib env w r s a e g v) got
  call-IsTurn (refreshed login) (l, s, c) b = b
  call-IsTurn (started i now) (l, s, c) (v, e, (p, a, g)) =
      Returns->>= (IsTurn config) (start_in i now s c c.pool) _ λ x got.
        of_Returns (IsBetween config) (start_in i now s c c.pool)
          (start_in-IsBetween config c p i now s c.pool a e g v) got
  call-IsTurn (ended d) (l, s, c) (v, e, (p, a, g)) =
      Returns->>= (IsTurn config) (end_in d s c c.pool) _ λ x got.
        of_Returns (IsBetween config) (end_in d s c c.pool)
          (Succeeds-Returns (IsBetween config) (end_in d s c c.pool)
            (end_in-IsBetween config c p d s c.pool a e g v))
          got

  pub run-IsTurn :
      (ks : List (Call lib)) (x : Running)
      → IsTurn config x
      → Returns (IsTurn config) (run lib ks x)
  unfolding run
  run-IsTurn [] x b = b
  run-IsTurn (k ∷ ks) x b =
      Returns->>= (IsTurn config) (call lib k x) _
        λ y got. run-IsTurn ks y (of_Returns (IsTurn config) (call lib k x) (call-IsTurn k x b) got)

  call-Succeeds :
      (k : Call lib) (x : Running)
      → IsPrompt k
      → IsTurn config x
      → Succeeds (IsTurn config) (call lib k x)
  unfolding call
  call-Succeeds (ticked t) (false, s, c) q b = b
  call-Succeeds (ticked t) (true, s, c) q (v, e, (p, a, g)) =
      turn-Succeeds config t s c p j v e c.pool a a q g
  call-Succeeds (refreshed login) (l, s, c) q b = b
  call-Succeeds (ended d) (l, s, c) q (v, e, (p, a, g)) =
      Succeeds->>= (IsBetween config) (IsTurn config) (end_in d s c c.pool) _
        (end_in-IsBetween config c p d s c.pool a e g v) λ x got b. b
  call-Succeeds (requested env w r) x q b = elim q [ ]
  call-Succeeds (started i now) x q b = elim q [ ]

  pub run-Succeeds :
      (ks : List (Call lib)) (x : Running)
      → All IsPrompt ks
      → IsTurn config x
      → Succeeds (IsTurn config) (run lib ks x)
  unfolding run
  run-Succeeds [] x q b = b
  run-Succeeds (k ∷ ks) x (q, qs) b =
      Succeeds->>= (IsTurn config) (IsTurn config) (call lib k x) _ (call-Succeeds k x q b)
        λ y got b'. run-Succeeds ks y qs b'
