-- ===== src/Client/Running/Killed.antt =====
-- A client stays killed: client/client.go, client/pool.go.
use zk_wsp.Prelude.{
  ℕ, ◌≡◌, ◌&&◌, refl, true, false, Bool, Option, none, some, List, [], ◌∷◌, Bool-cases,
  if◌then◌else◌, inl, inr,
}
use zk_wsp.Outcome.{ok, Returns, Returns->>=, Returns-mono, of_Returns, ◌>>=◌}
use zk_wsp.Http.Writer.{ResponseWriter}
use zk_wsp.Http.Request.{UrlLib, Request}
use zk_wsp.Common.Store.{Connection, Store}
use zk_wsp.Common.Write.{release}
use zk_wsp.Common.Read.{close_connection}
use zk_wsp.Client.Pool.{
  Pool, Dial, Created, invalid_cluster_key, not_dialed, greeting_failed, connector, shutdown,
  ticking, client_pool,
}
use zk_wsp.Prelude.Int.{ℤ, pos, ltb_ℤ}
use zk_wsp.Client.Handlers.{
  Client, RequestEnv, set_pool, start_internal, after_connector, reset_ticker, request,
}
use zk_wsp.Client.Handlers.Kill.{IsKillAnswer, request-killed}
use zk_wsp.Client.Running.{
  Running, Tick, turn, Call, ticked, requested, refreshed, started, ended, call, run, start_in,
  end_in,
}

abbrev IsKilled : Running → Type 0
IsKilled (_, _, c) = c.killed ≡ true

ticking-Returns : {A : Type 0} (P : A → Type 0) (i : ℤ) (a : A) → P a → Returns P (ticking i a)
ticking-Returns P i a h = elim (Bool-cases (ltb_ℤ (pos 0) i)) [ inl e ↦ rw e h | inr e ↦ rw e tt ]

-- What a round leaves of a killed client
abbrev LeftKilled : Store × Pool × List Connection × Client → Type 0
LeftKilled (_, _, _, c) = c.killed ≡ true

after_connector-IsKilled :
    (x : Created) (c : Client) → c.killed ≡ true → Returns LeftKilled (after_connector x c)
unfolding after_connector reset_ticker
after_connector-IsKilled (none, s, p, spawned) c k = ticking-Returns LeftKilled _ _ k
after_connector-IsKilled (some not_dialed, s, p, spawned) c k = ticking-Returns LeftKilled _ _ k
after_connector-IsKilled (some greeting_failed, s, p, spawned) c k =
    ticking-Returns LeftKilled _ _ k
after_connector-IsKilled (some invalid_cluster_key, s, p, spawned) c k =
    Returns->>= LeftKilled (shutdown s p) _ λ x _. refl

round-IsKilled :
    (dials : ℕ → Dial) (s : Store) (p : Pool) (c : Client)
    → c.killed ≡ true
    → Returns LeftKilled (start_internal dials s p c)
unfolding start_internal
round-IsKilled dials s p c k =
    Returns->>= LeftKilled (connector c.config dials s p) _ λ x _. after_connector-IsKilled x c k

by_quits :
    (t : Tick) (s : Store) (p : Pool) (c : Client) (b : Bool)
    → c.killed ≡ true
    → Returns IsKilled (
        if b
        then ok (false, s, c)
        else (start_internal t.dials s p c >>= λ (s', p', _, c'). ok (true, s', set_pool p' c')))
by_quits t s p c true k = k
by_quits t s p c false k = Returns->>= IsKilled (start_internal t.dials s p c) _ λ x got.
    of_Returns LeftKilled (start_internal t.dials s p c) (round-IsKilled t.dials s p c k) got

turn-IsKilled :
    (t : Tick) (s : Store) (c : Client) (o : Option Pool)
    → c.killed ≡ true
    → Returns IsKilled (turn t s c o)
unfolding turn
turn-IsKilled t s c none k = k
turn-IsKilled t s c (some p) k = by_quits t s p c (p.done && t.quits) k

start_in-IsKilled :
    (i now : ℕ) (s : Store) (c : Client) (o : Option Pool)
    → c.killed ≡ true
    → Returns (λ (_, c'). c'.killed ≡ true) (start_in i now s c o)
start_in-IsKilled i now s c none k = k
start_in-IsKilled i now s c (some p) k =
    Returns->>= (λ (_, c'). c'.killed ≡ true) (release client_pool now i s p) _ λ x _. k

end_in-IsKilled :
    (d : Connection) (s : Store) (c : Client) (o : Option Pool)
    → c.killed ≡ true
    → Returns (λ (_, c'). c'.killed ≡ true) (end_in d s c o)
end_in-IsKilled d s c none k =
    Returns->>= (λ (_, c'). c'.killed ≡ true) (close_connection d s) _ λ x _. k
end_in-IsKilled d s c (some p) k =
    Returns->>= (λ (_, c'). c'.killed ≡ true) (close_connection d s) _ λ x _. k

module _ (lib : UrlLib) where
  requested-IsKilled :
      (e : RequestEnv) (w : ResponseWriter) (r : Request lib.Url) (l : Bool) (s : Store)
      (c : Client)
      → c.killed ≡ true
      → Returns IsKilled (request lib e w r s c >>= λ (_, s', c', _). ok (l, s', c'))
  unfolding request
  requested-IsKilled e w r l s c k = simp (k) refl

  call-IsKilled : (q : Call lib) (x : Running) → IsKilled x → Returns IsKilled (call lib q x)
  unfolding call
  call-IsKilled (ticked t) (false, s, c) k = k
  call-IsKilled (ticked t) (true, s, c) k = turn-IsKilled t s c c.pool k
  call-IsKilled (requested e w r) (l, s, c) k = requested-IsKilled e w r l s c k
  call-IsKilled (refreshed login) (l, s, c) k = k
  call-IsKilled (started i now) (l, s, c) k =
      Returns->>= IsKilled (start_in i now s c c.pool) _ λ x got.
        of_Returns (λ (_, c'). c'.killed ≡ true) (start_in i now s c c.pool)
          (start_in-IsKilled i now s c c.pool k) got
  call-IsKilled (ended d) (l, s, c) k = Returns->>= IsKilled (end_in d s c c.pool) _ λ x got.
      of_Returns (λ (_, c'). c'.killed ≡ true) (end_in d s c c.pool)
        (end_in-IsKilled d s c c.pool k) got

  run-IsKilled : (qs : List (Call lib)) (x : Running) → IsKilled x → Returns IsKilled (run lib qs x)
  unfolding run
  run-IsKilled [] x k = k
  run-IsKilled (q ∷ qs) x k =
      Returns->>= IsKilled (call lib q x) _
        λ y got. run-IsKilled qs y (of_Returns IsKilled (call lib q x) (call-IsKilled q x k) got)

  -- What a killed client does with a request: it answers with the kill text and changes nothing.
  abbrev pub IsRefusal : RequestEnv → ResponseWriter → Request lib.Url → Store → Client → Type 0
  IsRefusal e w r s c =
      (w' : ResponseWriter) × (request lib e w r s c ≡ ok (w', s, c, false))
      × IsKillAnswer e.kill_json w w'

  -- Once a client is killed it stays so. If calls in any order return, also rounds in which the server
  -- can be reached again and refreshes that get a new token, then a request behind them is refused
  -- again: the answer is the kill text with the status 200 and the header that the writer had, so
  -- without the content type that is set too late, and neither the connections nor the client change.
  pub run-IsRefusal :
      (qs : List (Call lib)) (l : Bool) (s : Store) (c : Client) (e : RequestEnv)
      (w : ResponseWriter) (r : Request lib.Url)
      → c.killed ≡ true
      → w.sent ≡ none
      → Returns (λ (_, s', c'). IsRefusal e w r s' c') (run lib qs (l, s, c))
  run-IsRefusal qs l s c e w r k n =
      Returns-mono (run lib qs (l, s, c)) (λ (_, s', c') k'. request-killed lib e w r s' c' k' n)
        (run-IsKilled qs (l, s, c) k)
