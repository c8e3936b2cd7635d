-- ===== src/Server/Pool/Clean.antt =====
-- What `Clean` of server/pool.go may do to a connection.
use zk_wsp.Prelude.{ℕ, suc, ◌≡◌, inl, inr, refl, true, List, [], ◌∷◌, arith, Bool-cases}
use zk_wsp.Outcome.{Succeeds, Succeeds->>=, Succeeds-mono}
use zk_wsp.Common.Types.{closed, is_idle}
use zk_wsp.Common.Store.{Connection, Store, get_status, read_conn, write_conn}
use zk_wsp.Common.Write.Laws.{IsSound}
use zk_wsp.Common.Read.Laws.{
  same_conn, shut_connection, close_connection-ok, shut_connection-IsSound, get_status-shut,
  same_conn→eq,
}
use zk_wsp.Server.Config.{Config}
use zk_wsp.Server.Pool.{
  Pool, is_excess, clean_connection, clean_loop, clean, remove_without_lock, conns,
}
use zk_wsp.Server.Pool.Remove.{present, present-remove}

-- A connection keeps its status and its place, or it was idle, is closed and is in the pool no more.
pub data Fate (d : Connection) (s : Store) (p : Pool) (s' : Store) (p' : Pool) : Type 0 where
  kept : get_status d s' ≡ get_status d s → present d p' ≡ present d p → Fate d s p s' p'
  dropped :
      is_idle (get_status d s) ≡ true
      → get_status d s' ≡ closed
      → present d p' ≡ 0
      → Fate d s p s' p'

-- The store stays sound, every connection has such a fate, and nothing else of the pool changes.
pub record Cleaned (s : Store) (p : Pool) (s' : Store) (p' : Pool) : Type 0 where
  pub sound : IsSound s'
  pub fate : (d : Connection) → Fate d s p s' p'
  pub same_idle : p'.idle ≡ p.idle
  pub same_size : p'.idle_size ≡ p.idle_size
  pub same_done : p'.done ≡ p.done
  pub same_client : p'.client_id ≡ p.client_id

Fate-trans :
    (d : Connection) (s : Store) (p : Pool) (t : Store) (q : Pool) (u : Store) (r : Pool)
    → Fate d s p t q
    → Fate d t q u r
    → Fate d s p u r
Fate-trans d s p t q u r (kept a b) (kept x y) = kept (ground arith) (ground arith)
Fate-trans d s p t q u r (kept a b) (dropped x y z) = dropped (ground arith) y z
Fate-trans d s p t q u r (dropped a b c) (kept x y) = dropped a (ground arith) (ground arith)
Fate-trans d s p t q u r (dropped a b c) (dropped x y z) = dropped a y z

Cleaned-refl : (s : Store) (p : Pool) → IsSound s → Cleaned s p s p
Cleaned-refl s p v = record {
  sound = v;
  fate = λ d. kept refl refl;
  same_idle = refl;
  same_size = refl;
  same_done = refl;
  same_client = refl;
}

Cleaned-trans :
    {s : Store} {p : Pool} {t : Store} {q : Pool} {u : Store} {r : Pool}
    → Cleaned s p t q
    → Cleaned t q u r
    → Cleaned s p u r
Cleaned-trans {s} {p} {t} {q} {u} {r} a b = record {
  sound = b.sound;
  fate = λ d. Fate-trans d s p t q u r (a.fate d) (b.fate d);
  same_idle = ground arith;
  same_size = ground arith;
  same_done = ground arith;
  same_client = ground arith;
}

remove-fields :
    (c : Connection) (p : Pool)
    → let q = remove_without_lock c p in
      (q.idle ≡ p.idle)
      × (q.idle_size ≡ p.idle_size)
      × (q.done ≡ p.done)
      × (q.client_id ≡ p.client_id)
unfolding remove_without_lock
remove-fields (Connection.read_conn i) p = (refl, refl, refl, refl)
remove-fields (Connection.write_conn i) p = (refl, refl, refl, refl)

drop-Cleaned :
    (c : Connection) (s : Store) (p : Pool)
    → IsSound s
    → is_idle (get_status c s) ≡ true
    → Cleaned s p (shut_connection c s) (remove_without_lock c p)
drop-Cleaned c s p v e = record {
  sound = shut_connection-IsSound c s v;
  fate = λ d. elim (Bool-cases (same_conn c d)) [
    | inl same ↦
        dropped (rw (← same_conn→eq c d same) e) (rw (get_status-shut c d s, same))
          (rw (present-remove c d p, same))
    | inr other ↦ kept (rw (get_status-shut c d s, other)) (rw (present-remove c d p, other))
  ];
  same_idle = (remove-fields c p).0;
  same_size = (remove-fields c p).1;
  same_done = (remove-fields c p).2;
  same_client = (remove-fields c p).3;
}

clean_connection-Cleaned :
    (config : Config) (now : ℕ) (c : Connection) (n : ℕ) (s : Store) (p : Pool)
    → IsSound s
    → Succeeds (λ (n', s', p'). Cleaned s p s' p') (clean_connection config now c n s p)
unfolding clean_connection
clean_connection-Cleaned config now c n s p v = elim (Bool-cases (is_idle (get_status c s))) [
  | inr e ↦ rw e (Cleaned-refl s p v)
  | inl e ↦ elim (Bool-cases (is_excess config now c (suc n) s p)) [
    | inr few ↦ rw (e, few) (Cleaned-refl s p v)
    | inl many ↦ rw (e, many, close_connection-ok c s v) (drop-Cleaned c s p v e)
  ]
]

clean_loop-Cleaned :
    (config : Config) (now : ℕ) (cs : List Connection) (n : ℕ) (s : Store) (p : Pool)
    → IsSound s
    → Succeeds (λ (s', p'). Cleaned s p s' p') (clean_loop config now cs n s p)
unfolding clean_loop
clean_loop-Cleaned config now [] n s p v = Cleaned-refl s p v
clean_loop-Cleaned config now (c ∷ cs) n s p v =
    Succeeds->>= _ _ (clean_connection config now c n s p) _
      (clean_connection-Cleaned config now c n s p v)
      λ (n', t, q) _ a.
        Succeeds-mono (clean_loop config now cs n' t q) (λ (u, r) b. Cleaned-trans a b)
          (clean_loop-Cleaned config now cs n' t q a.sound)

-- On a sound store `Clean` returns without a panic, and then each connection has the status
-- that it had and stands in the pool as often as before, or it was idle, is closed now and is in
-- the pool no more. The idle channel, the idle size and the flag `done` stay as they are.
pub clean-Cleaned :
    (config : Config) (now : ℕ) (s : Store) (p : Pool)
    → IsSound s
    → Succeeds (λ (s', p'). Cleaned s p s' p') (clean config now s p)
unfolding clean
clean-Cleaned config now s p v =
    Succeeds->>= _ _ (clean_loop config now (conns read_conn p.read_connections) 0 s p) _
      (clean_loop-Cleaned config now _ 0 s p v)
      λ (t, q) _ a.
        Succeeds-mono (clean_loop config now (conns write_conn q.write_connections) 0 t q)
          (λ (u, r) b. Cleaned-trans a b) (clean_loop-Cleaned config now _ 0 t q a.sound)
