-- ===== src/Server/Pool/Survivors.antt =====
-- Which connections stay in the pool after `Clean` of server/pool.go: one pass over each list.
pub mod IdleReads
use Prim.Native.Nat.{min}
use mathlib.Core.List.{append_assoc}
use zk_wsp.Prelude.{
  ℕ, suc, ◌-◌, ◌≤◌, ◌≡◌, ◌∙◌, sym, ap, inl, inr, refl, Bool, true, false, not, ◌&&◌, List, [], ◌∷◌,
  ◌++◌, arith, if◌then◌else◌, ◌==◌, keep, occurrences, occurrences-append, Bool-cases, count, subst,
}
use zk_wsp.Prelude.Int.{ℤ, pos, ltb_ℤ}
use zk_wsp.Outcome.{ok, Succeeds, Succeeds->>=, Succeeds-mono}
use zk_wsp.Common.Types.{is_idle}
use zk_wsp.Common.Store.{Connection, read_conn, write_conn, Store, get_status, idle_since}
use zk_wsp.Common.Write.Laws.{IsSound}
use zk_wsp.Common.Read.Laws.{
  same_conn, shut_connection, close_connection-ok, shut_connection-IsSound, get_status-shut,
  idle_since-shut,
}
use zk_wsp.Server.Config.{Config}
use zk_wsp.Server.Pool.{
  Pool, without, elapsed_seconds, is_excess, clean_connection, clean_loop, clean, conns,
  remove_without_lock,
}

-- The connections that one pass keeps: an idle one stays if it is among the first idle ones, up to
-- the idle size, or if it has not been idle for longer than the timeout.
module _ (config : Config) (now : ℕ) (mk : ℕ → Connection) where
  abbrev pub is_late : Store → ℕ → Bool
  is_late s i = ltb_ℤ config.idle_timeout (pos (elapsed_seconds now (idle_since (mk i) s)))

  pub survivors : Store → ℤ → ℕ → List ℕ → List ℕ
  survivors s size n [] = []
  survivors s size n (i ∷ is) =
      if is_idle (get_status (mk i) s)
      then if ltb_ℤ size (pos (suc n)) && is_late s i
        then survivors s size (suc n) is
        else i ∷ survivors s size (suc n) is
      else i ∷ survivors s size n is

keep-append {ℓ} :
    {A : Type ℓ} (p : A → Bool) (xs ys : List A) → keep p (xs ++ ys) ≡ keep p xs ++ keep p ys
keep-append p [] ys = refl
keep-append p (x ∷ xs) ys = ground (arith, keep-append p xs ys)

without-absent : (i : ℕ) (xs : List ℕ) → occurrences i xs ≡ 0 → without i xs ≡ xs
without-absent i [] h = refl
without-absent i (x ∷ xs) h = ground (arith, without-absent i xs)

-- No connection stands twice in a list.
abbrev pub IsDistinct : List ℕ → Type 0
IsDistinct xs = (i : ℕ) → occurrences i xs ≤ 1

without-once :
    (i : ℕ) (pre is : List ℕ)
    → occurrences i (pre ++ i ∷ is) ≤ 1
    → (without i (pre ++ i ∷ is) ≡ pre ++ is) × (occurrences i is ≡ 0)
without-once i pre is h = (
  keep-append (λ j. not (j == i)) pre (i ∷ is)
      ∙ ground (arith, without-absent i pre before, without-absent i is behind),
  behind,
)
  where
    before : occurrences i pre ≡ 0
    before = ground (arith, occurrences-append i pre (i ∷ is))

    behind : occurrences i is ≡ 0
    behind = ground (arith, occurrences-append i pre (i ∷ is))

IsDistinct-drop : (i : ℕ) (pre is : List ℕ) → IsDistinct (pre ++ i ∷ is) → IsDistinct (pre ++ is)
IsDistinct-drop i pre is h j =
    ground (arith, h j, occurrences-append j pre (i ∷ is), occurrences-append j pre is)

-- One list of the pool, and the other: which operations reach which.
module _ (mk other : ℕ → Connection) (members others : Pool → List ℕ)
    (same : (i j : ℕ) → same_conn (mk i) (mk j) ≡ (i == j))
    (apart : (i j : ℕ) → same_conn (mk i) (other j) ≡ false)
    (members-remove : (i : ℕ) (p : Pool)
      → members (remove_without_lock (mk i) p) ≡ without i (members p))
    (others-remove : (i : ℕ) (p : Pool) → others (remove_without_lock (mk i) p) ≡ others p)
    (size-remove : (i : ℕ) (p : Pool) → (remove_without_lock (mk i) p).idle_size ≡ p.idle_size)
    (config : Config) (now : ℕ) where
  survivors-shut :
      (i : ℕ) (s : Store) (size : ℤ) (n : ℕ) (is : List ℕ)
      → occurrences i is ≡ 0
      → survivors config now mk (shut_connection (mk i) s) size n is
        ≡ survivors config now mk s size n is
  unfolding survivors
  survivors-shut i s size n [] h = refl
  survivors-shut i s size n (j ∷ is) h = ground (
    arith,
    same i j,
    get_status-shut (mk i) (mk j) s,
    idle_since-shut (mk i) (mk j) s,
    survivors-shut i s size n is,
    survivors-shut i s size (suc n) is,
  )

  -- What a pass over `is` leaves, where `pre` are the connections that it went past.
  record Swept (pre is : List ℕ) (n : ℕ) (s : Store) (p : Pool) (s' : Store) (p' : Pool)
      : Type 0 where
    list : members p' ≡ pre ++ survivors config now mk s p.idle_size n is
    others_list : others p' ≡ others p
    others_status : (j : ℕ) → get_status (other j) s' ≡ get_status (other j) s
    others_since : (j : ℕ) → idle_since (other j) s' ≡ idle_since (other j) s
    size : p'.idle_size ≡ p.idle_size
    sound : IsSound s'

  abbrev Sweeps : List ℕ → List ℕ → ℕ → Store → Pool → Type 0
  Sweeps pre is n s p =
      Succeeds (λ (s', p'). Swept pre is n s p s' p') (clean_loop config now (conns mk is) n s p)

  -- The connection `i` stays, and `n` is the count behind it.
  stay :
      (i : ℕ) (pre is : List ℕ) (n m : ℕ) (s : Store) (p : Pool)
      → survivors config now mk s p.idle_size n (i ∷ is)
        ≡ i ∷ survivors config now mk s p.idle_size m is
      → clean_connection config now (mk i) n s p ≡ ok (m, s, p)
      → Sweeps (pre ++ i ∷ []) is m s p
      → Sweeps pre (i ∷ is) n s p
  unfolding clean_loop
  stay i pre is n m s p e step rest = rw step (
      Succeeds-mono (clean_loop config now (conns mk is) m s p)
        (λ (s', p') b. record {
          list = b.list ∙ append_assoc pre (i ∷ []) _ ∙ ap (◌++◌ pre) (sym e);
          others_list = b.others_list;
          others_status = b.others_status;
          others_since = b.others_since;
          size = b.size;
          sound = b.sound;
        })
        rest)

  -- The connection `i` is closed and removed.
  leave :
      (i : ℕ) (pre is : List ℕ) (n : ℕ) (s : Store) (p : Pool)
      → let t = shut_connection (mk i) s in
        let q = remove_without_lock (mk i) p in
        survivors config now mk s p.idle_size n (i ∷ is)
          ≡ survivors config now mk s p.idle_size (suc n) is
        → occurrences i is ≡ 0
        → clean_connection config now (mk i) n s p ≡ ok (suc n, t, q)
        → Sweeps pre is (suc n) t q
        → Sweeps pre (i ∷ is) n s p
  unfolding clean_loop
  leave i pre is n s p e once step rest =
      let t = shut_connection (mk i) s in
      let q = remove_without_lock (mk i) p in
      rw step (
        Succeeds-mono (clean_loop config now (conns mk is) (suc n) t q)
          (λ (s', p') b. record {
            list =
                b.list
                ∙ ap (◌++◌ pre) (
                    ap (λ z. survivors config now mk t z (suc n) is) (size-remove i p)
                    ∙ survivors-shut i s p.idle_size (suc n) is once
                    ∙ sym e);
            others_list = b.others_list ∙ others-remove i p;
            others_status =
                λ j. b.others_status j ∙ rw (get_status-shut (mk i) (other j) s, apart i j);
            others_since = λ j. b.others_since j ∙ idle_since-shut (mk i) (other j) s;
            size = b.size ∙ size-remove i p;
            sound = b.sound;
          })
          rest)

  sweep :
      (pre is : List ℕ) (n : ℕ) (s : Store) (p : Pool)
      → members p ≡ pre ++ is
      → IsDistinct (pre ++ is)
      → IsSound s
      → Sweeps pre is n s p
  sweep pre [] n s p e d v =
      unfold clean_loop survivors in
      record {
        list = e;
        others_list = refl;
        others_status = λ j. refl;
        others_since = λ j. refl;
        size = refl;
        sound = v;
      }
  sweep pre (i ∷ is) n s p e d v = elim (Bool-cases (is_idle (get_status (mk i) s))) [
    | inr busy ↦
        stay i pre is n n s p (unfold survivors in rw busy) (unfold clean_connection in rw busy) (
          sweep (pre ++ i ∷ []) is n s p (e ∙ sym (append_assoc pre (i ∷ []) is))
            (rw (append_assoc pre (i ∷ []) is) d) v)
    | inl free ↦ elim (Bool-cases (is_excess config now (mk i) (suc n) s p)) [
      | inr few ↦
          stay i pre is n (suc n) s p (unfold survivors in rw (free, few))
            (unfold clean_connection in rw (free, few))
            (sweep (pre ++ i ∷ []) is (suc n) s p (e ∙ sym (append_assoc pre (i ∷ []) is))
              (rw (append_assoc pre (i ∷ []) is) d) v)
      | inl many ↦
          let once = without-once i pre is (d i) in
          leave i pre is n s p (unfold survivors in rw (free, many)) once.1
            (unfold clean_connection in rw (free, many, close_connection-ok (mk i) s v))
            (sweep pre is (suc n) (shut_connection (mk i) s) (remove_without_lock (mk i) p)
              (members-remove i p ∙ rw e once.0) (IsDistinct-drop i pre is d)
              (shut_connection-IsSound (mk i) s v))
    ]
  ]

survivors-ext :
    (config : Config) (now : ℕ) (mk : ℕ → Connection) (s t : Store) (size : ℤ) (n : ℕ) (is : List ℕ)
    → ((j : ℕ) → get_status (mk j) t ≡ get_status (mk j) s)
    → ((j : ℕ) → idle_since (mk j) t ≡ idle_since (mk j) s)
    → survivors config now mk t size n is ≡ survivors config now mk s size n is
unfolding survivors
survivors-ext config now mk s t size n [] a b = refl
survivors-ext config now mk s t size n (i ∷ is) a b = ground (
  arith,
  a i,
  b i,
  survivors-ext config now mk s t size n is a b,
  survivors-ext config now mk s t size (suc n) is a b,
)

-- `Clean` refines one pass over each list: if no connection stands twice in a list of the pool and
-- the store is sound, then `Clean` returns, and each list is what its pass keeps of it.
pub clean-survivors :
    (config : Config) (now : ℕ) (s : Store) (p : Pool)
    → IsSound s
    → IsDistinct p.read_connections
    → IsDistinct p.write_connections
    → Succeeds
        (λ (s', p').
          (p'.read_connections ≡ survivors config now read_conn s p.idle_size 0 p.read_connections)
          × (p'.write_connections
              ≡ survivors config now write_conn s p.idle_size 0 p.write_connections))
        (clean config now s p)
unfolding clean remove_without_lock
clean-survivors config now s p v dr dw =
    Succeeds->>= _ _ (clean_loop config now (conns read_conn p.read_connections) 0 s p) _
      (sweep read_conn write_conn (λ q. q.read_connections) (λ q. q.write_connections) (λ i j. refl)
        (λ i j. refl) (λ i q. refl) (λ i q. refl) (λ i q. refl) config now [] p.read_connections 0 s
        p refl dr v)
      λ (t, q) _ a.
        Succeeds-mono (clean_loop config now (conns write_conn q.write_connections) 0 t q)
          (λ (s', p') b. (
            b.others_list ∙ a.list,
            b.list
                ∙ ap (λ z. survivors config now write_conn t z 0 q.write_connections) a.size
                ∙ ap (survivors config now write_conn t p.idle_size 0) a.others_list
                ∙ survivors-ext config now write_conn s t p.idle_size 0 p.write_connections
                    a.others_status a.others_since,
          ))
          (sweep write_conn read_conn (λ q. q.write_connections) (λ q. q.read_connections)
            (λ i j. refl) (λ i j. refl) (λ i q. refl) (λ i q. refl) (λ i q. refl) config now []
            q.write_connections 0 t q refl (subst IsDistinct (sym a.others_list) dw) a.sound)
