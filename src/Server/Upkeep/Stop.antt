-- ===== src/Server/Upkeep/Stop.antt =====
-- What the shutdown of the server leaves: server/server.go, `Shutdown`.
use zk_wsp.Prelude.{◌≡◌, ◌⊎◌, inl, inr, refl, ◌∙◌, false, true, List, [], ◌∷◌, Bytes}
use zk_wsp.Outcome.{Succeeds, Succeeds->>=, Succeeds-mono}
use zk_wsp.Common.Types.{closed}
use zk_wsp.Common.Store.{Connection, Store, get_status}
use zk_wsp.Common.Write.Laws.{IsSound}
use zk_wsp.Server.Pool.{Pool, shutdown}
use zk_wsp.Server.Pool.Shutdown.{Among, all_conns, IsShutDown, shutdown-IsShutDown}
use zk_wsp.Server.Handlers.{Server}
use zk_wsp.Server.Upkeep.{shutdown_pools, shutdown_server}

-- In a list of one of the pools
abbrev pub AmongPools : Connection → List (Bytes × Pool) → Type 0
AmongPools d [] = ⊥
AmongPools d ((id, p) ∷ ps) = Among d (all_conns p) ⊎ AmongPools d ps

-- A sound store in which all that was closed before, or stands in the pools, is closed.
abbrev pub IsStopped : Store → List (Bytes × Pool) → Store → Type 0
IsStopped s ps s' =
    IsSound s'
    × ((d : Connection) → (get_status d s ≡ closed) ⊎ AmongPools d ps → get_status d s' ≡ closed)

stays_closed :
    (d : Connection) (s : Store) (p : Pool) (s' : Store) (p' : Pool)
    → IsShutDown s p s' p'
    → (get_status d s ≡ closed) ⊎ Among d (all_conns p)
    → get_status d s' ≡ closed
stays_closed d s p s' p' h (inl e) = elim (h.fate d) [ inl (_, c) ↦ c | inr (_, same) ↦ same ∙ e ]
stays_closed d s p s' p' h (inr a) = elim (h.fate d) [
  | inl (_, c) ↦ c
  | inr (out, _) ↦ elim (out a) [ ]
]

shutdown_pools-IsStopped :
    (ps : List (Bytes × Pool)) (s : Store)
    → IsSound s
    → Succeeds (IsStopped s ps) (shutdown_pools ps s)
unfolding shutdown_pools
shutdown_pools-IsStopped [] s v = (v, λ d h. elim h [ inl e ↦ e | inr x ↦ elim x [ ] ])
shutdown_pools-IsStopped ((id, p) ∷ ps) s v =
    Succeeds->>= _ _ (shutdown s p) _ (shutdown-IsShutDown s p v) λ (t, q) _ b.
      Succeeds-mono (shutdown_pools ps t)
        (λ u (w, rest). (
          w,
          λ d h. rest d (elim h [
            | inl e ↦ inl (stays_closed d s p t q b (inl e))
            | inr x ↦ elim x [ inl a ↦ inl (stays_closed d s p t q b (inr a)) | inr y ↦ inr y ]
          ]),
        ))
        (shutdown_pools-IsStopped ps t b.sound)

-- The first shutdown of the server, on a sound store, returns; then the server has no pool
-- and is marked as shut down, and every connection that stood in a list of one of its pools is closed.
pub shutdown_server-IsStopped :
    (s : Store) (sv : Server)
    → IsSound s
    → sv.done ≡ false
    → Succeeds
        (λ (s', sv'). IsStopped s sv.pools s' × (sv'.pools ≡ []) × (sv'.done ≡ true))
        (shutdown_server s sv)
unfolding shutdown_server
shutdown_server-IsStopped s sv v d = rw d (
    Succeeds->>= _ _ (shutdown_pools sv.pools s) _ (shutdown_pools-IsStopped sv.pools s v)
      λ s' _ h. (h, refl, refl))
