-- ===== src/Tests/Connections.antt =====
-- Connections: the theorems of Common at concrete inputs.
use zk_wsp.Prelude.{ℕ, zero, suc, ◌≡◌, refl, none, List, [], ◌∷◌, arith, true}
use zk_wsp.Prelude.Int.{pos}
use zk_wsp.Outcome.{Safely}
use zk_wsp.Common.Write.Laws.{IsSound}
use zk_wsp.Common.Write.History.{
  History, Call, takes, closes, releases, pings, Lawful, run, run-Lawful,
}
use zk_wsp.Common.Receive.{Round, get_value_with_timeout}
use zk_wsp.Common.Receive.Laws.{
  get_value_with_timeout-early, get_value_with_timeout-Received, Received,
}
use zk_wsp.Server.Pool.{Pool, server_pool}
use zk_wsp.Server.Pool.Interface.{server_pool-lawful}
use zk_wsp.Tests.Data.{store, empty_pool, rounds, ping}

pub store-IsSound : IsSound store
store-IsSound zero = refl
store-IsSound (suc zero) = refl
store-IsSound (suc (suc n)) = refl

abbrev start : History Pool
start = record { taken = 0; store = store; pool = empty_pool }

abbrev calls : List Call
calls = takes ∷ takes ∷ releases 8 ∷ takes ∷ pings ping ∷ closes ∷ closes ∷ takes ∷ []

run-Lawful_example : Safely (Lawful server_pool 2 calls start) (run server_pool 2 calls start)
run-Lawful_example =
    run-Lawful server_pool 2 server_pool-lawful calls start store-IsSound
      (tt, (tt, (tt, (tt, (tt, (tt, (tt, (tt, tt))))))))

Received_example :
    Received store
      (0 ∷ 1 ∷ 2 ∷ [])
      (get_value_with_timeout store rounds 0 (pos 30) (0 ∷ 1 ∷ 2 ∷ []))
Received_example = get_value_with_timeout-Received store rounds 0 (pos 30) (0 ∷ 1 ∷ 2 ∷ [])

abbrev slow : ℕ → Round
slow zero = record { elapsed = 14; timer_first = true }
slow (suc n) = record { elapsed = 20; timer_first = true }

early_example : get_value_with_timeout store slow 0 (pos 30) (0 ∷ 1 ∷ 2 ∷ []) ≡ (none, 2 ∷ [])
early_example =
    get_value_with_timeout-early store slow 0 1 2 [] 30 14 20 refl refl refl (omega arith)
      (omega arith) (omega arith) refl refl
