-- ===== src/Common/Pings/Reopened.antt =====
-- A read connection that is closed at the end of a turn: common/readConnection.go, `Start`.
use zk_wsp.Prelude.{ℕ, suc, ◌≡◌, ◌≤◌, refl, true, some, arith, ==_refl}
use zk_wsp.Common.Types.{idle, is_idle, is_closed}
use zk_wsp.Common.Store.{Store}
use zk_wsp.Common.Pool.{ConnectionPool}
use zk_wsp.Common.Read.{close, close_without_lock}
use zk_wsp.Common.Serve.{set_status}
use zk_wsp.Common.Pings.{
  head, reading, ended, Conn, closes, Step, Steps, IsStart, listen, read_error, take_out, shut,
  done, then_,
}
use zk_wsp.Common.Pings.Closes.{Steps-Inv}

module _ {P : Type 0} (ops : ConnectionPool P) (i : ℕ) where
  abbrev pub listening : Conn P → Conn P
  listening s = record s { store = set_status i idle s.store; loop = reading }

  closes-again :
      (w : ℕ) (s : Store)
      → (s.reads i).ws ≡ some w
      → closes i (close i (set_status i idle s)) ≡ suc (closes i s)
  unfolding close_without_lock
  closes-again w s h = ground (arith, ==_refl i, ==_refl w)

  -- If the connection was closed when the loop of `Start` begins a new turn, then the loop marks it
  -- idle again, though its websocket is closed; and when the read has failed, the end of `Start`
  -- closes the websocket once more.
  pub closed-IsReopened :
      {s t : Conn P}
      → IsStart ops i s
      → Steps ops i s t
      → t.loop ≡ head
      → is_closed (t.store.reads i).status ≡ true
      → Step ops i t (listening t)
        × (is_idle ((listening t).store.reads i).status ≡ true)
        × (1 ≤ closes i (listening t).store)
        × ((u : Conn P) × Steps ops i (listening t) u
            × (u.loop ≡ ended)
            × (closes i u.store ≡ suc (closes i t.store)))
  closed-IsReopened {s} {t} h st at c =
      let v = Steps-Inv ops i h st in
      (
        listen at,
        rw (==_refl i) refl,
        rw (==_refl i) (v.cut c),
        (
          _,
          then_ (then_ (then_ done (read_error refl)) (take_out refl)) (shut refl),
          refl,
          closes-again h.ws t.store v.connected,
        ),
      )
