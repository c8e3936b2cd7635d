-- ===== src/Common/Reader/Exclusive.antt =====
-- A reader is used by one handler at a time: common/writeConnection.go.
use zk_wsp.Prelude.{ℕ, ◌≡◌, ◌∙◌, ap, false, Bool-cases, inl, inr}
use zk_wsp.Common.Pool.{ConnectionPool, IsConnectionPool}
use zk_wsp.Common.Write.{take}
use zk_wsp.Common.Reader.{waiting, Part, absent, holding, Conn, Reach}
use zk_wsp.Common.Write.Uses.{take-IsFree}
use zk_wsp.Common.Reader.Invariant.{Reach-Inv, served, serves-waiting}

module _ {P : Type 0} (ops : ConnectionPool P) (lawful : IsConnectionPool ops) (i : ℕ) where
  holding-present : {k : Part} (s : Conn P) → s.handler ≡ holding k → s.handler ≡ absent → ⊥
  holding-present s h e = cc

  -- While a handler reads from the reader of a message, the goroutine waits for it, so that it does
  -- not ask the websocket for the next message, and nobody else can take the connection.
  pub Reach-exclusive :
      {s : Conn P}
      → Reach ops i s
      → (k : Part) → s.handler ≡ holding k
      → (s.reader ≡ waiting) × ((take i s.store).0 ≡ false)
  Reach-exclusive {s} r k h =
      let v = Reach-Inv ops lawful i r in
      (
        serves-waiting ops lawful i s.reader (v.paired ∙ ap served h),
        elim (Bool-cases (take i s.store).0) [
          | inl e ↦
              let (o, b) =
                take-IsFree i s.store (take i s.store).1 (ap (λ t. (t, (take i s.store).1)) e) in
              absurd (holding-present s h (v.unused o b))
          | inr e ↦ e
        ],
      )
