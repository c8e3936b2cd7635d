-- ===== src/Client/Login/Interleaving.antt =====
-- Refreshes of the token by several goroutines: client/wspLogin.go, `RefreshWspToken`.
use zk_wsp.Prelude.{
  ap, ℕ, zero, suc, ◌≡◌, ◌⊎◌, inl, inr, refl, true, List, [], ◌∷◌, arith, Bool-cases,
}
use zk_wsp.Result.{Result}
use zk_wsp.Client.Login.{
  WspLogin, WspLoginResponse, LoginError, Begun, already_in_progress, is_killed, started,
  store_token, begin_refresh, end_refresh,
}

-- The login, and how many goroutines are asking the cloud service
pub record Logins : Type 0 where
  pub login : WspLogin
  pub asking : ℕ

-- A goroutine calls `RefreshWspToken`, or one that asks the service gets an answer and goes on to
-- the end.
pub data Event : Type 0 where
  call : Event
  answer : Result LoginError WspLoginResponse → Event

unfoldable pub begun : Begun × WspLogin → ℕ → Logins
begun (already_in_progress, h) n = record { login = h; asking = n }
begun (is_killed, h) n = record { login = h; asking = n }
begun (started, h) n = record { login = h; asking = suc n }

unfoldable pub answered : Result LoginError WspLoginResponse → WspLogin → ℕ → Logins
answered x h zero = record { login = h; asking = 0 }
answered x h (suc n) = record { login = end_refresh (store_token x h).1; asking = n }

unfoldable pub step : Event → Logins → Logins
step call s = begun (begin_refresh s.login) s.asking
step (answer x) s = answered x s.login s.asking

unfoldable pub run : List Event → Logins → Logins
run [] s = s
run (e ∷ es) s = run es (step e s)

-- Nobody asks, or one goroutine does and the login says so.
abbrev pub IsExclusive : Logins → Type 0
IsExclusive s = (s.asking ≡ 0) ⊎ ((s.asking ≡ 1) × (s.login.refresh_in_progress ≡ true))

call-IsExclusive :
    (h : WspLogin) (n : ℕ)
    → IsExclusive (record { login = h; asking = n })
    → IsExclusive (begun (begin_refresh h) n)
unfolding begun begin_refresh
call-IsExclusive h n e = elim (Bool-cases h.refresh_in_progress) [
  | inl y ↦ rw y (elim e [ inl z ↦ inl z | inr z ↦ inr (z.0, refl) ])
  | inr y ↦ elim e [
    | inl z ↦ elim (Bool-cases h.killed) [
      | inl k ↦ rw (y, k) (inl z)
      | inr k ↦ rw (y, k) (inr (ap suc z, refl))
    ]
    | inr z ↦ cc
  ]
]

answer-IsExclusive :
    (x : Result LoginError WspLoginResponse) (h : WspLogin) (n : ℕ)
    → (n ≡ 0) ⊎ (n ≡ 1)
    → IsExclusive (answered x h n)
unfolding answered
answer-IsExclusive x h zero e = inl refl
answer-IsExclusive x h (suc n) (inl e) = inl (omega arith)
answer-IsExclusive x h (suc n) (inr e) = inl (omega arith)

step-IsExclusive : (e : Event) (s : Logins) → IsExclusive s → IsExclusive (step e s)
unfolding step
step-IsExclusive call s h = call-IsExclusive s.login s.asking h
step-IsExclusive (answer x) s h =
    answer-IsExclusive x s.login s.asking (elim h [ inl z ↦ inl z | inr z ↦ inr z.0 ])

-- However the calls of `RefreshWspToken` and the answers interleave, at most one goroutine asks the
-- cloud service at a time.
pub run-IsExclusive : (es : List Event) (s : Logins) → IsExclusive s → IsExclusive (run es s)
unfolding run
run-IsExclusive [] s h = h
run-IsExclusive (e ∷ es) s h = run-IsExclusive es (step e s) (step-IsExclusive e s h)
