-- ===== src/Proxy/Listener/Progress.antt =====
-- While `Close` waits for the handlers, somebody can go on unless it is the deadlock of
-- Proxy/Listener/Deadlock.antt.
use terraform_aws_consul_lam.Prelude.{
  ℕ, ◌<◌, ◌≡◌, eqb, ◌⊎◌, inl, inr, refl, ap, subst, true, false, some, arith, Bool-cases,
}
use terraform_aws_consul_lam.Prelude.Threads.{count-pos}
use terraform_aws_consul_lam.Errors.{Error, closed_listener}
use terraform_aws_consul_lam.Proxy.Listener.{
  Listener, handler, Pc, dialing, waiting, finishing, send_lock, close_wait, close_unlock, Answer,
  succeeds, fails, move, System, init, Reach,
}
use terraform_aws_consul_lam.Proxy.Listener.Invariant.{phase, holds, At}
use terraform_aws_consul_lam.Proxy.Listener.Safety.{one_holder}
use terraform_aws_consul_lam.Proxy.Listener.Global.{active}
use terraform_aws_consul_lam.Proxy.Listener.Reachable.{Reach-Inv}

-- Some answer of the network lets the goroutine take a step.
abbrev pub CanMove : ℕ → Pc → Listener → Type 0
CanMove i p m = (a : Answer) × (r : Listener × Pc) × (move i p a m ≡ some r)

handler-CanMove :
    (i : ℕ) (p : Pc) (m : Listener)
    → active p ≡ 1
    → holds (phase p) ≡ false
    → m.stop_closed ≡ true
    → ((e : Error) × (p ≡ send_lock handler e)) ⊎ CanMove i p m
unfolding move
handler-CanMove i dialing m act free stopped = inr (fails closed_listener, _, refl)
handler-CanMove i (waiting c) m act free stopped = inr (succeeds, (m, finishing), rw stopped refl)
handler-CanMove i finishing m act free stopped = inr (succeeds, _, refl)
handler-CanMove i (send_lock handler e) m act free stopped = inl (e, refl)
handler-CanMove i p m act free stopped = ground arith

no_lock :
    {n : ℕ} {s : System}
    → Reach n init s
    → (i j : ℕ) → s.pc j ≡ close_wait
    → active (s.pc i) ≡ 1
    → holds (phase (s.pc i)) ≡ false
no_lock {n} {s} r i j waits act = elim (Bool-cases (holds (phase (s.pc i)))) [
  | inr free ↦ free
  | inl held ↦
      let same = one_holder r i j held (ap (λ p. holds (phase p)) waits) in
      absurd (omega (arith, act, ap (λ k. active (s.pc k)) same, ap active waits))
]

-- Each handler that is not done can take a step on its own, or waits to report an error.
handler_progress :
    {n : ℕ} {s : System}
    → Reach n init s
    → (i j : ℕ) → s.pc j ≡ close_wait
    → active (s.pc i) ≡ 1
    → ((e : Error) × (s.pc i ≡ send_lock handler e)) ⊎ CanMove i (s.pc i) s.mem
handler_progress {n} {s} r i j waits act =
    let v = Reach-Inv r in
    let all_closed : At s.mem (phase close_wait) =
      subst (λ p. At s.mem (phase p)) waits (v.own j).at in
    handler-CanMove i (s.pc i) s.mem act (no_lock r i j waits act) all_closed.1

active_one : (p : Pc) → 0 < active p → active p ≡ 1
active_one p h = ground arith

wait_over : (j : ℕ) (p : Pc) (m : Listener) → p ≡ close_wait → m.conn_wg ≡ 0 → CanMove j p m
unfolding move
wait_over j p m e none_left = rw e (succeeds, (m, close_unlock), rw none_left refl)

-- While a call of `Close` waits for the handlers, it can go on itself, or some goroutine that is a
-- handler which `connWG` still counts can take a step on its own, or waits for `stopLock` to report
-- an error.
pub close_wait_progress :
    {n : ℕ} {s : System}
    → Reach n init s
    → (j : ℕ) → s.pc j ≡ close_wait
    → CanMove j (s.pc j) s.mem
      ⊎ ((i : ℕ) × (i < n)
          × (active (s.pc i) ≡ 1)
          × (((e : Error) × (s.pc i ≡ send_lock handler e)) ⊎ CanMove i (s.pc i) s.mem))
close_wait_progress {n} {s} r j waits = elim (Bool-cases (eqb s.mem.conn_wg 0)) [
  | inl none_left ↦ inl (wait_over j (s.pc j) s.mem waits (ground arith))
  | inr some_left ↦
      let pos : 0 < s.mem.conn_wg = ground arith in
      let (i, lt, act) = count-pos active n s.pc (omega (arith, (Reach-Inv r).counted)) in
      let one = active_one (s.pc i) act in inr (i, lt, one, handler_progress r i j waits one)
]
