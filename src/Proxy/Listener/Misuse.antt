-- ===== src/Proxy/Listener/Misuse.antt =====
-- When `connWG.Add` of `Serve` can meet `connWG.Wait` of `Close`.
use terraform_aws_consul_lam.Prelude.{ℕ, ◌≡◌, true, some, arith, inl, inr, Option-cases, ◌⊎◌}
use terraform_aws_consul_lam.Proxy.Listener.{
  Listener, Pc, Answer, move, System, Step, moves, calls_close, spawns, connects, joins, receives,
  init, new_listener, is_waiting, is_awaited, misuses, Reach, here, later,
}
use terraform_aws_consul_lam.Proxy.Listener.Invariant.{phase, At}
use terraform_aws_consul_lam.Proxy.Listener.Reachable.{Reach-Inv}

-- `Close` has closed both channels.
abbrev Closed : Listener → Type 0
Closed m = (m.stop_flag ≡ true) × (m.stop_closed ≡ true) × (m.err_closed ≡ true)

waiting-Closed : (m : Listener) (p : Pc) → At m (phase p) → is_waiting p ≡ true → Closed m
waiting-Closed m p h e = ground (arith, h)

move-Closed :
    (i : ℕ) (p : Pc) (a : Answer) (m m' : Listener) (p' : Pc)
    → (m.misused ≡ true → Closed m)
    → move i p a m ≡ some (m', p')
    → m'.misused ≡ true
    → Closed m'
unfolding move
move-Closed i p a m m' p' before h = ground (arith, before)

awaited_by : (s : System) → is_awaited s ≡ true → (j : ℕ) × (is_waiting (s.pc j) ≡ true)
unfolding is_awaited
awaited_by s h = elim (Option-cases s.mem.lock) [
  | inl free ↦ cc (rw free at h)
  | inr (j, held) ↦ (j, rw held at h)
]

misuses_cause : (s : System) → misuses s ≡ true → (s.mem.misused ≡ true) ⊎ (is_awaited s ≡ true)
unfolding misuses
misuses_cause s h = ground (arith, h)

Step-Closed :
    {n : ℕ} {s t : System}
    → Reach n init s
    → (s.mem.misused ≡ true → Closed s.mem)
    → Step n s t
    → t.mem.misused ≡ true
    → Closed t.mem
Step-Closed {n} {s} r before (moves i a {m} {p} lt h) = move-Closed i (s.pc i) a s.mem m p before h
Step-Closed {n} {s} r before (spawns i j lt lt' h h') = λ e. elim (misuses_cause s e) [
  | inl earlier ↦ before earlier
  | inr awaited ↦
      let (k, waits) = awaited_by s awaited in
      waiting-Closed s.mem (s.pc k) ((Reach-Inv r).own k).at waits
]
Step-Closed r before (calls_close i lt h) = before
Step-Closed r before (connects i j lt lt' h h') = before
Step-Closed r before (joins i c lt h h') = before
Step-Closed r before (receives e es h) = before

-- However the goroutines of a listener are scheduled: if `Serve` has called `connWG.Add` at a zero
-- counter beside a `Close` in its `Wait`, where Go may panic, then the stop flag is set and both
-- channels of `Close` are closed.
pub misused-Closed :
    {n : ℕ} {s : System}
    → Reach n init s
    → s.mem.misused ≡ true
    → (s.mem.stop_flag ≡ true) × (s.mem.stop_closed ≡ true) × (s.mem.err_closed ≡ true)
unfolding new_listener
misused-Closed here e = cc
misused-Closed (later r st) e = Step-Closed r (misused-Closed r) st e
