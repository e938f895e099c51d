-- ===== src/Proxy/Listener/Termination.antt =====
-- How many steps a goroutine takes.
use terraform_aws_consul_lam.Prelude.{
  ℕ, ◌+◌, ◌≤◌, ◌<◌, ◌≡◌, ◌≢◌, ap, Bool, true, false, ◌||◌, some, arith, eqb, Bool-cases, inl, inr,
}
use terraform_aws_consul_lam.Prelude.Threads.{set_at}
use terraform_aws_consul_lam.Proxy.Listener.{
  Listener, Pc, unborn, dialing, finishing, waiting, copying, stopping, send_lock, send_test,
  send_try, send_unlock, close_lock, close_swap, close_socket, close_stop, close_errors, close_wait,
  close_unlock, Answer, move, after_send, System, Step, moves, calls_close, spawns, connects, joins,
  receives, init, Reach, here, later,
}
use terraform_aws_consul_lam.Proxy.Listener.Invariant.{Own, is_serving}
use terraform_aws_consul_lam.Proxy.Listener.Global.{Inv}
use terraform_aws_consul_lam.Proxy.Listener.Reachable.{Reach-Inv}

-- The most steps that a goroutine has still to take, where it does not run `Serve`
abbrev pub left : Pc → ℕ
left unborn = 8
left dialing = 6
left (waiting _) = 2
left finishing = 1
left copying = 6
left stopping = 1
left (send_lock _ _) = 5
left (send_test _ _) = 4
left (send_try _ _) = 3
left (send_unlock _) = 2
left close_lock = 7
left close_swap = 6
left close_socket = 5
left close_stop = 4
left close_errors = 3
left close_wait = 2
left close_unlock = 1
left _ = 0

abbrev one_if : Bool → ℕ
one_if true = 1
one_if false = 0

-- Whether goroutine `i` has a part in the step
unfoldable pub takes_part : (n i : ℕ) {s t : System} → Step n s t → Bool
takes_part n i (moves j a lt h) = eqb j i
takes_part n i (calls_close j lt h) = eqb j i
takes_part n i (spawns j k lt lt' h h') = eqb j i || eqb k i
takes_part n i (connects j k lt lt' h h') = eqb j i || eqb k i
takes_part n i (joins j c lt h h') = eqb j i
takes_part n i (receives e es h) = false

-- The steps of goroutine `i` in a run
unfoldable pub steps_of : (n i : ℕ) {s t : System} → Reach n s t → ℕ
steps_of n i here = 0
steps_of n i (later r st) = steps_of n i r + one_if (takes_part n i st)

move-left :
    (i : ℕ) (p : Pc) (a : Answer) (m m' : Listener) (p' : Pc)
    → is_serving p ≡ false
    → move i p a m ≡ some (m', p')
    → left p' < left p
unfolding move after_send
move-left i p a m m' p' o h = ground (arith, o)

not_serving : (i : ℕ) (m : Listener) (p : Pc) → Own i m p → i ≢ 0 → is_serving p ≡ false
not_serving i m p o ne = ground (arith, o.serves)

module _ {n : ℕ} {s : System} (v : Inv n s) (i : ℕ) (ne : i ≢ 0) where
  moves-left :
      (j : ℕ) (a : Answer) (m : Listener) (p : Pc)
      → move j (s.pc j) a s.mem ≡ some (m, p)
      → left (set_at j p s.pc i) + one_if (eqb j i) ≤ left (s.pc i)
  moves-left j a m p h = elim (Bool-cases (eqb j i)) [
    | inr e ↦ rw e (omega arith)
    | inl e ↦
        let same : j ≡ i = ground arith in
        let mine = not_serving i s.mem (s.pc i) (v.own i) ne in
        let own : move i (s.pc i) a s.mem ≡ some (m, p) = rw (← same) h in
        let less = move-left i (s.pc i) a s.mem m p mine own in rw e (omega arith)
  ]

  pub Step-left :
      {t : System} (st : Step n s t) → left (t.pc i) + one_if (takes_part n i st) ≤ left (s.pc i)
  unfolding takes_part
  Step-left (moves j a {m} {p} lt h) = moves-left j a m p h
  Step-left (calls_close j lt h) = ground (arith, ap left h)
  Step-left (spawns j k lt lt' h h') =
      ground (arith, (v.own j).serves (ap is_serving h), ap left h')
  Step-left (connects j k lt lt' h h') = ground (arith, ap left h, ap left h')
  Step-left (joins j c lt h h') = ground (arith, ap left h)
  Step-left (receives e es h) = omega arith

left_start : (i : ℕ) → left (init.pc i) ≤ 8
left_start i = ground arith

-- In every run, whatever the schedule and however long it is: for a goroutine other than that of
-- `Serve`, the steps in which it has taken part and those that `left` still allows it where it
-- stands add up to eight at most. So handlers and calls of `Close` never go on without end.
pub steps_bounded :
    {n : ℕ} {s : System} (r : Reach n init s) (i : ℕ) → i ≢ 0 → steps_of n i r + left (s.pc i) ≤ 8
unfolding steps_of
steps_bounded here i ne = omega (arith, left_start i)
steps_bounded (later r st) i ne =
    omega (arith, steps_bounded r i ne, Step-left (Reach-Inv r) i ne st)
