-- ===== src/Proxy/Listener/Safety.antt =====
-- What holds of the channels and of `stopLock` in every reachable state.
use terraform_aws_consul_lam.Prelude.{
  ℕ, ◌≡◌, refl, sym, ◌∙◌, subst, ◌⊎◌, inl, inr, true, false, some, List, ◌∷◌, arith,
}
use terraform_aws_consul_lam.Errors.{Error}
use terraform_aws_consul_lam.Proxy.Listener.{
  Listener, Pc, closed, Answer, move, System, Step, moves, calls_close, spawns, connects, joins,
  receives, init, Reach,
}
use terraform_aws_consul_lam.Proxy.Listener.Invariant.{Own, phase, holds, At}
use terraform_aws_consul_lam.Proxy.Listener.Reachable.{Reach-Inv}

-- Whatever the goroutines do, in any order and with any number of calls of `Close`: no error is sent
-- on the closed `errChan`, none of the three channels is closed twice, and the counter of `connWG` is never taken
-- below zero.
pub no_panic : {n : ℕ} {s : System} → Reach n init s → s.mem.panicked ≡ false
no_panic r = (Reach-Inv r).shared.calm

-- Two goroutines are never both between `Lock` and `Unlock` of `stopLock`.
pub one_holder :
    {n : ℕ} {s : System}
    → Reach n init s
    → (i j : ℕ) → holds (phase (s.pc i)) ≡ true
    → holds (phase (s.pc j)) ≡ true
    → i ≡ j
one_holder {n} {s} r i j hi hj =
    let v = Reach-Inv r in let e = sym ((v.own i).holder hi) ∙ (v.own j).holder hj in cc

-- Once some call of `Close` has returned, the listener is stopped and both channels are closed, also
-- where another call did the work.
pub closed_lem :
    {n : ℕ} {s : System}
    → Reach n init s
    → (i : ℕ) → s.pc i ≡ closed
    → (s.mem.stop_flag ≡ true) × (s.mem.stop_closed ≡ true) × (s.mem.err_closed ≡ true)
closed_lem {n} {s} r i e = subst (λ p. At s.mem (phase p)) e ((Reach-Inv r).own i).at

-- What a step of one goroutine makes of the buffer
abbrev Receivable : List Error → List Error → Type 0
Receivable old new = (new ≡ old) ⊎ ((e : Error) × (old ≡ e ∷ new))

move_stopped :
    (i : ℕ) (p : Pc) (a : Answer) (m m' : Listener) (p' : Pc)
    → Own i m p
    → m.stop_flag ≡ true
    → move i p a m ≡ some (m', p')
    → m'.errors ≡ m.errors
unfolding move
move_stopped i p a m m' p' o stopped h = ground (arith, o.at)

-- After a call of `Close` has returned no error is added to the buffer: a step leaves it as it is,
-- or is the receipt of its first error.
pub Step-closed :
    {n : ℕ} {s t : System}
    → Reach n init s
    → (i : ℕ) → s.pc i ≡ closed
    → Step n s t
    → (t.mem.errors ≡ s.mem.errors) ⊎ ((e : Error) × (s.mem.errors ≡ e ∷ t.mem.errors))
Step-closed {n} {s} r i e (moves j a {m} {p} lt h) =
    inl (move_stopped j (s.pc j) a s.mem m p ((Reach-Inv r).own j) (closed_lem r i e).0 h)
Step-closed r i e (receives x es h) = inr (x, h)
Step-closed r i e (calls_close j lt h) = inl refl
Step-closed r i e (spawns j k lt lt' h h') = inl refl
Step-closed r i e (connects j k lt lt' h h') = inl refl
Step-closed r i e (joins j c lt h h') = inl refl
