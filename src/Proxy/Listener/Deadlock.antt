-- ===== src/Proxy/Listener/Deadlock.antt =====
-- `Close` holds `stopLock` while it waits for the handlers, and a handler that reports an error waits
-- for `stopLock` before it counts as done.
use terraform_aws_consul_lam.Prelude.{ℕ, ◌<◌, ◌≡◌, refl, ap, ◌∙◌, false, some, arith, eqb}
use terraform_aws_consul_lam.Prelude.Threads.{weight-le-count}
use terraform_aws_consul_lam.Errors.{Error}
use terraform_aws_consul_lam.Proxy.Listener.{
  handler, send_lock, close_wait, move, acquire, System, Step, init, Reach, here, later,
}
use terraform_aws_consul_lam.Proxy.Listener.Invariant.{phase, holds}
use terraform_aws_consul_lam.Proxy.Listener.Stuck.{IsStuck, Step-stuck}
use terraform_aws_consul_lam.Proxy.Listener.Global.{Inv, active}
use terraform_aws_consul_lam.Proxy.Listener.Reachable.{Step-Inv, Reach-Inv}

pub record Deadlocked (n i j : ℕ) (e : Error) (s : System) : Type 0 where
  pub inv : Inv n s
  pub exists : i < n
  pub blocked : s.pc i ≡ send_lock handler e
  pub waits : s.pc j ≡ close_wait

module _ {n i j : ℕ} {e : Error} {s : System} (d : Deadlocked n i j e s) where
  held : s.mem.lock ≡ some j
  held = (d.inv.own j).holder (ap (λ p. holds (phase p)) d.waits)

  busy : eqb s.mem.conn_wg 0 ≡ false
  busy =
      ground (arith, d.inv.counted, weight-le-count active n i s.pc d.exists, ap active d.blocked)

  blocked-IsStuck : IsStuck s i
  unfolding move
  blocked-IsStuck = record {
    alone = λ a. rw d.blocked (rw (held, acquire) refl);
    not_joint = rw d.blocked refl;
  }

  waits-IsStuck : IsStuck s j
  unfolding move
  waits-IsStuck = record { alone = λ a. rw d.waits (rw busy refl); not_joint = rw d.waits refl }

Step-Deadlocked :
    {n i j : ℕ} {e : Error} {s t : System}
    → Deadlocked n i j e s
    → Step n s t
    → Deadlocked n i j e t
Step-Deadlocked {n} {i} {j} d st = record {
  inv = Step-Inv st d.inv;
  exists = d.exists;
  blocked = Step-stuck st i (blocked-IsStuck d) ∙ d.blocked;
  waits = Step-stuck st j (waits-IsStuck d) ∙ d.waits;
}

Reach-Deadlocked :
    {n i j : ℕ} {e : Error} {s t : System}
    → Deadlocked n i j e s
    → Reach n s t
    → Deadlocked n i j e t
Reach-Deadlocked d here = d
Reach-Deadlocked d (later r st) = Step-Deadlocked (Reach-Deadlocked d r) st

-- If `Close` waits for the handlers, and a handler whose dial has failed waits for `stopLock` to
-- report the error, then both wait for ever: in every state that can follow they are where they were.
pub close_wait_forever :
    {n : ℕ} {s t : System}
    → Reach n init s
    → (i j : ℕ) (e : Error) → i < n
    → s.pc i ≡ send_lock handler e
    → s.pc j ≡ close_wait
    → Reach n s t
    → (t.pc i ≡ send_lock handler e) × (t.pc j ≡ close_wait)
close_wait_forever r i j e lt blocked waits follow =
    let d =
      Reach-Deadlocked (record { inv = Reach-Inv r; exists = lt; blocked = blocked; waits = waits })
        follow in
    (d.blocked, d.waits)
