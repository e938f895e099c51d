-- ===== src/Proxy/Listener/Global.antt =====
-- The invariant of all goroutines together.
use terraform_aws_consul_lam.Prelude.{Bool, ℕ, ◌+◌, ◌<◌, ◌≡◌, ◌≢◌, false, some, List, arith}
use terraform_aws_consul_lam.Prelude.Threads.{set_at, count}
use terraform_aws_consul_lam.Errors.{Error}
use terraform_aws_consul_lam.Proxy.Listener.{
  Listener, handler, Pc, dialing, waiting, finishing, send_lock, send_test, send_try, send_unlock,
  Answer, move, System,
}
use terraform_aws_consul_lam.Proxy.Listener.Invariant.{
  Own, Shared, Phase, outside, phase, At, is_serving,
}

-- 1 for a `handleConn` that has not called `Done` yet
abbrev pub active : Pc → ℕ
active dialing = 1
active (waiting _) = 1
active finishing = 1
active (send_lock handler _) = 1
active (send_test handler _) = 1
active (send_try handler _) = 1
active (send_unlock handler) = 1
active _ = 0

pub record Inv (n : ℕ) (s : System) : Type 0 where
  pub shared : Shared s.mem
  pub own : (i : ℕ) → Own i s.mem (s.pc i)
  pub counted : s.mem.conn_wg ≡ count active n s.pc

pub move-active :
    (i : ℕ) (p : Pc) (a : Answer) (m m' : Listener) (p' : Pc)
    → (p ≡ finishing → 0 < m.conn_wg)
    → move i p a m ≡ some (m', p')
    → m'.conn_wg + active p ≡ m.conn_wg + active p'
unfolding move
move-active i p a m m' p' pos h = ground (arith, pos)

pub set_at_other : (i j : ℕ) (p : Pc) (pc : ℕ → Pc) → i ≢ j → set_at i p pc j ≡ pc j
set_at_other i j p pc ne = ground arith

-- A goroutine that has nothing to do with the lock or with `Serve`
pub plain-Own :
    (i : ℕ) (m : Listener) (p : Pc) → phase p ≡ outside → is_serving p ≡ false → Own i m p
plain-Own i m p h k = ground arith

pub same-At :
    (wg : ℕ) (es : List Error) (misused : Bool) (m : Listener) (f : Phase)
    → At m f
    → At (record m { conn_wg = wg; errors = es; misused = misused }) f
same-At wg es misused m outside h = h
same-At wg es misused m _ h = h

-- Neither the wait group nor its misuse nor the buffered errors matter to a goroutine.
pub same-Own :
    (i wg : ℕ) (es : List Error) (misused : Bool) (m : Listener) (p : Pc)
    → Own i m p
    → Own i (record m { conn_wg = wg; errors = es; misused = misused }) p
same-Own i wg es misused m p o = record {
  holder = o.holder;
  at = same-At wg es misused m (phase p) o.at;
  serves = o.serves;
  opens = o.opens;
}
