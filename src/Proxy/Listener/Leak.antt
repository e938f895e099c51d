-- ===== src/Proxy/Listener/Leak.antt =====
-- `Close` closes the socket that it finds; `Serve` may set one afterwards.
use terraform_aws_consul_lam.Prelude.{ℕ, ◌≡◌, refl, ◌∙◌, true, some, arith}
use terraform_aws_consul_lam.Proxy.Listener.{
  Listener, Pc, closed, listening, Answer, move, System, Step, moves, calls_close, spawns, connects,
  joins, receives, init, Reach, here, later,
}
use terraform_aws_consul_lam.Proxy.Listener.Invariant.{Own}
use terraform_aws_consul_lam.Proxy.Listener.Reachable.{Reach-Inv}
use terraform_aws_consul_lam.Proxy.Listener.Safety.{closed_lem}
use terraform_aws_consul_lam.Proxy.Listener.Stuck.{IsStuck, Step-stuck}

closed-IsStuck : (s : System) (i : ℕ) → s.pc i ≡ closed → IsStuck s i
unfolding move
closed-IsStuck s i e = record { alone = λ a. rw e refl; not_joint = rw e refl }

move_listening :
    (i : ℕ) (p : Pc) (a : Answer) (m m' : Listener) (p' : Pc)
    → Own i m p
    → m.stop_closed ≡ true
    → m.socket ≡ listening
    → move i p a m ≡ some (m', p')
    → m'.socket ≡ listening
unfolding move
move_listening i p a m m' p' o stopped open_ h = ground (arith, o.at)

record Leaked (n i : ℕ) (s : System) : Type 0 where
  reach : Reach n init s
  returned : s.pc i ≡ closed
  open_ : s.mem.socket ≡ listening

Step-listening : {n i : ℕ} {s t : System} → Leaked n i s → Step n s t → t.mem.socket ≡ listening
Step-listening {n} {i} {s} k (moves j a {m} {p} lt h) =
    move_listening j (s.pc j) a s.mem m p ((Reach-Inv k.reach).own j)
      (closed_lem k.reach i k.returned).1 k.open_ h
Step-listening k (calls_close j lt h) = k.open_
Step-listening k (spawns j l lt lt' h h') = k.open_
Step-listening k (connects j l lt lt' h h') = k.open_
Step-listening k (joins j c lt h h') = k.open_
Step-listening k (receives e es h) = k.open_

Reach-Leaked : {n i : ℕ} {s t : System} → Leaked n i s → Reach n s t → Leaked n i t
Reach-Leaked k here = k
Reach-Leaked {n} {i} k (later {t = u} r st) =
    let l = Reach-Leaked k r in
    record {
      reach = later l.reach st;
      returned = Step-stuck st i (closed-IsStuck u i l.returned) ∙ l.returned;
      open_ = Step-listening l st;
    }

-- If a call of `Close` has returned and the listener has an open socket, because `Serve` has set it
-- since, then the socket stays open in every state that can follow.
pub socket_stays_open :
    {n : ℕ} {s t : System}
    → Reach n init s
    → (i : ℕ) → s.pc i ≡ closed
    → s.mem.socket ≡ listening
    → Reach n s t
    → t.mem.socket ≡ listening
socket_stays_open r i e h follow =
    (Reach-Leaked (record { reach = r; returned = e; open_ = h }) follow).open_
