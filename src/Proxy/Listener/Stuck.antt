-- ===== src/Proxy/Listener/Stuck.antt =====
-- A goroutine that cannot go on stays where it is, whatever the others do.
use terraform_aws_consul_lam.Prelude.{
  ℕ, ◌≡◌, ◌≢◌, refl, sym, ap, ◌∙◌, Bool, true, false, none, some,
}
use mathlib.Core.Bool.{false≢true}
use terraform_aws_consul_lam.Prelude.Threads.{set_at}
use terraform_aws_consul_lam.Proxy.Listener.{
  Listener, Pc, unborn, waiting, dialing, serve_spawn, serve_accept, close_lock, copying, finishing,
  Answer, move, System, Step, moves, calls_close, spawns, connects, joins, receives,
}
use terraform_aws_consul_lam.Proxy.Listener.Global.{set_at_other}

-- The goroutine can take a step together with another one, or it can be started.
abbrev pub is_joint : Pc → Bool
is_joint unborn = true
is_joint serve_spawn = true
is_joint dialing = true
is_joint (waiting _) = true
is_joint _ = false

pub record IsStuck (s : System) (l : ℕ) : Type 0 where
  pub alone : (a : Answer) → move l (s.pc l) a s.mem ≡ none
  pub not_joint : is_joint (s.pc l) ≡ false

joint_ne :
    (s : System) (k l : ℕ) {p : Pc}
    → s.pc k ≡ p
    → is_joint p ≡ true
    → is_joint (s.pc l) ≡ false
    → k ≢ l
joint_ne s k l {p} e joint free h =
    false≢true (sym free ∙ ap is_joint (sym (ap s.pc h)) ∙ ap is_joint e ∙ joint)

moving_ne :
    (s : System) (k l : ℕ) (a : Answer) {r : Listener × Pc}
    → move k (s.pc k) a s.mem ≡ some r
    → ((b : Answer) → move l (s.pc l) b s.mem ≡ none)
    → k ≢ l
moving_ne s k l a {r} e none_ h =
    let x : none ≡ some r = sym (none_ a) ∙ ap (λ i. move i (s.pc i) a s.mem) (sym h) ∙ e in cc

pub Step-stuck : {n : ℕ} {s t : System} → Step n s t → (l : ℕ) → IsStuck s l → t.pc l ≡ s.pc l
Step-stuck {n} {s} (moves k a {m} {p} lt h) l w =
    set_at_other k l p s.pc (moving_ne s k l a h w.alone)
Step-stuck {n} {s} (calls_close k lt h) l w =
    set_at_other k l close_lock s.pc (joint_ne s k l h refl w.not_joint)
Step-stuck {n} {s} (spawns k j lt lt' h h') l w =
    set_at_other j l dialing (set_at k serve_accept s.pc) (joint_ne s j l h' refl w.not_joint)
    ∙ set_at_other k l serve_accept s.pc (joint_ne s k l h refl w.not_joint)
Step-stuck {n} {s} (connects k j lt lt' h h') l w =
    set_at_other j l copying (set_at k (waiting j) s.pc) (joint_ne s j l h' refl w.not_joint)
    ∙ set_at_other k l (waiting j) s.pc (joint_ne s k l h refl w.not_joint)
Step-stuck {n} {s} (joins k c lt h h') l w =
    set_at_other k l finishing s.pc (joint_ne s k l h refl w.not_joint)
Step-stuck (receives e es h) l w = refl
