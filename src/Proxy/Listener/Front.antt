-- ===== src/Proxy/Listener/Front.antt =====
-- The result of `Serve` and the channel that announces the listener, while `Serve` runs.
use terraform_aws_consul_lam.Prelude.{
  Bool, ℕ, ◌+◌, ◌≡◌, ◌≢◌, refl, ap, Bool, true, false, none, some, List, arith,
}
use terraform_aws_consul_lam.Prelude.Threads.{set_at, set_at-All}
use terraform_aws_consul_lam.Errors.{Error}
use terraform_aws_consul_lam.Proxy.Listener.{
  Listener, Pc, dialing, waiting, finishing, copying, serve_accept, serve_spawn, serve_failed,
  close_lock, Answer, move, System, Step, moves, calls_close, spawns, connects, joins, receives,
  init, new_listener, misuses, Reach, here, later,
}
use terraform_aws_consul_lam.Proxy.Listener.Invariant.{Own, is_serving}
use terraform_aws_consul_lam.Proxy.Listener.Global.{Inv}
use terraform_aws_consul_lam.Proxy.Listener.Reachable.{Reach-Inv}

abbrev is_accepting : Pc → Bool
is_accepting serve_accept = true
is_accepting serve_spawn = true
is_accepting (serve_failed _) = true
is_accepting _ = false

-- `Serve` has no result while it runs, and accepts only after it has announced the listener.
pub record Front (m : Listener) (p : Pc) : Type 0 where
  pub no_result : is_serving p ≡ true → m.serve_result ≡ none
  pub opened : is_accepting p ≡ true → m.listening_closed ≡ true

move-Front :
    (i : ℕ) (p : Pc) (a : Answer) (m m' : Listener) (p' : Pc)
    → Front m p
    → move i p a m ≡ some (m', p')
    → Front m' p'
unfolding move
move-Front i p a m m' p' f h = ground (arith, f.no_result, f.opened)

move-Front_other :
    (i j : ℕ) (p q : Pc) (a : Answer) (m m' : Listener) (p' : Pc)
    → i ≢ j
    → Own i m p
    → Own j m q
    → Front m q
    → move i p a m ≡ some (m', p')
    → Front m' q
unfolding move
move-Front_other i j p q a m m' p' ne o r f h =
    ground (arith, o.serves, r.serves, f.no_result, f.opened)

plain-Front : (m : Listener) (p : Pc) → is_serving p ≡ false → Front m p
plain-Front m p h = ground arith

same-Front :
    (wg : ℕ) (es : List Error) (misused : Bool) (m : Listener) (p : Pc)
    → Front m p
    → Front (record m { conn_wg = wg; errors = es; misused = misused }) p
same-Front wg es misused m p f = record { no_result = f.no_result; opened = f.opened }

abbrev pub Fronts : System → Type 0
Fronts s = (i : ℕ) → Front s.mem (s.pc i)

module _ {n : ℕ} {s : System} (v : Inv n s) (f : Fronts s) where
  set_at-Front :
      (i : ℕ) (p : Pc) (pc : ℕ → Pc)
      → ((j : ℕ) → Front s.mem (pc j))
      → is_serving p ≡ false
      → (j : ℕ) → Front s.mem (set_at i p pc j)
  set_at-Front i p pc all plain =
      set_at-All (λ j q. Front s.mem q) i p pc (plain-Front s.mem p plain) (λ j _. all j)

  accepts-Front : (i : ℕ) → s.pc i ≡ serve_spawn → Front s.mem serve_accept
  accepts-Front i e = record {
    no_result = λ _. (f i).no_result (ap is_serving e);
    opened = λ _. (f i).opened (ap is_accepting e);
  }

  Step-Fronts : {t : System} → Step n s t → Fronts t
  Step-Fronts (moves i a {m} {p} lt h) =
      set_at-All (λ j q. Front m q) i p s.pc (move-Front i (s.pc i) a s.mem m p (f i) h)
        (λ j other.
          move-Front_other i j (s.pc i) (s.pc j) a s.mem m p other (v.own i) (v.own j) (f j) h)
  Step-Fronts (calls_close i lt e) = set_at-Front i close_lock s.pc f refl
  Step-Fronts (spawns i j lt lt' e e') = λ k.
      same-Front (s.mem.conn_wg + 1) s.mem.errors (misuses s) s.mem _ (
        set_at-Front j dialing (set_at i serve_accept s.pc)
          (set_at-All (λ j q. Front s.mem q) i serve_accept s.pc (accepts-Front i e) (λ j _. f j))
          refl k)
  Step-Fronts (connects i j lt lt' e e') =
      set_at-Front j copying (set_at i (waiting j) s.pc) (set_at-Front i (waiting j) s.pc f refl)
        refl
  Step-Fronts (joins i c lt e _) = set_at-Front i finishing s.pc f refl
  Step-Fronts (receives e es h) =
      λ k. same-Front s.mem.conn_wg es s.mem.misused s.mem (s.pc k) (f k)

init-Fronts : Fronts init
unfolding new_listener
init-Fronts i = record { no_result = λ _. refl; opened = λ h. ground arith }

pub Reach-Fronts : {n : ℕ} {s : System} → Reach n init s → Fronts s
Reach-Fronts here = init-Fronts
Reach-Fronts (later r st) = Step-Fronts (Reach-Inv r) (Reach-Fronts r) st
