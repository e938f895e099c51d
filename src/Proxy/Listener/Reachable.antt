-- ===== src/Proxy/Listener/Reachable.antt =====
-- The invariant of all goroutines together holds at the start and after every step.
use terraform_aws_consul_lam.Prelude.{
  ℕ, zero, suc, ◌+◌, ◌<◌, ◌≡◌, ◌≢◌, refl, sym, ap, ◌∙◌, some, List, ◌∷◌, length, arith,
}
use terraform_aws_consul_lam.Prelude.Threads.{
  set_at, set_at-All, count, count-set_at, weight-le-count,
}
use terraform_aws_consul_lam.Errors.{Error}
use terraform_aws_consul_lam.Proxy.Listener.{
  Listener, Pc, unborn, serve_accept, serve_spawn, dialing, waiting, finishing, copying, close_lock,
  Answer, move, System, Step, moves, calls_close, spawns, connects, joins, receives, init,
  new_listener, misuses, Reach, here, later,
}
use terraform_aws_consul_lam.Proxy.Listener.Invariant.{
  Own, is_serving, move-Own, move-Own_other, move-Shared,
}
use terraform_aws_consul_lam.Proxy.Listener.Global.{
  active, Inv, move-active, set_at_other, plain-Own, same-Own,
}

module _ {n : ℕ} {s : System} (v : Inv n s) where
  finishing_pos : (i : ℕ) → i < n → s.pc i ≡ finishing → 0 < s.mem.conn_wg
  finishing_pos i lt e = omega (arith, v.counted, weight-le-count active n i s.pc lt, ap active e)

  -- A change of the states of goroutines that leaves flags, channels and lock as they are
  set_at-Own :
      (i : ℕ) (p : Pc) (pc : ℕ → Pc)
      → ((j : ℕ) → Own j s.mem (pc j))
      → Own i s.mem p
      → (j : ℕ) → Own j s.mem (set_at i p pc j)
  set_at-Own i p pc all mine = set_at-All (λ j q. Own j s.mem q) i p pc mine (λ j _. all j)

  moves-Own :
      (i : ℕ) (a : Answer) (m : Listener) (p : Pc)
      → move i (s.pc i) a s.mem ≡ some (m, p)
      → (j : ℕ) → Own j m (set_at i p s.pc j)
  moves-Own i a m p h =
      set_at-All (λ j q. Own j m q) i p s.pc (move-Own i (s.pc i) a s.mem m p (v.own i) v.shared h)
        (λ j other. move-Own_other i j (s.pc i) (s.pc j) a s.mem m p other (v.own i) (v.own j) h)

  moves-Inv :
      (i : ℕ) (a : Answer) (m : Listener) (p : Pc)
      → i < n
      → move i (s.pc i) a s.mem ≡ some (m, p)
      → Inv n (record { mem = m; pc = set_at i p s.pc })
  moves-Inv i a m p lt h = record {
    shared = move-Shared i (s.pc i) a s.mem m p (v.own i) v.shared (finishing_pos i lt) h;
    own = moves-Own i a m p h;
    counted = omega (
      arith,
      v.counted,
      count-set_at active n i p s.pc lt,
      move-active i (s.pc i) a s.mem m p (finishing_pos i lt) h,
    );
  }

  calls_close-Inv :
      (i : ℕ)
      → i < n
      → s.pc i ≡ unborn
      → Inv n (record { mem = s.mem; pc = set_at i close_lock s.pc })
  calls_close-Inv i lt e = record {
    shared = v.shared;
    own = set_at-Own i close_lock s.pc v.own (plain-Own i s.mem close_lock refl refl);
    counted = omega (arith, v.counted, count-set_at active n i close_lock s.pc lt, ap active e);
  }

  differ : (i j : ℕ) {p q : Pc} → s.pc i ≡ p → s.pc j ≡ q → p ≢ q → i ≢ j
  differ i j e e' ne h = ne (sym e ∙ ap s.pc h ∙ e')

  accepts-Own : (i : ℕ) → s.pc i ≡ serve_spawn → Own i s.mem serve_accept
  accepts-Own i e = record {
    holder = λ h. cc;
    at = tt;
    serves = λ _. (v.own i).serves (ap is_serving e);
    opens = λ h. cc;
  }

  -- Goroutine `i` goes on, and a new one `j` is started.
  count_two :
      (i j : ℕ) (p q : Pc)
      → i < n
      → j < n
      → i ≢ j
      → count active n (set_at j q (set_at i p s.pc)) + active (s.pc i) + active (s.pc j)
        ≡ count active n s.pc + active p + active q
  count_two i j p q lt lt' ne = omega (
    arith,
    count-set_at active n i p s.pc lt,
    count-set_at active n j q (set_at i p s.pc) lt',
    ap active (set_at_other i j p s.pc ne),
  )

  spawns-Inv :
      (i j : ℕ)
      → i < n
      → j < n
      → s.pc i ≡ serve_spawn
      → s.pc j ≡ unborn
      → Inv n (record {
        mem = record s.mem { conn_wg = s.mem.conn_wg + 1; misused = misuses s };
        pc = set_at j dialing (set_at i serve_accept s.pc);
      })
  spawns-Inv i j lt lt' e e' = record {
    shared = record {
      calm = v.shared.calm;
      bounded = v.shared.bounded;
      complete = v.shared.complete;
    };
    own = λ k. same-Own k (s.mem.conn_wg + 1) s.mem.errors (misuses s) s.mem _ (
        set_at-Own j dialing (set_at i serve_accept s.pc)
          (set_at-Own i serve_accept s.pc v.own (accepts-Own i e))
          (plain-Own j s.mem dialing refl refl) k);
    counted = omega (
      arith,
      v.counted,
      count_two i j serve_accept dialing lt lt' (differ i j e e' (λ h. cc)),
      ap active e,
      ap active e',
    );
  }

  connects-Inv :
      (i j : ℕ)
      → i < n
      → j < n
      → s.pc i ≡ dialing
      → s.pc j ≡ unborn
      → Inv n (record { mem = s.mem; pc = set_at j copying (set_at i (waiting j) s.pc) })
  connects-Inv i j lt lt' e e' = record {
    shared = v.shared;
    own =
        set_at-Own j copying (set_at i (waiting j) s.pc)
          (set_at-Own i (waiting j) s.pc v.own (plain-Own i s.mem (waiting j) refl refl))
          (plain-Own j s.mem copying refl refl);
    counted = omega (
      arith,
      v.counted,
      count_two i j (waiting j) copying lt lt' (differ i j e e' (λ h. cc)),
      ap active e,
      ap active e',
    );
  }

  joins-Inv :
      (i c : ℕ)
      → i < n
      → s.pc i ≡ waiting c
      → Inv n (record { mem = s.mem; pc = set_at i finishing s.pc })
  joins-Inv i c lt e = record {
    shared = v.shared;
    own = set_at-Own i finishing s.pc v.own (plain-Own i s.mem finishing refl refl);
    counted = omega (arith, v.counted, count-set_at active n i finishing s.pc lt, ap active e);
  }

  receives-Inv :
      (e : Error) (es : List Error)
      → s.mem.errors ≡ e ∷ es
      → Inv n (record { mem = record s.mem { errors = es }; pc = s.pc })
  receives-Inv e es h = record {
    shared = record {
      calm = v.shared.calm;
      bounded = omega (arith, v.shared.bounded, ap length h);
      complete = v.shared.complete;
    };
    own = λ j. same-Own j s.mem.conn_wg es s.mem.misused s.mem (s.pc j) (v.own j);
    counted = v.counted;
  }

-- Every step keeps the invariant.
pub Step-Inv : {n : ℕ} {s t : System} → Step n s t → Inv n s → Inv n t
Step-Inv (moves i a {m} {p} lt h) v = moves-Inv v i a m p lt h
Step-Inv (calls_close i lt e) v = calls_close-Inv v i lt e
Step-Inv (spawns i j lt lt' e e') v = spawns-Inv v i j lt lt' e e'
Step-Inv (connects i j lt lt' e e') v = connects-Inv v i j lt lt' e e'
Step-Inv (joins i c lt e _) v = joins-Inv v i c lt e
Step-Inv (receives e es h) v = receives-Inv v e es h

count_unborn : (n : ℕ) → count active n init.pc ≡ 0
unfolding count
count_unborn zero = refl
count_unborn (suc n) = ground (arith, count_unborn n)

init-Own : (i : ℕ) → Own i init.mem (init.pc i)
unfolding new_listener
init-Own i = ground arith

init-Inv : (n : ℕ) → Inv n init
unfolding new_listener
init-Inv n = record {
  shared = record { calm = refl; bounded = omega arith; complete = λ _. (refl, refl) };
  own = init-Own;
  counted = sym (count_unborn n);
}

pub Reach-Inv : {n : ℕ} {s : System} → Reach n init s → Inv n s
Reach-Inv {n} here = init-Inv n
Reach-Inv (later r st) = Step-Inv st (Reach-Inv r)
