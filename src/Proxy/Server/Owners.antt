-- ===== src/Proxy/Server/Owners.antt =====
-- Who holds the lock, and what has been closed at which point of `Close`.
use terraform_aws_consul_lam.Prelude.{
  ℕ, ◌≡◌, ◌≢◌, refl, Bool, true, false, Option, none, some, arith,
}
use terraform_aws_consul_lam.Prelude.Threads.{set_at, set_at-All}
use terraform_aws_consul_lam.Errors.{Error}
use terraform_aws_consul_lam.Proxy.Server.{
  Server, Pc, closed, serve_check, serve_refused, serve_lock, serve_make, serve_unlock,
  serve_select, serve_done, close_lock, close_swap, close_listeners, close_stop, close_unlock,
  Choice, new_server, move, System, Step, moves, calls_close, opens, fails, gets_ready, init, Reach,
  here, later,
}

abbrev pub holds : Pc → Bool
holds serve_make = true
holds serve_unlock = true
holds close_swap = true
holds close_listeners = true
holds close_stop = true
holds close_unlock = true
holds _ = false

abbrev pub is_serve : Pc → Bool
is_serve serve_check = true
is_serve serve_refused = true
is_serve serve_lock = true
is_serve serve_make = true
is_serve serve_unlock = true
is_serve serve_select = true
is_serve (serve_done _) = true
is_serve _ = false

-- What the flag and the channel are where a goroutine stands.
abbrev pub At : Server → Pc → Type 0
At m close_listeners = (m.stop_flag ≡ true) × (m.stop_closed ≡ false)
At m close_stop = (m.stop_flag ≡ true) × (m.stop_closed ≡ false)
At m close_unlock = (m.stop_flag ≡ true) × (m.stop_closed ≡ true)
At m closed = (m.stop_flag ≡ true) × (m.stop_closed ≡ true)
At m serve_make = m.stop_closed ≡ m.stop_flag
At m serve_unlock = m.stop_closed ≡ m.stop_flag
At m close_swap = m.stop_closed ≡ m.stop_flag
At m (serve_done none) = m.stop_closed ≡ true
At m _ = Unit

pub record Own (i : ℕ) (m : Server) (p : Pc) : Type 0 where
  pub holder : holds p ≡ true → m.lock ≡ some i
  pub at : At m p
  pub serves : is_serve p ≡ true → i ≡ 0

pub record Shared (m : Server) : Type 0 where
  pub calm : m.panicked ≡ false
  pub complete : m.lock ≡ none → m.stop_closed ≡ m.stop_flag
  pub flagged : m.stop_closed ≡ true → m.stop_flag ≡ true

move-Own :
    (n i : ℕ) (p : Pc) (c : Choice) (m m' : Server) (p' : Pc)
    → Own i m p
    → Shared m
    → move n i p c m ≡ some (m', p')
    → Own i m' p'
unfolding move
move-Own n i p c m m' p' o s h = ground (arith, o.holder, o.at, o.serves, s.complete)

move-Own_other :
    (n i j : ℕ) (p q : Pc) (c : Choice) (m m' : Server) (p' : Pc)
    → i ≢ j
    → Own i m p
    → Own j m q
    → move n i p c m ≡ some (m', p')
    → Own j m' q
unfolding move
move-Own_other n i j p q c m m' p' ne o r h =
    ground (arith, o.holder, o.at, r.holder, r.at, r.serves)

move-Shared :
    (n i : ℕ) (p : Pc) (c : Choice) (m m' : Server) (p' : Pc)
    → Own i m p
    → Shared m
    → move n i p c m ≡ some (m', p')
    → Shared m'
unfolding move
move-Shared n i p c m m' p' o s h = ground (arith, o.holder, o.at, s.calm, s.complete, s.flagged)

pub record Inv (s : System) : Type 0 where
  pub shared : Shared s.mem
  pub own : (i : ℕ) → Own i s.mem (s.pc i)

-- What the listeners do concerns neither the flag nor the lock.
same-At :
    (ready : Bool) (shut opened served : ℕ → Bool) (offers : ℕ → Option Error) (m : Server) (p : Pc)
    → At m p
    → At
        (record m {
          wait_closed = ready;
          shut = shut;
          opened = opened;
          served = served;
          offers = offers;
        })
        p
same-At ready shut opened served offers m p h = ground (arith, h)

same-Own :
    (ready : Bool) (shut opened served : ℕ → Bool) (offers : ℕ → Option Error) (m : Server) (i : ℕ)
    (p : Pc)
    → Own i m p
    → Own i
        (record m {
          wait_closed = ready;
          shut = shut;
          opened = opened;
          served = served;
          offers = offers;
        })
        p
same-Own ready shut opened served offers m i p o = record {
  holder = o.holder;
  at = same-At ready shut opened served offers m p o.at;
  serves = o.serves;
}

listener-Inv :
    (ready : Bool) (shut opened served : ℕ → Bool) (offers : ℕ → Option Error) (s : System)
    → Inv s
    → Inv (record {
      mem = record s.mem {
        wait_closed = ready;
        shut = shut;
        opened = opened;
        served = served;
        offers = offers;
      };
      pc = s.pc;
    })
listener-Inv ready shut opened served offers s v = record {
  shared = record {
    calm = v.shared.calm;
    complete = v.shared.complete;
    flagged = v.shared.flagged;
  };
  own = λ i. same-Own ready shut opened served offers s.mem i (s.pc i) (v.own i);
}

pub Step-Inv : {n : ℕ} {s t : System} → Step n s t → Inv s → Inv t
Step-Inv {n} {s} (moves i c {m} {p} h) v = record {
  shared = move-Shared n i (s.pc i) c s.mem m p (v.own i) v.shared h;
  own =
      set_at-All (λ j q. Own j m q) i p s.pc
        (move-Own n i (s.pc i) c s.mem m p (v.own i) v.shared h)
        (λ j ne. move-Own_other n i j (s.pc i) (s.pc j) c s.mem m p ne (v.own i) (v.own j) h);
}
Step-Inv {n} {s} (calls_close i e) v = record {
  shared = v.shared;
  own =
      set_at-All (λ j q. Own j s.mem q) i close_lock s.pc
        (record { holder = λ h. cc; at = tt; serves = λ h. cc }) (λ j _. v.own j);
}
Step-Inv {n} {s} (opens k lt) v =
    listener-Inv s.mem.wait_closed s.mem.shut (set_at k true s.mem.opened) s.mem.served s.mem.offers
      s v
Step-Inv {n} {s} (fails k e lt h) v =
    listener-Inv s.mem.wait_closed (set_at k true s.mem.shut) s.mem.opened
      (set_at k true s.mem.served) (set_at k (some e) s.mem.offers) s v
Step-Inv {n} {s} (gets_ready e h h') v =
    listener-Inv true s.mem.shut s.mem.opened s.mem.served s.mem.offers s v

init-Own : (i : ℕ) → Own i init.mem (init.pc i)
unfolding new_server
init-Own i = ground arith

pub Reach-Inv : {n : ℕ} {s : System} → Reach n init s → Inv s
unfolding new_server
Reach-Inv here = record {
  shared = record { calm = refl; complete = λ _. refl; flagged = λ h. h };
  own = init-Own;
}
Reach-Inv (later r st) = Step-Inv st (Reach-Inv r)
