-- ===== src/Proxy/Server/Closing.antt =====
-- Which listeners have been closed once `Close` has returned.
use terraform_aws_consul_lam.Prelude.{
  ℕ, zero, suc, ◌<◌, ◌≡◌, refl, sym, ap, ◌∙◌, Bool, true, false, none, some, arith, Bool-cases, inl,
  inr, ◌⊎◌, eqb,
}
use mathlib.Core.Bool.{false≢true}
use terraform_aws_consul_lam.Prelude.Threads.{set_at, set_at-All}
use terraform_aws_consul_lam.Proxy.Server.{
  Server, Pc, closed, serve_done, close_lock, close_listeners, close_stop, Choice, listener, all_of,
  move, has_made, System, Step, moves, calls_close, opens, fails, gets_ready, init, Reach, here,
  later,
}
use terraform_aws_consul_lam.Proxy.Server.Owners.{At, Reach-Inv}
use terraform_aws_consul_lam.Proxy.Server.Made.{Made, Reach-Made}

all_of-set_at : (n k : ℕ) (f : ℕ → Bool) → all_of n f ≡ true → all_of n (set_at k true f) ≡ true
unfolding all_of
all_of-set_at zero k f h = refl
all_of-set_at (suc n) k f h = ground (arith, all_of-set_at n k f)

all_of_each : (n k : ℕ) (f : ℕ → Bool) → all_of n f ≡ true → k < n → f k ≡ true
unfolding all_of
all_of_each zero k f h lt = absurd (omega arith)
all_of_each (suc n) k f h lt = elim (Bool-cases (eqb k n)) [
  | inl e ↦ ground arith
  | inr e ↦ ground (arith, all_of_each n k f)
]

-- All listeners are closed before the channel is.
abbrev Swept : ℕ → (ℕ → Bool) → Pc → Type 0
Swept n shut close_stop = all_of n shut ≡ true
Swept n shut _ = Unit

Swept-set_at :
    (n k : ℕ) (shut : ℕ → Bool) (p : Pc) → Swept n shut p → Swept n (set_at k true shut) p
Swept-set_at n k shut close_stop h = all_of-set_at n k shut h
Swept-set_at n k shut p h = ground (arith, h)

move-Swept :
    (n i : ℕ) (p : Pc) (c : Choice) (m m' : Server) (p' : Pc)
    → m.made ≡ n
    → Swept n m.shut p
    → move n i p c m ≡ some (m', p')
    → Swept n m'.shut p'
unfolding move
move-Swept n i close_listeners (listener k) m m' p' made o h = ground (arith, made)
move-Swept n i p c m m' p' made o h = ground (arith, o, made)

move-Swept_other :
    (n i : ℕ) (p q : Pc) (c : Choice) (m m' : Server) (p' : Pc)
    → Swept n m.shut q
    → move n i p c m ≡ some (m', p')
    → Swept n m'.shut q
unfolding move
move-Swept_other n i close_listeners close_stop (listener k) m m' p' o h =
    ground (arith, o, all_of-set_at n k m.shut)
move-Swept_other n i p q c m m' p' o h = ground (arith, o)

move_all_shut :
    (n i : ℕ) (p : Pc) (c : Choice) (m m' : Server) (p' : Pc)
    → (m.stop_closed ≡ true → all_of n m.shut ≡ true)
    → Swept n m.shut p
    → move n i p c m ≡ some (m', p')
    → m'.stop_closed ≡ true
    → all_of n m'.shut ≡ true
unfolding move
move_all_shut n i close_listeners (listener k) m m' p' before o h =
    ground (arith, before, all_of-set_at n k m.shut)
move_all_shut n i p c m m' p' before o h = ground (arith, before, o)

made_lem : (n made : ℕ) (p : Pc) → Made n made p → has_made p ≡ true → made ≡ n
made_lem n made p h k = ground (arith, h)

move-has_made :
    (n i : ℕ) (p : Pc) (c : Choice) (m m' : Server) (p' : Pc)
    → has_made p ≡ true
    → move n i p c m ≡ some (m', p')
    → has_made p' ≡ true
unfolding move
move-has_made n i p c m m' p' o h = ground arith

-- `Serve` has made the listeners, and `Close` has not ended without closing them.
record Late (n : ℕ) (s : System) : Type 0 where
  reach : Reach n init s
  made : (j : ℕ) → j ≡ 0 → has_made (s.pc j) ≡ true
  swept : (j : ℕ) → Swept n s.mem.shut (s.pc j)
  all_shut : s.mem.stop_closed ≡ true → all_of n s.mem.shut ≡ true

Late-made : {n : ℕ} {s : System} → Late n s → s.mem.made ≡ n
Late-made {n} {s} l = made_lem n s.mem.made (s.pc 0) (Reach-Made l.reach 0 refl) (l.made 0 refl)

Step-Late : {n : ℕ} {s t : System} → Step n s t → Late n s → Late n t
Step-Late {n} {s} (moves i c {m} {p} h) l = record {
  reach = later l.reach (moves i c h);
  made =
      set_at-All (λ j q. j ≡ 0 → has_made q ≡ true) i p s.pc
        (λ e. move-has_made n i (s.pc i) c s.mem m p (l.made i e) h) (λ j _. l.made j);
  swept =
      set_at-All (λ j q. Swept n m.shut q) i p s.pc
        (move-Swept n i (s.pc i) c s.mem m p (Late-made l) (l.swept i) h)
        (λ j _. move-Swept_other n i (s.pc i) (s.pc j) c s.mem m p (l.swept j) h);
  all_shut = move_all_shut n i (s.pc i) c s.mem m p l.all_shut (l.swept i) h;
}
Step-Late {n} {s} (calls_close i e) l = record {
  reach = later l.reach (calls_close i e);
  made =
      set_at-All (λ j q. j ≡ 0 → has_made q ≡ true) i close_lock s.pc
        (λ z. absurd (false≢true (sym (ap has_made e) ∙ l.made i z))) (λ j _. l.made j);
  swept = set_at-All (λ j q. Swept n s.mem.shut q) i close_lock s.pc tt (λ j _. l.swept j);
  all_shut = l.all_shut;
}
Step-Late (opens k lt) l = record {
  reach = later l.reach (opens k lt);
  made = l.made;
  swept = l.swept;
  all_shut = l.all_shut;
}
Step-Late {n} {s} (fails k e lt h) l = record {
  reach = later l.reach (fails k e lt h);
  made = l.made;
  swept = λ j. Swept-set_at n k s.mem.shut (s.pc j) (l.swept j);
  all_shut = λ stopped. all_of-set_at n k s.mem.shut (l.all_shut stopped);
}
Step-Late (gets_ready e h h') l = record {
  reach = later l.reach (gets_ready e h h');
  made = l.made;
  swept = l.swept;
  all_shut = l.all_shut;
}

Reach-Late : {n : ℕ} {s t : System} → Late n s → Reach n s t → Late n t
Reach-Late l here = l
Reach-Late l (later r st) = Step-Late st (Reach-Late l r)

running-Swept : (n : ℕ) (m : Server) (p : Pc) → At m p → m.stop_flag ≡ false → Swept n m.shut p
running-Swept n m p h k = ground (arith, h)

running-Late :
    {n : ℕ} {s : System}
    → Reach n init s
    → has_made (s.pc 0) ≡ true
    → s.mem.stop_flag ≡ false
    → Late n s
running-Late {n} {s} r made running = record {
  reach = r;
  made = λ j e. rw e made;
  swept = λ j. running-Swept n s.mem (s.pc j) ((Reach-Inv r).own j).at running;
  all_shut = λ h. absurd (false≢true (sym running ∙ (Reach-Inv r).shared.flagged h));
}

ended_stopped :
    (m : Server) (p : Pc) → At m p → (p ≡ closed) ⊎ (p ≡ serve_done none) → m.stop_closed ≡ true
ended_stopped m p h e = ground (arith, h, e)

-- Let `Serve` have made the listeners of its `n` configurations, and no `Close` have set the stop
-- flag yet. In whatever order the goroutines then go on, once some call of `Close` has returned, or
-- `Serve` has returned without an error, all `n` listeners have been closed.
pub close_closes_listeners :
    {n : ℕ} {s t : System}
    → Reach n init s
    → has_made (s.pc 0) ≡ true
    → s.mem.stop_flag ≡ false
    → Reach n s t
    → (i : ℕ) → (t.pc i ≡ closed) ⊎ (t.pc i ≡ serve_done none)
    → (k : ℕ) → k < n
    → t.mem.shut k ≡ true
close_closes_listeners {n} {s} {t} r made running follow i ended k lt =
    let l = Reach-Late (running-Late r made running) follow in
    let stopped = ended_stopped t.mem (t.pc i) ((Reach-Inv l.reach).own i).at ended in
    all_of_each n k t.mem.shut (l.all_shut stopped) lt
