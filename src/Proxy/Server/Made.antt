-- ===== src/Proxy/Server/Made.antt =====
-- How many listeners `Serve` has made.
use terraform_aws_consul_lam.Prelude.{
  ℕ, ◌≤◌, ◌≡◌, ◌≢◌, sym, ap, ◌∙◌, subst, false, not, ◌&&◌, some, arith,
}
use terraform_aws_consul_lam.Prelude.Threads.{set_at-All}
use terraform_aws_consul_lam.Proxy.Server.{
  Server, Pc, serve_make, serve_unlock, serve_select, serve_done, close_lock, Choice, move,
  has_made, System, moves, calls_close, opens, fails, gets_ready, init, Reach, here, later,
}
use terraform_aws_consul_lam.Proxy.Server.Owners.{Own, is_serve, Inv, Reach-Inv}

-- How many listeners there are where goroutine 0 stands
abbrev pub Made : ℕ → ℕ → Pc → Type 0
Made n made serve_make = made ≤ n
Made n made serve_unlock = made ≡ n
Made n made serve_select = made ≡ n
Made n made (serve_done _) = made ≡ n
Made n made _ = Unit

move-Made :
    (n i : ℕ) (p : Pc) (c : Choice) (m m' : Server) (p' : Pc)
    → Made n m.made p
    → move n i p c m ≡ some (m', p')
    → Made n m'.made p'
unfolding move
move-Made n i p c m m' p' o h = ground (arith, o)

-- Only `Serve` makes listeners.
move_made :
    (n i : ℕ) (p : Pc) (c : Choice) (m m' : Server) (p' : Pc)
    → (is_serve p && not (has_made p)) ≡ false
    → move n i p c m ≡ some (m', p')
    → m'.made ≡ m.made
unfolding move
move_made n i p c m m' p' o h = ground arith

not_serving : (i : ℕ) (m : Server) (p : Pc) → Own i m p → i ≢ 0 → is_serve p ≡ false
not_serving i m p o ne = ground (arith, o.serves)

-- A step of another goroutine leaves the listeners of goroutine 0 as they are.
other-Made :
    (n i : ℕ) (s : System) (c : Choice) (m : Server) (p : Pc)
    → Inv s
    → i ≢ 0
    → move n i (s.pc i) c s.mem ≡ some (m, p)
    → m.made ≡ s.mem.made
other-Made n i s c m p v ne h =
    move_made n i (s.pc i) c s.mem m p
      (ap (λ b. b && not (has_made (s.pc i))) (not_serving i s.mem (s.pc i) (v.own i) ne)) h

pub Reach-Made :
    {n : ℕ} {s : System} → Reach n init s → (j : ℕ) → j ≡ 0 → Made n s.mem.made (s.pc j)
Reach-Made here = λ j e. rw e tt
Reach-Made {n} (later {t = t} r (moves i c {m} {p} h)) =
    set_at-All (λ j q. j ≡ 0 → Made n m.made q) i p t.pc
      (λ e. move-Made n i (t.pc i) c t.mem m p (Reach-Made r i e) h)
      (λ j ne e.
        subst (λ k. Made n k (t.pc j))
          (sym (other-Made n i t c m p (Reach-Inv r) (λ z. ne (z ∙ sym e)) h)) (Reach-Made r j e))
Reach-Made {n} (later {t = t} r (calls_close i e)) =
    set_at-All (λ j q. j ≡ 0 → Made n t.mem.made q) i close_lock t.pc (λ _. tt)
      (λ j _. Reach-Made r j)
Reach-Made (later r (opens k lt)) = Reach-Made r
Reach-Made (later r (fails k e lt h)) = Reach-Made r
Reach-Made (later r (gets_ready e h h')) = Reach-Made r
