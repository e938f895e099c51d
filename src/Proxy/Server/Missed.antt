-- ===== src/Proxy/Server/Missed.antt =====
-- The listeners that no `Close` of the server closes.
use terraform_aws_consul_lam.Prelude.{
  ℕ, ◌≡◌, refl, Bool, true, some, arith, ◌⊎◌, inl, inr, eqb, Bool-cases,
}
use terraform_aws_consul_lam.Prelude.Threads.{set_at}
use terraform_aws_consul_lam.Proxy.Server.{
  Server, Pc, closed, Choice, move, System, Step, moves, calls_close, opens, fails, gets_ready,
  init, Reach, here, later,
}
use terraform_aws_consul_lam.Proxy.Server.Owners.{At, Reach-Inv}

move_stopped :
    (n i : ℕ) (p : Pc) (c : Choice) (m m' : Server) (p' : Pc)
    → At m p
    → m.stop_closed ≡ true
    → move n i p c m ≡ some (m', p')
    → (m'.stop_closed ≡ true) × (m'.shut ≡ m.shut) × (m'.served ≡ m.served)
unfolding move
move_stopped n i p c m m' p' o h e = ground (arith, o)

-- Listener `k` is as open as it was, or its own `Serve` has failed.
abbrev Untouched : (ℕ → Bool) → (ℕ → Bool) → (ℕ → Bool) → ℕ → Type 0
Untouched old shut served k = (shut k ≡ old k) ⊎ (served k ≡ true)

record Stopped (n : ℕ) (shut : ℕ → Bool) (s : System) : Type 0 where
  reach : Reach n init s
  stop_closed : s.mem.stop_closed ≡ true
  untouched : (k : ℕ) → Untouched shut s.mem.shut s.mem.served k

carry :
    (old : ℕ → Bool) (m m' : Server) (k : ℕ)
    → m'.shut ≡ m.shut
    → m'.served ≡ m.served
    → Untouched old m.shut m.served k
    → Untouched old m'.shut m'.served k
carry old m m' k e e' h = rw (e, e') h

-- What a listener does whose `Serve` fails
set_at-Untouched :
    (old shut served : ℕ → Bool) (j k : ℕ)
    → Untouched old shut served k
    → Untouched old (set_at j true shut) (set_at j true served) k
set_at-Untouched old shut served j k h = elim (Bool-cases (eqb j k)) [
  | inl own ↦ inr (rw own refl)
  | inr other ↦ rw other h
]

Step-Stopped :
    {n : ℕ} {shut : ℕ → Bool} {s t : System} → Step n s t → Stopped n shut s → Stopped n shut t
Step-Stopped {n} {shut} {s} (moves i c {m} {p} h) k =
    let (still, same, same') =
      move_stopped n i (s.pc i) c s.mem m p ((Reach-Inv k.reach).own i).at k.stop_closed h in
    record {
      reach = later k.reach (moves i c h);
      stop_closed = still;
      untouched = λ j. carry shut s.mem m j same same' (k.untouched j);
    }
Step-Stopped (calls_close i e) k = record {
  reach = later k.reach (calls_close i e);
  stop_closed = k.stop_closed;
  untouched = k.untouched;
}
Step-Stopped (opens j lt) k = record {
  reach = later k.reach (opens j lt);
  stop_closed = k.stop_closed;
  untouched = k.untouched;
}
Step-Stopped {n} {shut} {s} (fails j e lt h) k = record {
  reach = later k.reach (fails j e lt h);
  stop_closed = k.stop_closed;
  untouched = λ i. set_at-Untouched shut s.mem.shut s.mem.served j i (k.untouched i);
}
Step-Stopped (gets_ready e h h') k = record {
  reach = later k.reach (gets_ready e h h');
  stop_closed = k.stop_closed;
  untouched = k.untouched;
}

Reach-Stopped :
    {n : ℕ} {shut : ℕ → Bool} {s t : System} → Stopped n shut s → Reach n s t → Stopped n shut t
Reach-Stopped k here = k
Reach-Stopped k (later r st) = Step-Stopped st (Reach-Stopped k r)

closed_stopped : (m : Server) (p : Pc) → At m p → p ≡ closed → m.stop_closed ≡ true
closed_stopped m p h e = ground (arith, h, e)

-- Once some call of `Close` has returned, no call of it closes a listener any more: each listener,
-- also one that `Serve` makes later, stays as it is, unless its own `Serve` fails, which closes it.
pub close_misses_listeners :
    {n : ℕ} {s t : System}
    → Reach n init s
    → (i : ℕ) → s.pc i ≡ closed
    → Reach n s t
    → (k : ℕ) → (t.mem.shut k ≡ s.mem.shut k) ⊎ (t.mem.served k ≡ true)
close_misses_listeners {n} {s} r i e follow k =
    let stopped = closed_stopped s.mem (s.pc i) ((Reach-Inv r).own i).at e in
    let after =
      Reach-Stopped (record { reach = r; stop_closed = stopped; untouched = λ j. inl refl })
        follow in
    after.untouched k
