-- ===== src/Proxy/Conn/Ends.antt =====
-- How `CopyBytes` ends.
use terraform_aws_consul_lam.Prelude.{ℕ, ◌≡◌, true, Option, some, arith}
use terraform_aws_consul_lam.Prelude.Threads.{set_at, set_at-All}
use terraform_aws_consul_lam.Errors.{Error}
use terraform_aws_consul_lam.Proxy.Conn.{
  Conn, Caller, other, Pc, outer_copy, inner_copy, store_flag, close_src, close_dst, finished,
  new_conn, move, System, Step, moves, starts, calls_close, init, Reach, here, later,
}

-- What has been done where a goroutine stands
abbrev At : Conn → Pc → Type 0
At m (close_src c) = m.stopping ≡ true
At m (close_dst c) = (m.stopping ≡ true) × (m.src_closed ≡ true)
At m (finished c) = (m.stopping ≡ true) × (m.src_closed ≡ true) × (m.dst_closed ≡ true)
At m _ = Unit

-- The flag is set before a socket is closed.
record IsFlagged (m : Conn) : Type 0 where
  src : m.src_closed ≡ true → m.stopping ≡ true
  dst : m.dst_closed ≡ true → m.stopping ≡ true

record Inv (s : System) : Type 0 where
  flagged : IsFlagged s.mem
  at : (i : ℕ) → At s.mem (s.pc i)

move-At :
    (p : Pc) (r : Option Error) (m m' : Conn) (p' : Pc)
    → At m p
    → move p r m ≡ some (m', p')
    → At m' p'
unfolding move
move-At p r m m' p' o h = ground (arith, o)

move-At_other :
    (p q : Pc) (r : Option Error) (m m' : Conn) (p' : Pc)
    → At m q
    → move p r m ≡ some (m', p')
    → At m' q
unfolding move
move-At_other p q r m m' p' o h = ground (arith, o)

move-IsFlagged :
    (p : Pc) (r : Option Error) (m m' : Conn) (p' : Pc)
    → At m p
    → IsFlagged m
    → move p r m ≡ some (m', p')
    → IsFlagged m'
unfolding move
move-IsFlagged p r m m' p' o f h = ground (arith, o, f.src, f.dst)

Step-Inv : {s t : System} → Step s t → Inv s → Inv t
Step-Inv {s} (moves i r {m} {p} h) v = record {
  flagged = move-IsFlagged (s.pc i) r s.mem m p (v.at i) v.flagged h;
  at =
      set_at-All (λ j q. At m q) i p s.pc (move-At (s.pc i) r s.mem m p (v.at i) h)
        (λ j _. move-At_other (s.pc i) (s.pc j) r s.mem m p (v.at j) h);
}
Step-Inv {s} (starts i j e e') v = record {
  flagged = v.flagged;
  at =
      set_at-All (λ k q. At s.mem q) j inner_copy (set_at i outer_copy s.pc) tt
        (λ k _. set_at-All (λ l q. At s.mem q) i outer_copy s.pc tt (λ l _. v.at l) k);
}
Step-Inv {s} (calls_close i e) v = record {
  flagged = v.flagged;
  at = set_at-All (λ j q. At s.mem q) i (store_flag other) s.pc tt (λ j _. v.at j);
}

init-At : (i : ℕ) → At init.mem (init.pc i)
init-At i = ground arith

Reach-Inv : {s : System} → Reach init s → Inv s
unfolding new_conn
Reach-Inv here = record { flagged = record { src = λ h. h; dst = λ h. h }; at = init-At }
Reach-Inv (later r st) = Step-Inv st (Reach-Inv r)

finished_lem :
    (m : Conn) (p : Pc) (c : Caller)
    → At m p
    → p ≡ finished c
    → (m.src_closed ≡ true) × (m.dst_closed ≡ true)
finished_lem m p c h e = ground (arith, h, e)

-- Once `CopyBytes` or a call of `Close` has returned, both sockets have been closed.
finished_closed :
    {s : System}
    → Reach init s
    → (i : ℕ) (c : Caller) → s.pc i ≡ finished c
    → (s.mem.src_closed ≡ true) × (s.mem.dst_closed ≡ true)
finished_closed {s} r i c h = finished_lem s.mem (s.pc i) c ((Reach-Inv r).at i) h
