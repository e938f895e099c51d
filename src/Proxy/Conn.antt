-- ===== src/Proxy/Conn.antt =====
-- proxy/conn.go: one proxied connection, with the goroutine of `CopyBytes`, the one that it starts,
-- and any number of calls of `Close`. A step is a store or load of the flag, the closing of one of
-- the two sockets, or the end of an `io.Copy`, whose result is the network's.
pub mod Ends
use terraform_aws_consul_lam.Prelude.{ℕ, ◌≡◌, Bool, true, false, Option, none, some, if◌then◌else◌}
use terraform_aws_consul_lam.Prelude.Threads.{set_at}
use terraform_aws_consul_lam.Errors.{Error}

-- `Conn`, and whether `Close` has closed its sockets
pub record Conn : Type 0 where
  pub stopping : Bool
  pub src_closed : Bool
  pub dst_closed : Bool

-- What `CopyBytes` is about to return, or nothing for the goroutine that it starts and for others
pub data Caller : Type 0 where
  copy_bytes : Option Error → Caller
  other : Caller

-- What a goroutine does next
pub data Pc : Type 0 where
  unborn start_copy outer_copy inner_copy : Pc
  -- `CopyBytes` has to load the flag.
  load_flag : Option Error → Pc
  -- `Close`
  store_flag close_src close_dst : Caller → Pc
  finished : Caller → Pc

-- `NewConn`
unfoldable pub new_conn : Conn
new_conn = record { stopping = false; src_closed = false; dst_closed = false }

-- One step of a goroutine, where `r` is what its `io.Copy` returns
unfoldable pub move : Pc → Option Error → Conn → Option (Conn × Pc)
move unborn r m = none
move start_copy r m = none
move outer_copy r m = some (m, load_flag r)
move inner_copy r m = some (m, store_flag other)
move (load_flag r) _ m =
    some (m, if m.stopping then store_flag (copy_bytes none) else store_flag (copy_bytes r))
move (store_flag c) r m = some (record m { stopping = true }, close_src c)
move (close_src c) r m = some (record m { src_closed = true }, close_dst c)
move (close_dst c) r m = some (record m { dst_closed = true }, finished c)
move (finished c) r m = none

pub record System : Type 0 where
  pub mem : Conn
  pub pc : ℕ → Pc

pub data Step (s : System) : System → Type 0 where
  moves :
      (i : ℕ) (r : Option Error) {m : Conn} {p : Pc}
      → move (s.pc i) r s.mem ≡ some (m, p)
      → Step s (record { mem = m; pc = set_at i p s.pc })
  -- `CopyBytes` starts the other direction.
  starts :
      (i j : ℕ)
      → s.pc i ≡ start_copy
      → s.pc j ≡ unborn
      → Step s (record { mem = s.mem; pc = set_at j inner_copy (set_at i outer_copy s.pc) })
  calls_close :
      (i : ℕ)
      → s.pc i ≡ unborn
      → Step s (record { mem = s.mem; pc = set_at i (store_flag other) s.pc })

-- Goroutine 0 has called `CopyBytes`.
abbrev pub init : System
init = record { mem = new_conn; pc = set_at 0 start_copy (λ _. unborn) }

pub data Reach (s : System) : System → Type 0 where
  here : Reach s s
  later : {t u : System} → Reach s t → Step t u → Reach s u
