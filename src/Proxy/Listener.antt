-- ===== src/Proxy/Listener.antt =====
-- proxy/listener.go: a listener with the goroutines that share it. The goroutines are numbered, and
-- a step is one atomic operation of one of them: taking or giving back a mutex, an operation on a
-- flag or a channel, a call of the network. A send on a closed channel, closing a channel twice and
-- a negative counter of a wait group are panics in Go, and are recorded; an `Add` that meets a `Wait`
-- at a zero counter, where Go panics under some schedules, is recorded on its own.
pub mod Invariant
pub mod Global
pub mod Reachable
pub mod Safety
pub mod Stuck
pub mod Deadlock
pub mod Leak
pub mod Progress
pub mod Misuse
pub mod Termination
pub mod Front
pub mod Contract
use terraform_aws_consul_lam.Prelude.{
  ℕ, ◌+◌, ◌-◌, ◌<◌, ◌≡◌, Bool, true, false, ◌||◌, ◌&&◌, Option, none, some, List, [], ◌∷◌, ◌++◌,
  length, ltb, eqb, if◌then◌else◌,
}
use terraform_aws_consul_lam.Prelude.Threads.{set_at}
use terraform_aws_consul_lam.Errors.{Error, closed_listener, dial_failed, connection_failed}

abbrev pub err_buf_size : ℕ
err_buf_size = 5

-- The field `listener`: nil, or a socket that is open or closed
pub data Socket : Type 0 where
  unset listening shut : Socket

-- `Listener`: the flags of its channels say that they are closed, `lock` is `stopLock` with the
-- goroutine that holds it, and `serve_result` is what `Serve` is about to return. `misused` records
-- that `connWG` has been taken up from zero while a `Close` was in its `Wait`, where Go may panic.
pub record Listener : Type 0 where
  pub stop_flag : Bool
  pub stop_closed : Bool
  pub err_closed : Bool
  pub errors : List Error
  pub listening_closed : Bool
  pub lock : Option ℕ
  pub socket : Socket
  pub conn_wg : ℕ
  pub serve_result : Option (Option Error)
  pub panicked : Bool
  pub misused : Bool

-- Who calls `sendError`: `handleConn`, or the goroutine that it starts
pub data Sender : Type 0 where
  handler copier : Sender

-- What a goroutine does next
pub data Pc : Type 0 where
  -- It has not been started, or it has returned: from `Close` or from anything else.
  unborn closed finished : Pc
  -- `Serve`
  serve_check serve_listen serve_set serve_open serve_accept serve_spawn : Pc
  serve_failed : Error → Pc
  -- `handleConn`; `waiting c` is its last loop, where `c` copies the bytes.
  dialing finishing : Pc
  waiting : ℕ → Pc
  -- the goroutine that copies the bytes
  copying stopping : Pc
  -- `sendError`
  send_lock send_test send_try : Sender → Error → Pc
  send_unlock : Sender → Pc
  -- `Close`
  close_lock close_swap close_socket close_stop close_errors close_wait close_unlock : Pc

-- What a call of the network or of `CopyBytes` comes to
pub data Answer : Type 0 where
  succeeds : Answer
  fails : Error → Answer

-- `NewListener`
unfoldable pub new_listener : Listener
new_listener = record {
  stop_flag = false;
  stop_closed = false;
  err_closed = false;
  errors = [];
  listening_closed = false;
  lock = none;
  socket = unset;
  conn_wg = 0;
  serve_result = none;
  panicked = false;
  misused = false;
}

abbrev is_listening : Socket → Bool
is_listening listening = true
is_listening _ = false

abbrev close_if_set : Socket → Socket
close_if_set unset = unset
close_if_set _ = shut

-- `Lock` waits while the mutex is held.
acquire : ℕ → Option ℕ → Listener → Pc → Option (Listener × Pc)
acquire i none m p = some (record m { lock = some i }, p)
acquire i (some _) m p = none

-- Where `sendError` returns to
after_send : Sender → Pc
after_send handler = finishing
after_send copier = stopping

-- The `select` of `sendError`, which drops the error where the buffer is full
push_error : Error → Listener → Listener
push_error e m = record m {
  errors = if ltb (length m.errors) err_buf_size then m.errors ++ (e ∷ []) else m.errors;
  panicked = m.panicked || m.err_closed;
}

-- One step of goroutine `i` that concerns no other goroutine; none where it has to wait.
unfoldable pub move : ℕ → Pc → Answer → Listener → Option (Listener × Pc)
unfolding acquire after_send push_error
move i unborn a m = none
move i closed a m = none
move i finished a m = none
move i serve_check a m =
    if m.stop_flag
    then some (record m { serve_result = some (some closed_listener) }, close_lock)
    else some (m, serve_listen)
move i serve_listen succeeds m = some (m, serve_set)
move i serve_listen (fails e) m = some (record m { serve_result = some (some e) }, close_lock)
move i serve_set a m = some (record m { socket = listening }, serve_open)
move i serve_open a m = some (
  record m { listening_closed = true; panicked = m.panicked || m.listening_closed },
  serve_accept,
)
move i serve_accept succeeds m = if is_listening m.socket then some (m, serve_spawn) else none
move i serve_accept (fails e) m = some (m, serve_failed e)
move i serve_spawn a m = none
move i (serve_failed e) a m =
    some (record m { serve_result = some (if m.stop_flag then none else some e) }, close_lock)
move i dialing succeeds m = none
move i dialing (fails e) m = some (m, send_lock handler (dial_failed e))
move i (waiting c) a m = if m.stop_closed then some (m, finishing) else none
move i finishing a m =
    some (record m { conn_wg = m.conn_wg - 1; panicked = m.panicked || eqb m.conn_wg 0 }, finished)
move i copying succeeds m = some (m, stopping)
move i copying (fails e) m = some (m, send_lock copier (connection_failed e))
move i stopping a m = some (m, finished)
move i (send_lock w e) a m = acquire i m.lock m (send_test w e)
move i (send_test w e) a m = if m.stop_flag then some (m, send_unlock w) else some (m, send_try w e)
move i (send_try w e) a m = some (push_error e m, send_unlock w)
move i (send_unlock w) a m = some (record m { lock = none }, after_send w)
move i close_lock a m = acquire i m.lock m close_swap
move i close_swap a m =
    if m.stop_flag
    then some (m, close_unlock)
    else some (record m { stop_flag = true }, close_socket)
move i close_socket a m = some (record m { socket = close_if_set m.socket }, close_stop)
move i close_stop a m =
    some (record m { stop_closed = true; panicked = m.panicked || m.stop_closed }, close_errors)
move i close_errors a m =
    some (record m { err_closed = true; panicked = m.panicked || m.err_closed }, close_wait)
move i close_wait a m = if eqb m.conn_wg 0 then some (m, close_unlock) else none
move i close_unlock a m = some (record m { lock = none }, closed)

pub record System : Type 0 where
  pub mem : Listener
  pub pc : ℕ → Pc

-- A step of a system of `n` goroutines
abbrev pub is_waiting : Pc → Bool
is_waiting close_wait = true
is_waiting _ = false

-- The goroutine that holds `stopLock` is in `Wait`.
unfoldable pub is_awaited : System → Bool
is_awaited s = elim s.mem.lock [ none ↦ false | some j ↦ is_waiting (s.pc j) ]

-- Whether `connWG` has been misused once it is taken up
unfoldable pub misuses : System → Bool
unfolding is_awaited
misuses s = s.mem.misused || (eqb s.mem.conn_wg 0 && is_awaited s)

pub data Step (n : ℕ) (s : System) : System → Type 0 where
  moves :
      (i : ℕ) (a : Answer) {m : Listener} {p : Pc}
      → i < n
      → move i (s.pc i) a s.mem ≡ some (m, p)
      → Step n s (record { mem = m; pc = set_at i p s.pc })
  -- Somebody calls `Close`, any number of times.
  calls_close :
      (i : ℕ)
      → i < n
      → s.pc i ≡ unborn
      → Step n s (record { mem = s.mem; pc = set_at i close_lock s.pc })
  -- `connWG.Add(1)` and `go l.handleConn(conn)`
  spawns :
      (i j : ℕ)
      → i < n
      → j < n
      → s.pc i ≡ serve_spawn
      → s.pc j ≡ unborn
      → Step n s (record {
        mem = record s.mem { conn_wg = s.mem.conn_wg + 1; misused = misuses s };
        pc = set_at j dialing (set_at i serve_accept s.pc);
      })
  -- The dial succeeds, and `j` is started to copy the bytes.
  connects :
      (i j : ℕ)
      → i < n
      → j < n
      → s.pc i ≡ dialing
      → s.pc j ≡ unborn
      → Step n s (record { mem = s.mem; pc = set_at j copying (set_at i (waiting j) s.pc) })
  -- `handleConn` finds `connStop` closed: its copier has finished.
  joins :
      (i c : ℕ)
      → i < n
      → s.pc i ≡ waiting c
      → s.pc c ≡ finished
      → Step n s (record { mem = s.mem; pc = set_at i finishing s.pc })
  -- A receiver takes an error from `Errors()`.
  receives :
      (e : Error) (es : List Error)
      → s.mem.errors ≡ e ∷ es
      → Step n s (record { mem = record s.mem { errors = es }; pc = s.pc })

-- Goroutine 0 has called `Serve`, and no other has been started.
abbrev pub init : System
init = record { mem = new_listener; pc = set_at 0 serve_check (λ _. unborn) }

pub data Reach (n : ℕ) (s : System) : System → Type 0 where
  here : Reach n s s
  later : {t u : System} → Reach n s t → Step n t u → Reach n s u
