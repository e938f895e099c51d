-- ===== src/Tests/Proxy.antt =====
-- Runs of a listener: `Close` while a dial fails, and `Close` before the socket has been set.
use terraform_aws_consul_lam.Prelude.{true, ℕ, ◌<◌, ◌+◌, ◌≤◌, ◌≡◌, refl, ◌⊎◌, false, [], arith}
use terraform_aws_consul_lam.Errors.{Error, dial_failed, external}
use terraform_aws_consul_lam.Proxy.Listener.{
  handler, send_lock, close_wait, succeeds, fails, move, listening, System, Step, moves,
  calls_close, spawns, init, new_listener, misuses, is_awaited, Reach, here, later,
}
use terraform_aws_consul_lam.Proxy.Listener.Safety.{no_panic}
use terraform_aws_consul_lam.Proxy.Listener.Global.{active}
use terraform_aws_consul_lam.Proxy.Listener.Deadlock.{close_wait_forever}
use terraform_aws_consul_lam.Proxy.Listener.Contract.{view, Contract, Runs, Step-Contract}
use terraform_aws_consul_lam.Proxy.Listener.Misuse.{misused-Closed}
use terraform_aws_consul_lam.Proxy.Listener.Leak.{socket_stays_open}
use terraform_aws_consul_lam.Proxy.Listener.Termination.{left, steps_of, steps_bounded}
use terraform_aws_consul_lam.Proxy.Listener.Progress.{close_wait_progress, CanMove}

-- A state of three goroutines with the run that leads to it
record Run : Type 0 where
  last : System
  reach : Reach 3 init last

-- `Serve` accepts one connection, which goroutine 1 handles.
abbrev accepted : Run
unfolding move new_listener
accepted = record {
  last = _;
  reach =
      later
        (later
          (later
            (later
              (later (later here (moves 0 succeeds (omega arith) refl))
                (moves 0 succeeds (omega arith) refl))
              (moves 0 succeeds (omega arith) refl))
            (moves 0 succeeds (omega arith) refl))
          (moves 0 succeeds (omega arith) refl))
        (spawns 0 1 (omega arith) (omega arith) refl refl);
}

abbrev dial_error : Error
dial_error = dial_failed (external [])

-- Goroutine 2 calls `Close`, which waits for the handler. Its dial fails, and it wants the lock.
abbrev stuck : Run
unfolding move new_listener
stuck = record {
  last = _;
  reach =
      later
        (later
          (later
            (later
              (later
                (later (later accepted.reach (calls_close 2 (omega arith) refl))
                  (moves 2 succeeds (omega arith) refl))
                (moves 2 succeeds (omega arith) refl))
              (moves 2 succeeds (omega arith) refl))
            (moves 2 succeeds (omega arith) refl))
          (moves 2 succeeds (omega arith) refl))
        (moves 1 (fails (external [])) (omega arith) refl);
}

close_wait_forever_example :
    (stuck.last.pc 1 ≡ send_lock handler dial_error) × (stuck.last.pc 2 ≡ close_wait)
unfolding stuck
close_wait_forever_example =
    close_wait_forever stuck.reach 1 2 dial_error (omega arith) refl refl here

-- `Close` returns while `Serve` is opening its socket.
abbrev leaked : Run
unfolding move new_listener
leaked = record {
  last = _;
  reach =
      later
        (later
          (later
            (later
              (later
                (later
                  (later
                    (later
                      (later
                        (later (later here (moves 0 succeeds (omega arith) refl))
                          (moves 0 succeeds (omega arith) refl))
                        (calls_close 1 (omega arith) refl))
                      (moves 1 succeeds (omega arith) refl))
                    (moves 1 succeeds (omega arith) refl))
                  (moves 1 succeeds (omega arith) refl))
                (moves 1 succeeds (omega arith) refl))
              (moves 1 succeeds (omega arith) refl))
            (moves 1 succeeds (omega arith) refl))
          (moves 1 succeeds (omega arith) refl))
        (moves 0 succeeds (omega arith) refl);
}

socket_stays_open_example : leaked.last.mem.socket ≡ listening
unfolding leaked
socket_stays_open_example = socket_stays_open leaked.reach 1 refl refl here

no_panic_example : leaked.last.mem.panicked ≡ false
unfolding leaked
no_panic_example = no_panic leaked.reach

-- `Close` waits, and the handler has to report its error.
close_wait_progress_example :
    CanMove 2 (stuck.last.pc 2) stuck.last.mem
    ⊎ ((i : ℕ) × (i < 3)
        × (active (stuck.last.pc i) ≡ 1)
        × (((e : Error) × (stuck.last.pc i ≡ send_lock handler e))
            ⊎ CanMove i (stuck.last.pc i) stuck.last.mem))
unfolding stuck
close_wait_progress_example = close_wait_progress stuck.reach 2 refl

-- The handler of the stuck run
steps_bounded_example : steps_of 3 1 stuck.reach + left (stuck.last.pc 1) ≤ 8
steps_bounded_example = steps_bounded stuck.reach 1 (omega arith)

-- Goroutine 2 has called `Close` and is about to set the flag.
abbrev closing : Run
unfolding move new_listener
closing = record {
  last = _;
  reach =
      later (later accepted.reach (calls_close 2 (omega arith) refl))
        (moves 2 succeeds (omega arith) refl);
}

abbrev flagged : Run
unfolding move new_listener
flagged = record { last = _; reach = later closing.reach (moves 2 succeeds (omega arith) refl) }

sets_flag : Step 3 closing.last flagged.last
unfolding move new_listener closing flagged
sets_flag = moves 2 succeeds (omega arith) refl

Step-Contract_example :
    Runs (view closing.last.mem)
    × ((view flagged.last.mem ≡ view closing.last.mem)
        ⊎ Contract (view closing.last.mem) (view flagged.last.mem))
Step-Contract_example = Step-Contract closing.reach sets_flag

-- `Serve` has accepted a connection, and adds it to the wait group where `Close` waits for it.
abbrev late : Run
unfolding move new_listener
late = record {
  last = _;
  reach =
      later
        (later
          (later
            (later
              (later
                (later
                  (later
                    (later
                      (later
                        (later
                          (later (later here (moves 0 succeeds (omega arith) refl))
                            (moves 0 succeeds (omega arith) refl))
                          (moves 0 succeeds (omega arith) refl))
                        (moves 0 succeeds (omega arith) refl))
                      (moves 0 succeeds (omega arith) refl))
                    (calls_close 2 (omega arith) refl))
                  (moves 2 succeeds (omega arith) refl))
                (moves 2 succeeds (omega arith) refl))
              (moves 2 succeeds (omega arith) refl))
            (moves 2 succeeds (omega arith) refl))
          (moves 2 succeeds (omega arith) refl))
        (spawns 0 1 (omega arith) (omega arith) refl refl);
}

misused-Closed_example :
    (late.last.mem.stop_flag ≡ true)
    × (late.last.mem.stop_closed ≡ true)
    × (late.last.mem.err_closed ≡ true)
unfolding late misuses is_awaited new_listener
misused-Closed_example = misused-Closed late.reach refl
