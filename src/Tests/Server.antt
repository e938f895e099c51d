-- ===== src/Tests/Server.antt =====
-- Runs of the proxy's server: `Close` after and before `Serve` has made its listener.
use terraform_aws_consul_lam.Prelude.{◌≡◌, refl, inl, ◌⊎◌, true, false, none, arith}
use terraform_aws_consul_lam.Proxy.Server.{
  serve_done, listener, stop, new_server, all_of, move, System, moves, calls_close, init, Reach,
  here, later,
}
use terraform_aws_consul_lam.Proxy.Server.Closing.{close_closes_listeners}
use terraform_aws_consul_lam.Proxy.Server.Missed.{close_misses_listeners}

-- A state of a server for one upstream with the run that leads to it
record Run (from : System) : Type 0 where
  last : System
  reach : Reach 1 from last

-- `Serve` has made its listener.
abbrev serving : Run init
unfolding move new_server
serving = record {
  last = _;
  reach =
      later
        (later
          (later (later (later here (moves 0 stop refl)) (moves 0 stop refl)) (moves 0 stop refl))
          (moves 0 stop refl))
        (moves 0 stop refl);
}

-- Goroutine 1 calls `Close`.
abbrev closing : Run serving.last
unfolding move new_server serving all_of
closing = record {
  last = _;
  reach =
      later
        (later
          (later
            (later
              (later (later (later here (calls_close 1 refl)) (moves 1 stop refl))
                (moves 1 stop refl))
              (moves 1 (listener 0) refl))
            (moves 1 stop refl))
          (moves 1 stop refl))
        (moves 1 stop refl);
}

close_closes_listeners_example : closing.last.mem.shut 0 ≡ true
unfolding serving closing
close_closes_listeners_example =
    close_closes_listeners serving.reach refl refl closing.reach 1 (inl refl) 0 (omega arith)

-- `Close` runs to its end after `Serve` has tested the flag.
abbrev early : Run init
unfolding move new_server all_of
early = record {
  last = _;
  reach =
      later
        (later
          (later
            (later
              (later (later (later here (moves 0 stop refl)) (calls_close 1 refl))
                (moves 1 stop refl))
              (moves 1 stop refl))
            (moves 1 stop refl))
          (moves 1 stop refl))
        (moves 1 stop refl);
}

-- `Serve` makes its listener, and returns since `stopChan` is closed.
abbrev left_open : Run early.last
unfolding move new_server early all_of
left_open = record {
  last = _;
  reach =
      later
        (later
          (later (later (later here (moves 0 stop refl)) (moves 0 stop refl)) (moves 0 stop refl))
          (moves 0 stop refl))
        (moves 0 stop refl);
}

left_open_done :
    (left_open.last.pc 0 ≡ serve_done none)
    × (left_open.last.mem.made ≡ 1)
    × (left_open.last.mem.shut 0 ≡ false)
    × (left_open.last.mem.served 0 ≡ false)
unfolding left_open early new_server
left_open_done = (refl, refl, refl, refl)

close_misses_listeners_example :
    (left_open.last.mem.shut 0 ≡ early.last.mem.shut 0) ⊎ (left_open.last.mem.served 0 ≡ true)
unfolding early
close_misses_listeners_example = close_misses_listeners early.reach 1 refl left_open.reach 0
