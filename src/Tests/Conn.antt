-- ===== src/Tests/Conn.antt =====
-- A connection whose source ends first.
use terraform_aws_consul_lam.Prelude.{refl, Option, none, some, []}
use terraform_aws_consul_lam.Errors.{Error, external}
use terraform_aws_consul_lam.Proxy.Conn.{
  new_conn, move, System, moves, starts, init, Reach, here, later,
}

record Run : Type 0 where
  last : System
  reach : Reach init last

abbrev use_of_closed : Error
use_of_closed = external []

abbrev no_error : Option Error
no_error = none

-- The other direction has closed both sockets when the copy of `CopyBytes` fails.
abbrev cut_off : Run
unfolding move new_conn
cut_off = record {
  last = _;
  reach =
      later
        (later
          (later
            (later (later (later here (starts 0 1 refl refl)) (moves 1 none refl))
              (moves 1 none refl))
            (moves 1 none refl))
          (moves 1 none refl))
        (moves 0 (some use_of_closed) refl);
}
