-- ===== src/Tests/Trace.antt =====
-- Runs of the timers.
use terraform_aws_consul_lam.Prelude.{
  ℕ, ◌≡◌, refl, Text, text_eq, true, Option, none, some, [], ◌∷◌, text,
}
use terraform_aws_consul_lam.Prelude.Dict.{lookup}
use terraform_aws_consul_lam.Trace.{
  Trace, Part, word, elapsed, nothing, call, Calls, enter, exit, since, start, run_calls,
}
use terraform_aws_consul_lam.Trace.Nested.{run_calls-timers}

-- Loggers by number, of which 0 logs nothing
abbrev idle : Trace ℕ
idle = record { enabled = true; logger = some 1; tag = text "trace"; timers = []; printed = [] }

abbrev main_fn : Text
main_fn = text "main"

abbrev realmain_fn : Text
realmain_fn = text "realMain"

-- `main` calls `realMain`, which calls itself.
abbrev program : Calls
program =
    call main_fn 3 (call realmain_fn 4 (call realmain_fn 5 nothing 7 nothing) 9 nothing) 10 nothing

run_calls-timers_example : lookup realmain_fn (run_calls 0 program idle).timers ≡ none
unfolding terraform_aws_consul_lam.Trace.Nested.is_called text_eq text
run_calls-timers_example = run_calls-timers 0 program idle realmain_fn

-- The inner `Exit` of a recursive function logs the time since the outer `Enter`.
printed_lem :
    (run_calls 0 program idle).printed
    ≡ (
      1,
      word (text "trace") ∷ word (text " ") ∷ word realmain_fn ∷ word (text ": ") ∷ elapsed 3 ∷ [],
    )
      ∷ (
        1,
        word (text "trace") ∷ word (text " ") ∷ word main_fn ∷ word (text ": ") ∷ elapsed 7 ∷ [],
      )
      ∷ []
unfolding run_calls exit enter text_eq text terraform_aws_consul_lam.Prelude.Dict.contains
    terraform_aws_consul_lam.Prelude.Dict.insert terraform_aws_consul_lam.Prelude.Dict.erase
    terraform_aws_consul_lam.Trace.since_message
printed_lem = refl
