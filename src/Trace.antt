-- ===== src/Trace.antt =====
-- consul-lambda/trace/trace.go: the timers of the functions that have been entered, under the mutex
-- that makes each operation one step. The caller's name, empty where the runtime does not know it,
-- and the time are arguments.
pub mod Nested
pub mod Log
use terraform_aws_consul_lam.Prelude.{
  ℕ, ◌-◌, Text, text, text_eq, ◌==◌, Bool, true, false, not, ◌&&◌, ◌||◌, Option, none, some, List,
  [], ◌∷◌, ◌++◌, if◌then◌else◌,
}
use terraform_aws_consul_lam.Prelude.Dict.{Dict, lookup, insert, erase, contains}

-- What `Print` is called with: texts and times
pub data Part : Type 0 where
  word : Text → Part
  elapsed : ℕ → Part

-- `Timer`, for a type of loggers
pub record Timer (L : Type 0) : Type 0 where
  pub tag : Text
  pub log : Option L
  pub name : Text
  pub t0 : ℕ

-- The variables of the package, and what has been printed on which logger
pub record Trace (L : Type 0) : Type 0 where
  pub enabled : Bool
  pub logger : Option L
  pub tag : Text
  pub timers : Dict Text (Timer L)
  pub printed : List (L × List Part)

module _ {L : Type 0} where
  -- `Enabled`, which purges the timers where the setting changes
  unfoldable pub set_enabled : Bool → Trace L → Trace L
  set_enabled true t = if t.enabled then t else record t { enabled = true; timers = [] }
  set_enabled false t = if t.enabled then record t { enabled = false; timers = [] } else t

  -- `SetLogger`
  unfoldable pub set_logger : Option L → Trace L → Trace L
  set_logger l t = record t { logger = l }

  -- `SetTag`
  unfoldable pub set_tag : Text → Trace L → Trace L
  set_tag s t = record t { tag = s }

  -- `Start`
  unfoldable pub start : Text → ℕ → Trace L → Timer L
  start fname now t = record { tag = t.tag; log = t.logger; name = fname; t0 = now }

  -- `Enter`
  unfoldable pub enter : Text → ℕ → Trace L → Trace L
  unfolding start
  enter fname now t =
      if not t.enabled || fname == [] || contains fname t.timers
      then t
      else record t { timers = insert fname (start fname now t) t.timers }

-- The arguments of `Since` stand behind the time.
with_args : List Part → List Part → List Part
with_args msg [] = msg
with_args msg (a ∷ args) = msg ++ (word (text " ") ∷ a ∷ args)

-- The message of `Since`, whose tag is the package's
unfoldable pub since_message : Text → Text → ℕ → List Part → List Part
unfolding with_args
since_message [] name time args = with_args (word name ∷ word (text ": ") ∷ elapsed time ∷ []) args
since_message (c ∷ tag) name time args =
    with_args (word (c ∷ tag) ∷ word (text " ") ∷ word name ∷ word (text ": ") ∷ elapsed time ∷ [])
      args

-- `null_logger` is what `NewHCLog` makes of no logger.
module _ {L : Type 0} (null_logger : L) where
  -- The variables at the start of the program
  unfoldable pub new_trace : Trace L
  new_trace = record {
    enabled = false;
    logger = some null_logger;
    tag = text "trace";
    timers = [];
    printed = [];
  }

  or_null : Option L → L
  or_null none = null_logger
  or_null (some l) = l

  -- `Since`
  unfoldable pub since : Timer L → ℕ → List Part → Trace L → Trace L
  unfolding or_null
  since timer now args t = record t {
    printed =
        t.printed
        ++ ((or_null timer.log, since_message t.tag timer.name (now - timer.t0) args) ∷ []);
  }

  stop_timer : Text → ℕ → Option (Timer L) → Trace L → Trace L
  unfolding since
  stop_timer fname now none t = t
  stop_timer fname now (some timer) t = record (since timer now [] t) {
    timers = erase fname t.timers;
  }

  -- `Exit`
  unfoldable pub exit : Text → ℕ → Trace L → Trace L
  unfolding stop_timer
  exit fname now t =
      if not t.enabled || fname == [] then t else stop_timer fname now (lookup fname t.timers) t

-- Calls of traced functions, one after the other: each with the time it starts, the calls that it
-- makes, and the time its deferred `Exit` runs
pub data Calls : Type 0 where
  nothing : Calls
  call : Text → ℕ → Calls → ℕ → Calls → Calls

module _ {L : Type 0} (null_logger : L) where
  unfoldable pub run_calls : Calls → Trace L → Trace L
  run_calls nothing t = t
  run_calls (call f from inner until next) t =
      run_calls next (exit null_logger f until (run_calls inner (enter f from t)))
