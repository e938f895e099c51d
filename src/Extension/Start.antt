-- ===== src/Extension/Start.antt =====
-- consul-lambda/consul-lambda-extension/extension.go: `Start` with the goroutines that it starts.
-- Each reports once, on a channel without a buffer, which `Start` reads once. A step is one of them
-- going on, or a report being handed over.
pub mod Silence
pub mod Polls
pub mod Success
pub mod Unclosed
use terraform_aws_consul_lam.Prelude.{
  ◌≡◌, ◌≢◌, Text, Bool, true, false, ◌||◌, Option, none, some, List, [], ◌∷◌,
}
use terraform_aws_consul_lam.Errors.{
  Error, Result, ok, err, listener_failed, proxy_timeout, event_processing_failed,
}
use terraform_aws_consul_lam.Exec.{Exec}
use terraform_aws_consul_lam.Structs.{ExtensionData}
use terraform_aws_consul_lam.Extension.{
  Extension, parse_upstreams, refresh, Signal, cancelled, tick, Outcome, stopped,
}
use terraform_aws_consul_lam.Extension.LambdaClient.{HttpApi, LambdaClient, process_events}

-- `Start`: `waiting` is the `select` of `startProxy`, `receiving` the read of the channel.
pub data StartPc : Type 0 where
  parsing waiting receiving : StartPc
  returned : Option Error → StartPc

-- The goroutine of `startProxy`, with its deferred `Close`. Its `Serve` only returns with the error
-- of a listener: nobody else calls `Close`.
pub data ServerPc : Type 0 where
  unborn serving closing closed : ServerPc
  reporting : Error → ServerPc

-- `refreshExtensionData` and `runEvents`
pub data Worker : Type 0 where
  asleep working done : Worker
  reports : Option Error → Worker

-- `ready` is that all listeners listen, and `broken` that one has failed before it did. `interrupted`
-- is that the caller has ended the context, which `Start` does too when it returns.
pub record Process : Type 0 where
  pub start : StartPc
  pub server : ServerPc
  pub refresher : Worker
  pub events : Worker
  pub ready : Bool
  pub broken : Bool
  pub interrupted : Bool
  pub ctx_done : Bool

-- `Start` has been called.
abbrev pub fresh : Process
fresh = record {
  start = parsing;
  server = unborn;
  refresher = asleep;
  events = asleep;
  ready = false;
  broken = false;
  interrupted = false;
  ctx_done = false;
}

-- The signals, or the tests of the context, say that it is done.
abbrev pub sees_cancelled : List Signal → Bool
sees_cancelled [] = false
sees_cancelled (cancelled ∷ _) = true
sees_cancelled (tick ∷ signals) = sees_cancelled signals

abbrev pub sees_done : List Bool → Bool
sees_done [] = false
sees_done (b ∷ turns) = b || sees_done turns

-- What `runEvents` makes of the result of `ProcessEvents`
abbrev pub events_report : Option Error → Option Error
events_report none = none
events_report (some e) = some (event_processing_failed e)

-- What ends the `select` of `startProxy`
pub data Waited : Type 0 where
  context_ended got_ready timed_out : Waited

-- What `startProxy` returns then
unfoldable pub start_proxy : Waited → Option Error
start_proxy context_ended = none
start_proxy got_ready = none
start_proxy timed_out = some proxy_timeout

abbrev return : Option Error → Process → Process
return r p = record p { start = returned r; ctx_done = true }

abbrev go_on : Process → Process
go_on p = record p { start = receiving; refresher = working; events = working }

-- Which channels of the `select` can be read
abbrev has_come : Process → Waited → Bool
has_come p context_ended = p.ctx_done
has_come p got_ready = p.ready
has_come p timed_out = true

-- `Start` starts the other goroutines where `startProxy` returns no error.
abbrev after_start_proxy : Option Error → Process → Process
after_start_proxy none p = go_on p
after_start_proxy (some e) p = return (some e) p

module _ {S : Type 0} (store_get : Text → Exec S Text) (unmarshal : Text → Result ExtensionData)
    (api : HttpApi) (client : LambdaClient) (ext : Extension) where
  pub data Step (p : Process) : Process → Type 0 where
    parse_fails :
        (e : Error) → p.start ≡ parsing → parse_upstreams ext ≡ err e → Step p (return (some e) p)
    parses :
        (parsed : Extension)
        → p.start ≡ parsing
        → parse_upstreams ext ≡ ok parsed
        → Step p (record p { start = waiting; server = serving })
    interrupts : Step p (record p { interrupted = true; ctx_done = true })
    -- The last listener opens.
    opens : p.server ≢ unborn → p.broken ≡ false → Step p (record p { ready = true })
    -- A listener fails, before it has been opened or later.
    server_fails :
        (e : Error) (before : Bool)
        → p.server ≡ serving
        → (before ≡ true → p.ready ≡ false)
        → Step p (record p { server = reporting (listener_failed e); broken = before })
    -- `startProxy` returns.
    select_ends :
        (w : Waited)
        → p.start ≡ waiting
        → has_come p w ≡ true
        → Step p (after_start_proxy (start_proxy w) p)
    refresher_ends :
        (parsed : Extension) (signals : List Signal) (s : S) (r : Option Error)
        → p.refresher ≡ working
        → parse_upstreams ext ≡ ok parsed
        → (refresh store_get unmarshal signals parsed s).0.0 ≡ stopped r
        → (sees_cancelled signals ≡ true → p.ctx_done ≡ true)
        → Step p (record p { refresher = reports r })
    events_end :
        (turns : List Bool) (s : api.State) (r : Option Error)
        → p.events ≡ working
        → (process_events api client turns s).0 ≡ stopped r
        → (sees_done turns ≡ true → p.ctx_done ≡ true)
        → Step p (record p { events = reports (events_report r) })
    -- A report is handed over, and `Start` returns it.
    server_reports :
        (e : Error)
        → p.start ≡ receiving
        → p.server ≡ reporting e
        → Step p (return (some e) (record p { server = closing }))
    refresher_reports :
        (r : Option Error)
        → p.start ≡ receiving
        → p.refresher ≡ reports r
        → Step p (return r (record p { refresher = done }))
    events_report_ends :
        (r : Option Error)
        → p.start ≡ receiving
        → p.events ≡ reports r
        → Step p (return r (record p { events = done }))
    -- The deferred `Close` of the server
    closes : p.server ≡ closing → Step p (record p { server = closed })

  pub data Reach (p : Process) : Process → Type 0 where
    here : Reach p p
    later : {q r : Process} → Reach p q → Step q r → Reach p r
