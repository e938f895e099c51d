-- ===== src/Extension/Start/Silence.antt =====
-- A listener that fails while `startProxy` waits.
use terraform_aws_consul_lam.Prelude.{◌≡◌, ◌≢◌, ◌⊎◌, inl, inr, Text, true, false, some, arith}
use terraform_aws_consul_lam.Errors.{Error, Result, proxy_timeout}
use terraform_aws_consul_lam.Exec.{Exec}
use terraform_aws_consul_lam.Structs.{ExtensionData}
use terraform_aws_consul_lam.Extension.{Extension}
use terraform_aws_consul_lam.Extension.LambdaClient.{HttpApi, LambdaClient}
use terraform_aws_consul_lam.Extension.Start.{
  parsing, waiting, returned, serving, reporting, Process, Step, parse_fails, parses, interrupts,
  opens, server_fails, select_ends, context_ended, got_ready, timed_out, start_proxy,
  refresher_ends, events_end, server_reports, refresher_reports, events_report_ends, closes, Reach,
  here, later,
}

-- The error of the listener is not received, and `startProxy` waits for a proxy that cannot get ready.
record Silent (e : Error) (p : Process) : Type 0 where
  broken : p.broken ≡ true
  unready : p.ready ≡ false
  started : p.start ≢ parsing
  failed : p.server ≢ serving
  unheard : p.interrupted ≡ false → p.server ≡ reporting e
  waits :
      p.interrupted ≡ false
      → ((p.start ≡ waiting) × (p.ctx_done ≡ false)) ⊎ (p.start ≡ returned (some proxy_timeout))

module _ {S : Type 0} (store_get : Text → Exec S Text) (unmarshal : Text → Result ExtensionData)
    (api : HttpApi) (client : LambdaClient) (ext : Extension) where
  Step-Silent :
      {e : Error} {p q : Process}
      → Step store_get unmarshal api client ext p q
      → Silent e p
      → Silent e q
  unfolding start_proxy
  Step-Silent (parse_fails x h h') v = ground arith
  Step-Silent (parses x h h') v = ground arith
  Step-Silent interrupts v = ground arith
  Step-Silent (opens h h') v = ground arith
  Step-Silent (server_fails x b h h') v = ground arith
  Step-Silent (select_ends got_ready h h') v = ground arith
  Step-Silent (select_ends context_ended h h') v = ground arith
  Step-Silent (select_ends timed_out h h') v = ground arith
  Step-Silent (refresher_ends x g s r h h' i d) v = ground arith
  Step-Silent (events_end g s r h i d) v = ground arith
  Step-Silent (server_reports x h h') v = ground arith
  Step-Silent (refresher_reports r h h') v = ground arith
  Step-Silent (events_report_ends r h h') v = ground arith
  Step-Silent (closes h) v = ground arith

  Reach-Silent :
      {e : Error} {p q : Process}
      → Silent e p
      → Reach store_get unmarshal api client ext p q
      → Silent e q
  Reach-Silent v here = v
  Reach-Silent v (later r st) = Step-Silent st (Reach-Silent v r)

-- Let a listener fail before it listens, while `startProxy` waits and its context lives. As long as
-- the caller does not end the context, `Start` then waits or returns the timeout, never the error of
-- the listener, which its goroutine offers for ever, so that it never closes the proxy.
pub start_hides_error :
    {S : Type 0} (store_get : Text → Exec S Text) (unmarshal : Text → Result ExtensionData)
    (api : HttpApi) (client : LambdaClient) (ext : Extension) {p q : Process} (e : Error)
    → p.start ≡ waiting
    → p.server ≡ reporting e
    → p.broken ≡ true
    → p.ready ≡ false
    → p.ctx_done ≡ false
    → Reach store_get unmarshal api client ext p q
    → q.interrupted ≡ false
    → ((q.start ≡ waiting) ⊎ (q.start ≡ returned (some proxy_timeout))) × (q.server ≡ reporting e)
start_hides_error store_get unmarshal api client ext {q = q} e waits server broken unready alive r
      free =
    let v =
      Reach-Silent store_get unmarshal api client ext
        (record {
          broken = broken;
          unready = unready;
          started = rw waits (λ k. cc);
          failed = rw server (λ k. cc);
          unheard = λ _. server;
          waits = λ _. inl (waits, alive);
        })
        r in
    let where_ : (q.start ≡ waiting) ⊎ (q.start ≡ returned (some proxy_timeout)) =
      elim (v.waits free) [ inl (w, _) ↦ inl w | inr t ↦ inr t ] in
    (where_, v.unheard free)
