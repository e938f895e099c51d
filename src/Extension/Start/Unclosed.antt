-- ===== src/Extension/Start/Unclosed.antt =====
-- The proxy after `Start` has returned.
use terraform_aws_consul_lam.Prelude.{◌≡◌, ◌⊎◌, Text, Option, arith}
use terraform_aws_consul_lam.Errors.{Error, Result}
use terraform_aws_consul_lam.Exec.{Exec}
use terraform_aws_consul_lam.Structs.{ExtensionData}
use terraform_aws_consul_lam.Extension.{Extension}
use terraform_aws_consul_lam.Extension.LambdaClient.{HttpApi, LambdaClient}
use terraform_aws_consul_lam.Extension.Start.{
  returned, serving, reporting, Process, Step, parse_fails, parses, interrupts, opens, server_fails,
  select_ends, context_ended, got_ready, timed_out, start_proxy, refresher_ends, events_end,
  server_reports, refresher_reports, events_report_ends, closes, Reach, here, later,
}

-- The goroutine of the proxy has not handed over its error, and `Start` has returned.
record IsUnheard (p : Process) : Type 0 where
  over : (r : Option Error) × (p.start ≡ returned r)
  open_ : (p.server ≡ serving) ⊎ ((e : Error) × (p.server ≡ reporting e))

module _ {S : Type 0} (store_get : Text → Exec S Text) (unmarshal : Text → Result ExtensionData)
    (api : HttpApi) (client : LambdaClient) (ext : Extension) where
  Step-IsUnheard :
      {p q : Process} → Step store_get unmarshal api client ext p q → IsUnheard p → IsUnheard q
  unfolding start_proxy
  Step-IsUnheard (parse_fails x h h') v = ground arith
  Step-IsUnheard (parses x h h') v = ground arith
  Step-IsUnheard interrupts v = ground arith
  Step-IsUnheard (opens h h') v = ground arith
  Step-IsUnheard (server_fails x b h h') v = ground arith
  Step-IsUnheard (select_ends got_ready h h') v = ground arith
  Step-IsUnheard (select_ends context_ended h h') v = ground arith
  Step-IsUnheard (select_ends timed_out h h') v = ground arith
  Step-IsUnheard (refresher_ends x g s r h h' i d) v = ground arith
  Step-IsUnheard (events_end g s r h i d) v = ground arith
  Step-IsUnheard (server_reports x h h') v = ground arith
  Step-IsUnheard (refresher_reports r h h') v = ground arith
  Step-IsUnheard (events_report_ends r h h') v = ground arith
  Step-IsUnheard (closes h) v = ground arith

  Reach-IsUnheard :
      {p q : Process} → IsUnheard p → Reach store_get unmarshal api client ext p q → IsUnheard q
  Reach-IsUnheard v here = v
  Reach-IsUnheard v (later r st) = Step-IsUnheard st (Reach-IsUnheard v r)

-- If `Start` has returned and the goroutine of the proxy has not handed over its error, nobody ever
-- closes the proxy, whatever follows.
pub start_leaves_proxy :
    {S : Type 0} (store_get : Text → Exec S Text) (unmarshal : Text → Result ExtensionData)
    (api : HttpApi) (client : LambdaClient) (ext : Extension) {p q : Process} (r : Option Error)
    → p.start ≡ returned r
    → (p.server ≡ serving) ⊎ ((e : Error) × (p.server ≡ reporting e))
    → Reach store_get unmarshal api client ext p q
    → (q.server ≡ serving) ⊎ ((e : Error) × (q.server ≡ reporting e))
start_leaves_proxy store_get unmarshal api client ext r over open_ follow =
    (Reach-IsUnheard store_get unmarshal api client ext (record { over = (r, over); open_ = open_ })
      follow).open_
