-- ===== src/Extension/Start/Polls.antt =====
-- The polls of `runEvents` in a run of `Start`.
use terraform_aws_consul_lam.Prelude.{
  ℕ, suc, ◌<◌, length, ◌≡◌, inl, inr, Text, text_eq, ◌==◌, Bool, true, false, Option, none, some,
  List, [], ◌∷◌, arith, Bool-cases,
}
use terraform_aws_consul_lam.Errors.{Result, ok, Result-cases}
use terraform_aws_consul_lam.Exec.{Exec}
use terraform_aws_consul_lam.Structs.{ExtensionData}
use terraform_aws_consul_lam.Extension.{Extension, stopped}
use terraform_aws_consul_lam.Extension.LambdaClient.{
  HttpApi, LambdaClient, NextEvent, process_events, next, shutdown,
}
use terraform_aws_consul_lam.Extension.LambdaClient.Polling.{polled}
use terraform_aws_consul_lam.Extension.Start.{
  Process, fresh, sees_done, Step, events_end, Reach, here, later,
}

module _ {S : Type 0} (store_get : Text → Exec S Text) (unmarshal : Text → Result ExtensionData)
    (api : HttpApi) (client : LambdaClient) (ext : Extension) where
  -- From which state of the runtime the event loop went, and what it saw of its context in each turn,
  -- where it has ended
  unfoldable pub loop_after :
      {p q : Process}
      → Step store_get unmarshal api client ext p q
      → Option (List Bool × api.State)
      → Option (List Bool × api.State)
  loop_after (events_end turns s r h ended d) before = some (turns, s)
  loop_after st before = before

  unfoldable pub loop_of :
      {p : Process}
      → Reach store_get unmarshal api client ext fresh p
      → Option (List Bool × api.State)
  unfolding loop_after
  loop_of here = none
  loop_of (later r st) = loop_after st (loop_of r)

module _ (api : HttpApi) (client : LambdaClient) where
  -- Poll `k` of an event loop that started at `s` was answered with SHUTDOWN.
  abbrev pub ShutdownAt : ℕ → api.State → Type 0
  ShutdownAt k s =
      (res : NextEvent) × ((next api client (polled api k client s)).0 ≡ ok res)
      × (res.event_type ≡ shutdown)

  -- The event loop has ended, and one of its polls was answered with SHUTDOWN.
  abbrev pub SawShutdown : Option (List Bool × api.State) → Type 0
  SawShutdown none = ⊥
  SawShutdown (some (turns, s)) = (k : ℕ) × (k < length turns) × ShutdownAt k s

  pub ended_shutdown :
      (turns : List Bool) (s : api.State)
      → sees_done turns ≡ false
      → (process_events api client turns s).0 ≡ stopped none
      → SawShutdown (some (turns, s))
  unfolding process_events
  ended_shutdown [] s none_done = λ h. cc
  ended_shutdown (true ∷ turns) s none_done = cc
  ended_shutdown (false ∷ turns) s none_done = elim (Result-cases (next api client s).0) [
    | inr (x, e) ↦ rw (e, process_events) (λ h. cc)
    | inl (res, e) ↦
        rw (e, process_events)
          (elim (Bool-cases (res.event_type == shutdown)) [
            | inl m ↦ λ h. (0, omega arith, (res, e, ground arith))
            | inr m ↦ rw m (λ h.
                let (k, lt, found) = ended_shutdown turns (next api client s).1 none_done h in
                (suc k, omega (arith, lt), found))
          ])
  ]
