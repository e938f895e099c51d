-- ===== src/Extension/Start/Success.antt =====
-- When `Start` ends without an error.
use terraform_aws_consul_lam.Prelude.{
  ◌≡◌, ◌≢◌, refl, sym, ap, ◌∙◌, ◌⊎◌, inl, inr, Text, text_eq, Bool, true, Option, none, some, List,
  [], ◌∷◌, Bool-cases,
}
use terraform_aws_consul_lam.Errors.{Error, Result, Result-cases, proxy_timeout}
use terraform_aws_consul_lam.Exec.{Exec}
use terraform_aws_consul_lam.Structs.{ExtensionData}
use terraform_aws_consul_lam.Extension.{
  Extension, refresh, refresh_loop, Signal, cancelled, tick, stopped, get_extension_data,
}
use terraform_aws_consul_lam.Extension.LambdaClient.{HttpApi, LambdaClient, process_events}
use terraform_aws_consul_lam.Extension.Start.Polls.{
  loop_after, loop_of, SawShutdown, ended_shutdown,
}
use terraform_aws_consul_lam.Extension.Start.{
  working, Worker, StartPc, waiting, receiving, returned, closing, done, reports, Process, fresh,
  sees_cancelled, sees_done, events_report, return, go_on, Step, parse_fails, parses, interrupts,
  opens, server_fails, select_ends, context_ended, got_ready, timed_out, start_proxy,
  refresher_ends, events_end, server_reports, refresher_reports, events_report_ends, closes, Reach,
  here, later,
}

module _ {S : Type 0} (store_get : Text → Exec S Text)
    (unmarshal : Text → Result ExtensionData) where
  refresh_loop-none :
      (signals : List Signal) (ext : Extension) (s : S)
      → (refresh_loop store_get unmarshal signals ext s).0.0 ≡ stopped none
      → sees_cancelled signals ≡ true
  unfolding refresh_loop
  refresh_loop-none [] ext s = λ h. cc
  refresh_loop-none (cancelled ∷ _) ext s = λ h. refl
  refresh_loop-none (tick ∷ signals) ext s =
      let now = get_extension_data store_get unmarshal ext s in
      elim (Result-cases now.0.0) [
        | inl (_, e) ↦ rw (e, refresh_loop) (λ h. refresh_loop-none signals now.0.1 now.1 h)
        | inr (x, e) ↦ rw (e, refresh_loop) (λ h. cc)
      ]

  refresh-none :
      (signals : List Signal) (ext : Extension) (s : S)
      → (refresh store_get unmarshal signals ext s).0.0 ≡ stopped none
      → sees_cancelled signals ≡ true
  unfolding refresh
  refresh-none signals ext s h = refresh_loop-none (tick ∷ signals) ext s h

module _ {S : Type 0} (store_get : Text → Exec S Text) (unmarshal : Text → Result ExtensionData)
    (api : HttpApi) (client : LambdaClient) (ext : Extension) where
  abbrev Loop : Type 0
  Loop = Option (List Bool × api.State)

  -- The caller has ended the context, or the event loop has ended with a SHUTDOWN.
  abbrev Told : Process → Loop → Type 0
  Told p o = (p.interrupted ≡ true) ⊎ ((p.events ≡ done) × SawShutdown api client o)

  -- Before `Start` returns, only the caller can end the context.
  record Inv (p : Process) (o : Loop) : Type 0 where
    context : p.ctx_done ≡ true → ((r : Option Error) → p.start ≢ returned r) → p.interrupted ≡ true
    refresher_ok : p.refresher ≡ reports none → p.ctx_done ≡ true
    events_ok : p.events ≡ reports none → (p.ctx_done ≡ true) ⊎ SawShutdown api client o
    success : p.start ≡ returned none → Told p o

  fresh-Inv : Inv fresh none
  fresh-Inv = record {
    context = λ h. cc;
    refresher_ok = λ h. cc;
    events_ok = λ h. cc;
    success = λ h. cc;
  }

  -- `Start` returns, and ends the context.
  return-Inv :
      (r : Option Error) (p : Process) (o : Loop)
      → (returned r ≡ returned none → Told p o)
      → Inv (return r p) o
  return-Inv r p o ok_case = record {
    context = λ d ne. absurd (ne r refl);
    refresher_ok = λ h. refl;
    events_ok = λ h. inl refl;
    success = ok_case;
  }

  -- `Start` goes on from a point where it has not returned.
  module _ {p : Process} {o : Loop} (v : Inv p o) where
    interrupted_lem :
        {x : StartPc}
        → p.start ≡ x
        → ((r : Option Error) → x ≢ returned r)
        → p.ctx_done ≡ true
        → p.interrupted ≡ true
    interrupted_lem e ne d = v.context d (λ r k. ne r (sym e ∙ k))

    go_on-Inv : p.start ≡ waiting → Inv (go_on p) o
    go_on-Inv e = record {
      context = λ d ne. interrupted_lem e (λ r k. cc) d;
      refresher_ok = λ h. cc;
      events_ok = λ h. cc;
      success = λ h. cc;
    }

    refresher_success :
        (r : Option Error)
        → p.start ≡ receiving
        → p.refresher ≡ reports r
        → returned r ≡ returned none
        → p.interrupted ≡ true
    refresher_success r e h k =
        let same : reports r ≡ reports none = cc in
        interrupted_lem e (λ x k'. cc) (v.refresher_ok (h ∙ same))

    events_success :
        (r : Option Error)
        → p.start ≡ receiving
        → p.events ≡ reports r
        → returned r ≡ returned none
        → Told (record p { events = done }) o
    events_success r e h k =
        let same : reports r ≡ reports none = cc in
        elim (v.events_ok (h ∙ same)) [
          | inl d ↦ inl (interrupted_lem e (λ x k'. cc) d)
          | inr saw ↦ inr (refl, saw)
        ]

    -- The event loop ends only once.
    still-Told :
        (w : Worker) (o' : Loop)
        → p.events ≡ working
        → p.start ≡ returned none
        → Told (record p { events = w }) o'
    still-Told w o' h k = elim (v.success k) [
      | inl e ↦ inl e
      | inr (e, _) ↦ let same = sym h ∙ e in cc
    ]

  events_report-none : (r : Option Error) → reports (events_report r) ≡ reports none → r ≡ none
  events_report-none none h = refl
  events_report-none (some e) h = cc

  events_end_ok :
      (turns : List Bool) (s : api.State) (r : Option Error) (done_ : Bool)
      → (process_events api client turns s).0 ≡ stopped r
      → (sees_done turns ≡ true → done_ ≡ true)
      → reports (events_report r) ≡ reports none
      → (done_ ≡ true) ⊎ SawShutdown api client (some (turns, s))
  events_end_ok turns s r done_ ended d h = elim (Bool-cases (sees_done turns)) [
    | inl e ↦ inl (d e)
    | inr e ↦
        inr (ended_shutdown api client turns s e (ended ∙ ap stopped (events_report-none r h)))
  ]

  Step-Inv :
      {p q : Process} {o : Loop} (st : Step store_get unmarshal api client ext p q)
      → Inv p o
      → Inv q (loop_after store_get unmarshal api client ext st o)
  unfolding start_proxy loop_after
  Step-Inv {p} {o = o} (parse_fails e h h') v = return-Inv (some e) p o (λ k. cc)
  Step-Inv {p} (parses x h h') v = record {
    context = λ d ne. interrupted_lem v h (λ r k. cc) d;
    refresher_ok = v.refresher_ok;
    events_ok = v.events_ok;
    success = λ h. cc;
  }
  Step-Inv {p} interrupts v = record {
    context = λ d ne. refl;
    refresher_ok = λ h. refl;
    events_ok = λ h. inl refl;
    success = λ h. inl refl;
  }
  Step-Inv (opens h h') v = record {
    context = v.context;
    refresher_ok = v.refresher_ok;
    events_ok = v.events_ok;
    success = v.success;
  }
  Step-Inv (server_fails e b h h') v = record {
    context = v.context;
    refresher_ok = v.refresher_ok;
    events_ok = v.events_ok;
    success = v.success;
  }
  Step-Inv (closes h) v = record {
    context = v.context;
    refresher_ok = v.refresher_ok;
    events_ok = v.events_ok;
    success = v.success;
  }
  Step-Inv (select_ends got_ready h h') v = go_on-Inv v h
  Step-Inv (select_ends context_ended h h') v = go_on-Inv v h
  Step-Inv {p} {o = o} (select_ends timed_out h h') v =
      return-Inv (some proxy_timeout) p o (λ k. cc)
  Step-Inv {p} (refresher_ends x signals s r h h' ended d) v = record {
    context = v.context;
    refresher_ok = λ k.
        let same : r ≡ none = cc in
        d (refresh-none store_get unmarshal signals x s (ended ∙ ap stopped same));
    events_ok = v.events_ok;
    success = v.success;
  }
  Step-Inv {p} (events_end turns s r h ended d) v = record {
    context = v.context;
    refresher_ok = v.refresher_ok;
    events_ok = events_end_ok turns s r p.ctx_done ended d;
    success = still-Told v (reports (events_report r)) (some (turns, s)) h;
  }
  Step-Inv {p} {o = o} (server_reports e h h') v =
      return-Inv (some e) (record p { server = closing }) o (λ k. cc)
  Step-Inv {p} {o = o} (refresher_reports r h h') v =
      return-Inv r (record p { refresher = done }) o (λ k. inl (refresher_success v r h h' k))
  Step-Inv {p} {o = o} (events_report_ends r h h') v =
      return-Inv r (record p { events = done }) o (events_success v r h h')

  Reach-Inv :
      {p : Process} (r : Reach store_get unmarshal api client ext fresh p)
      → Inv p (loop_of store_get unmarshal api client ext r)
  unfolding loop_of
  Reach-Inv here = fresh-Inv
  Reach-Inv (later r st) = Step-Inv st (Reach-Inv r)

-- Whatever the goroutines do, in any order, `Start` returns without an error only if its caller has
-- ended the context, or the event loop of that run has ended and one of its polls was answered with
-- SHUTDOWN.
pub start_ok :
    {S : Type 0} (store_get : Text → Exec S Text) (unmarshal : Text → Result ExtensionData)
    (api : HttpApi) (client : LambdaClient) (ext : Extension) {p : Process}
    (r : Reach store_get unmarshal api client ext fresh p)
    → p.start ≡ returned none
    → (p.interrupted ≡ true) ⊎ SawShutdown api client (loop_of store_get unmarshal api client ext r)
start_ok store_get unmarshal api client ext r h =
    elim ((Reach-Inv store_get unmarshal api client ext r).success h) [
      | inl e ↦ inl e
      | inr (_, saw) ↦ inr saw
    ]
