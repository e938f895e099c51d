-- ===== src/Extension/LambdaClient/Polling.antt =====
-- Registering the extension and polling for events.
use terraform_aws_consul_lam.Prelude.{
  ◌≡◌, ◌↔◌, ℕ, zero, suc, refl, Text, text, ◌==◌, text_eq, Bool, true, false, not, ◌&&◌, none, some,
  List, [], ◌∷◌, ◌++◌, arith, Bool-cases, inl, inr,
}
use mathlib.Core.Bool.{false≢true}
use terraform_aws_consul_lam.Prelude.Dict.{lookup, insert}
use terraform_aws_consul_lam.Errors.{Result, ok, err, Result-cases}
use terraform_aws_consul_lam.Exec.{bind-eq-ok, lift}
use terraform_aws_consul_lam.Extension.{running, stopped}
use terraform_aws_consul_lam.Extension.LambdaClient.{
  LambdaClient, HttpApi, NextEvent, Response, register, register_answer, next, register_request,
  next_request, process_events, shutdown, get_header, header_extension_id,
}

abbrev pub is_other : Result NextEvent → Bool
is_other (ok res) = not (res.event_type == shutdown)
is_other (err _) = false

abbrev pub turns : ℕ → List Bool
turns zero = []
turns (suc n) = false ∷ turns n

is_shutdown : (kind : Text) → kind ≡ shutdown → (kind == shutdown) ≡ true
is_shutdown kind h = ground arith

module _ (api : HttpApi) where
  -- The next `n` polls are all answered with an event other than SHUTDOWN.
  abbrev pub all_other : ℕ → LambdaClient → api.State → Bool
  all_other zero c s = true
  all_other (suc n) c s = is_other (next api c s).0 && all_other n c (next api c s).1

  -- While its context lives, the loop is still running after `n` turns exactly if it polled `n`
  -- times and each answer was an event other than SHUTDOWN.
  pub process_events_running :
      (n : ℕ) (c : LambdaClient) (s : api.State)
      → ((process_events api c (turns n) s).0 ≡ running) ↔ (all_other n c s ≡ true)
  unfolding process_events
  process_events_running zero c s = ground arith
  process_events_running (suc n) c s = elim (Result-cases (next api c s).0) [
    | inr (x, e) ↦ rw (e, process_events) (λ h. cc, λ h. cc)
    | inl (res, e) ↦
        rw (e, process_events)
          (elim (Bool-cases (res.event_type == shutdown)) [
            | inl m ↦ rw m (λ h. cc, λ h. cc)
            | inr m ↦ rw m (process_events_running n c (next api c s).1)
          ])
  ]

  -- The state after `n` polls
  abbrev pub polled : ℕ → LambdaClient → api.State → api.State
  polled zero c s = s
  polled (suc n) c s = polled n c (next api c s).1

  -- Let `n` polls be answered with other events and the next one with SHUTDOWN, while the
  -- context lives. The loop then ends without an error after `n + 1` polls, however many turns
  -- may follow.
  pub process_events-shutdown :
      (n : ℕ) (c : LambdaClient) (s : api.State) (res : NextEvent) (more : List Bool)
      → all_other n c s ≡ true
      → (next api c (polled n c s)).0 ≡ ok res
      → res.event_type ≡ shutdown
      → process_events api c (turns n ++ (false ∷ more)) s ≡ (stopped none, polled (suc n) c s)
  unfolding process_events
  process_events-shutdown zero c s res more _ answered last =
      rw (answered, process_events) (rw (is_shutdown res.event_type last) refl)
  process_events-shutdown (suc n) c s res more others answered last =
      elim (Result-cases (next api c s).0) [
        | inr (x, e) ↦ absurd (false≢true (rw e at others))
        | inl (r, e) ↦ elim (Bool-cases (r.event_type == shutdown)) [
          | inl m ↦ absurd (false≢true (rw (e, m) at others))
          | inr m ↦
              rw (e, process_events)
                (rw m (
                  process_events-shutdown n c (next api c s).1 res more (rw (e, m) at others)
                    answered last))
        ]
      ]

  register_answer_lem :
      (c c' : LambdaClient) (res : Response)
      → register_answer api c res ≡ ok c'
      → (res.status_code ≡ 200) × (c'.extension_id ≡ get_header res.headers header_extension_id)
  unfolding register_answer
  register_answer_lem c c' res h = ground arith

  next_request_id :
      (c : LambdaClient) (id : Text)
      → c.extension_id ≡ id
      → lookup header_extension_id (next_request api c).headers ≡ some id
  unfolding next_request insert lookup
  next_request_id c id h = rw h (ground arith)

  -- Once the extension is registered, it names itself in every poll by the identifier that the
  -- answer to its registration gave; that answer had the status 200.
  pub register-next_request :
      (c c' : LambdaClient) (name : Text) (s : api.State)
      → (register api c (some name) s).0 ≡ ok c'
      → (body : Text) × (res : Response) × ((api.send (register_request api c name body) s).0
          ≡ ok res)
        × (res.status_code ≡ 200)
        × (lookup header_extension_id (next_request api c').headers
            ≡ some (get_header res.headers header_extension_id))
  unfolding register
  register-next_request c c' name s h =
      let (body, _, q) =
        bind-eq-ok (lift (api.marshal ((text "events", shutdown ∷ []) ∷ []))) _ s h in
      let (_, _, q') =
        bind-eq-ok (lift (api.check_request (text "POST") (c.base_url ++ text "/register"))) _ s
          (rw q at h) in
      let (res, answered, q'') =
        bind-eq-ok (api.send (register_request api c name body)) _ s (rw (q, q') at h) in
      let (fine, same) = register_answer_lem c c' res (rw (q, q', q'') at h) in
      (body, res, answered, fine, next_request_id c' _ same)
