-- ===== src/Registrator/Sync/Collect.antt =====
-- What `getLambdas` gathers: under every key the last event of the functions, and no more.
use terraform_aws_consul_lam.Prelude.{
  ◌≡◌, ◌≢◌, ◌↔◌, refl, ◌∙◌, Text, ◌==◌, text_eq, Bool, true, ◌&&◌, Option, none, some, List, [],
  ◌∷◌, ◌++◌, if◌then◌else◌, arith, Bool-cases, inl, inr,
}
use terraform_aws_consul_lam.Prelude.Dict.{Dict, lookup, insert, lookup-insert, lookup-nil}
use terraform_aws_consul_lam.Errors.{
  Error, Result, ok, err, append_error, is_not_enterprise, arn_undefined, first, more,
}
use terraform_aws_consul_lam.Structs.{EnterpriseMeta, em_eq}
use terraform_aws_consul_lam.Registrator.Config.{Config}
use terraform_aws_consul_lam.Registrator.Event.{Event}
use terraform_aws_consul_lam.Registrator.Trigger.{LambdaFunction, get_lambda_events}
use terraform_aws_consul_lam.Registrator.Sync.{
  EventMap, or_new, add_event, add_events, collect_step, collect,
}
use terraform_aws_consul_lam.Registrator.Sync.View.{event_meta, event_name, find, Keyed, IsKeyed}

insert-Keyed :
    (em : EnterpriseMeta) (name : Text) (e : Event) (d : Dict Text Event)
    → event_meta e ≡ em
    → event_name e ≡ name
    → Keyed em d
    → Keyed em (insert name e d)
unfolding insert lookup
insert-Keyed em name e [] p q _ = (p, q, refl, tt)
insert-Keyed em name e ((j, x) ∷ d) p q (px, qx, fresh, k) =
    ground (arith, insert-Keyed em name e d p q k, lookup-insert j name e d)

insert-IsKeyed :
    (em : EnterpriseMeta) (d : Dict Text Event) (m : EventMap)
    → Keyed em d
    → IsKeyed m
    → IsKeyed (insert em d m)
unfolding insert lookup
insert-IsKeyed em d [] k _ = (k, refl, tt)
insert-IsKeyed em d ((em', d') ∷ m) k (k', fresh, ks) =
    ground (arith, insert-IsKeyed em d m k ks, lookup-insert em' em d m)

Keyed-lookup : (em : EnterpriseMeta) (m : EventMap) → IsKeyed m → Keyed em (or_new (lookup em m))
unfolding or_new lookup
Keyed-lookup em [] _ = tt
Keyed-lookup em ((em', d) ∷ m) (k, fresh, ks) = ground (arith, Keyed-lookup em m ks)

add_event-IsKeyed : (m : EventMap) (e : Event) → IsKeyed m → IsKeyed (add_event m e)
unfolding add_event
add_event-IsKeyed m e h =
    insert-IsKeyed _ _ m (insert-Keyed _ _ e _ refl refl (Keyed-lookup _ m h)) h

add_events-IsKeyed : (es : List Event) (m : EventMap) → IsKeyed m → IsKeyed (add_events m es)
unfolding add_events
add_events-IsKeyed [] m h = h
add_events-IsKeyed (e ∷ es) m h = add_events-IsKeyed es (add_event m e) (add_event-IsKeyed m e h)

find-add_event :
    (em : EnterpriseMeta) (name : Text) (m : EventMap) (e : Event)
    → find em name (add_event m e)
      ≡ (if em == event_meta e && name == event_name e then some e else find em name m)
unfolding add_event find or_new
find-add_event em name m e = ground (
  arith,
  lookup-insert em (event_meta e) (insert (event_name e) e (or_new (lookup (event_meta e) m))) m,
  lookup-insert name (event_name e) e (or_new (lookup (event_meta e) m)),
  lookup-nil {V = Event} name,
)

-- The last of the events for a service, or what was known of it before
abbrev pub last_event : EnterpriseMeta → Text → Option Event → List Event → Option Event
last_event em name old [] = old
last_event em name old (e ∷ es) =
    last_event em name (if em == event_meta e && name == event_name e then some e else old) es

last_event-append :
    (em : EnterpriseMeta) (name : Text) (xs ys : List Event) (old : Option Event)
    → last_event em name old (xs ++ ys) ≡ last_event em name (last_event em name old xs) ys
last_event-append em name [] ys old = refl
last_event-append em name (x ∷ xs) ys old = last_event-append em name xs ys _

find-add_events :
    (em : EnterpriseMeta) (name : Text) (es : List Event) (m : EventMap)
    → find em name (add_events m es) ≡ last_event em name (find em name m) es
unfolding add_events
find-add_events em name [] m = refl
find-add_events em name (e ∷ es) m = find-add_events em name es (add_event m e) ∙ rw find-add_event

abbrev events_or_nil : Result (List Event) → List Event
events_or_nil (ok events) = events
events_or_nil (err _) = []

-- The events of all functions, in the order of the listing; a function with an error has none.
abbrev pub all_events : Config → Dict Text LambdaFunction → List Event
all_events env [] = []
all_events env ((_, fn) ∷ fns) = events_or_nil (get_lambda_events env fn) ++ all_events env fns

-- Whether a function is skipped or has events, so that `getLambdas` reports no error for it
abbrev pub is_accepted : Result (List Event) → Bool
is_accepted (ok _) = true
is_accepted (err e) = is_not_enterprise e

abbrev pub all_accepted : Config → Dict Text LambdaFunction → Bool
all_accepted env [] = true
all_accepted env ((_, fn) ∷ fns) = is_accepted (get_lambda_events env fn) && all_accepted env fns

module _ (env : Config) where
  collect_step-IsKeyed :
      (r : Result (List Event)) (m : EventMap) (errs : Option Error)
      → IsKeyed m
      → IsKeyed (collect_step r (m, errs)).0
  unfolding collect_step
  collect_step-IsKeyed (ok es) m errs h = add_events-IsKeyed es m h
  collect_step-IsKeyed (err e) m errs h = h

  -- If every event of a map is filed once, under its own metadata and name, then so is every
  -- event once those of the functions have been added.
  pub collect-IsKeyed :
      (fns : Dict Text LambdaFunction) (m : EventMap) (errs : Option Error)
      → IsKeyed m
      → IsKeyed (collect env fns (m, errs)).0
  unfolding collect
  collect-IsKeyed [] m errs h = h
  collect-IsKeyed ((_, fn) ∷ fns) m errs h =
      collect-IsKeyed fns _ _ (collect_step-IsKeyed (get_lambda_events env fn) m errs h)

  find-collect_step :
      (em : EnterpriseMeta) (name : Text) (r : Result (List Event)) (m : EventMap)
      (errs : Option Error)
      → find em name (collect_step r (m, errs)).0
        ≡ last_event em name (find em name m) (events_or_nil r)
  unfolding collect_step
  find-collect_step em name (ok es) m errs = find-add_events em name es m
  find-collect_step em name (err e) m errs = refl

  -- Under a key stands the last of the events of all functions for that service, or what stood
  -- there before if they have none.
  pub find-collect :
      (em : EnterpriseMeta) (name : Text) (fns : Dict Text LambdaFunction) (m : EventMap)
      (errs : Option Error)
      → find em name (collect env fns (m, errs)).0
        ≡ last_event em name (find em name m) (all_events env fns)
  unfolding collect
  find-collect em name [] m errs = refl
  find-collect em name ((_, fn) ∷ fns) m errs =
      find-collect em name fns _ _
      ∙ rw (
        find-collect_step em name (get_lambda_events env fn) m errs,
        last_event-append em name (events_or_nil (get_lambda_events env fn)),
      )

  collect_step_after_error :
      (r : Result (List Event)) (m : EventMap) (e : Error)
      → (m' : EventMap) × (e' : Error) × (collect_step r (m, some e) ≡ (m', some e'))
  unfolding collect_step append_error
  collect_step_after_error (ok es) m e = (add_events m es, e, refl)
  collect_step_after_error (err x) m e = elim (Bool-cases (is_not_enterprise x)) [
    | inl skip ↦ (m, e, rw skip)
    | inr real ↦ (m, more e x, rw real)
  ]

  collect_after_error :
      (fns : Dict Text LambdaFunction) (m : EventMap) (e : Error)
      → (collect env fns (m, some e)).1 ≢ none
  unfolding collect
  collect_after_error [] m e = λ h. cc
  collect_after_error ((_, fn) ∷ fns) m e =
      let (m', e', q) = collect_step_after_error (get_lambda_events env fn) m e in
      rw (q, collect) (collect_after_error fns m' e')

  collect_step_first :
      (r : Result (List Event)) (m : EventMap)
      → (m' : EventMap) × (e : Error) × (collect_step r (m, none)
          ≡ (m', if is_accepted r then none else some e))
  unfolding collect_step append_error
  collect_step_first (ok es) m = (add_events m es, arn_undefined, refl)
  collect_step_first (err x) m = (m, first x, refl)

  -- From no error on, `getLambdas` ends with none exactly if no function fails with another
  -- error than that of Enterprise metadata in a Consul that is not Enterprise.
  pub collect_error :
      (fns : Dict Text LambdaFunction) (m : EventMap)
      → ((collect env fns (m, none)).1 ≡ none) ↔ (all_accepted env fns ≡ true)
  unfolding collect
  collect_error [] m = ground arith
  collect_error ((_, fn) ∷ fns) m =
      let (m', e, q) = collect_step_first (get_lambda_events env fn) m in
      rw (q, collect)
        (elim (Bool-cases (is_accepted (get_lambda_events env fn))) [
          | inl fine ↦ rw fine (collect_error fns m')
          | inr bad ↦ rw bad (λ h. absurd (collect_after_error fns m' e h), λ h. cc)
        ])
