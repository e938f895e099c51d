-- ===== src/Registrator/Sync/Events.antt =====
-- A property of every event of the functions, and of every deletion of an orphan, is one of every
-- event of the plan.
use terraform_aws_consul_lam.Prelude.{
  Text, Option, List, [], ◌∷◌, All, All-append, Option-cases, inl, inr, text_eq, Bool-cases,
}
use terraform_aws_consul_lam.Prelude.Dict.{Dict, lookup, contains, insert-All, lookup-All}
use terraform_aws_consul_lam.Errors.{Error, Result, ok, err}
use terraform_aws_consul_lam.Structs.{EnterpriseMeta, em_eq}
use terraform_aws_consul_lam.Registrator.Config.{Config}
use terraform_aws_consul_lam.Registrator.Event.{Event, upsert, delete}
use terraform_aws_consul_lam.Registrator.Trigger.{LambdaFunction, get_lambda_events}
use terraform_aws_consul_lam.Registrator.Trigger.Scope.{OkAll}
use terraform_aws_consul_lam.Registrator.Sync.{
  EventMap, ServiceMap, or_new, add_event, add_events, collect_step, collect, upsert_entry,
  upsert_loop, construct_upsert_events, orphan, delete_entry, delete_loop, construct_delete_events,
  plan,
}

module _ (Q : Event → Type 0) where
  abbrev AllIn : Dict Text Event → Type 0
  AllIn = All (λ (_, e). Q e)

  abbrev pub AllOf : EventMap → Type 0
  AllOf = All (λ (_, d). AllIn d)

  or_new-AllIn : (em : EnterpriseMeta) (m : EventMap) → AllOf m → AllIn (or_new (lookup em m))
  unfolding or_new
  or_new-AllIn em m h = elim (Option-cases (lookup em m)) [
    | inl e ↦ rw (e, or_new) tt
    | inr (d, e) ↦ rw (e, or_new) (lookup-All (λ (_, x). AllIn x) em d m h e)
  ]

  add_event-AllOf : (m : EventMap) (e : Event) → AllOf m → Q e → AllOf (add_event m e)
  unfolding add_event
  add_event-AllOf m e h q =
      insert-All (λ (_, x). AllIn x) _ _ m (insert-All (λ (_, x). Q x) _ e _ q (or_new-AllIn _ m h))
        h

  add_events-AllOf : (es : List Event) (m : EventMap) → AllOf m → All Q es → AllOf (add_events m es)
  unfolding add_events
  add_events-AllOf [] m h _ = h
  add_events-AllOf (e ∷ es) m h (q, qs) =
      add_events-AllOf es (add_event m e) (add_event-AllOf m e h q) qs

  collect_step-AllOf :
      (r : Result (List Event)) (m : EventMap) (errs : Option Error)
      → AllOf m
      → OkAll Q r
      → AllOf (collect_step r (m, errs)).0
  unfolding collect_step
  collect_step-AllOf (ok es) m errs h q = add_events-AllOf es m h q
  collect_step-AllOf (err e) m errs h q = h

  pub collect-AllOf :
      (env : Config) (fns : Dict Text LambdaFunction) (m : EventMap) (errs : Option Error)
      → AllOf m
      → All (λ (_, fn). OkAll Q (get_lambda_events env fn)) fns
      → AllOf (collect env fns (m, errs)).0
  unfolding collect
  collect-AllOf env [] m errs h _ = h
  collect-AllOf env ((_, fn) ∷ fns) m errs h (q, qs) =
      collect-AllOf env fns _ _ (collect_step-AllOf (get_lambda_events env fn) m errs h q) qs

  upsert_entry-All :
      (services : ServiceMap) (em : EnterpriseMeta) (name : Text) (e : Event)
      → Q e
      → All Q (upsert_entry services em name e)
  unfolding upsert_entry
  upsert_entry-All services em name (upsert e) q = elim (Option-cases (lookup em services)) [
    | inl x ↦ rw (x, upsert_entry) (q, tt)
    | inr (d, x) ↦ elim (Bool-cases (contains name d)) [
      | inl c ↦ rw (x, upsert_entry) (rw c tt)
      | inr c ↦ rw (x, upsert_entry) (rw c (q, tt))
    ]
  ]
  upsert_entry-All services em name (delete e) q = elim (Option-cases (lookup em services)) [
    | inl x ↦ rw (x, upsert_entry) tt
    | inr (d, x) ↦ elim (Bool-cases (contains name d)) [
      | inl c ↦ rw (x, upsert_entry) (rw c (q, tt))
      | inr c ↦ rw (x, upsert_entry) (rw c tt)
    ]
  ]

  upsert_loop-All :
      (services : ServiceMap) (em : EnterpriseMeta) (d : Dict Text Event)
      → AllIn d
      → All Q (upsert_loop services em d)
  unfolding upsert_loop
  upsert_loop-All services em [] _ = tt
  upsert_loop-All services em ((name, e) ∷ d) (q, qs) =
      All-append Q (upsert_entry services em name e) _ (upsert_entry-All services em name e q)
        (upsert_loop-All services em d qs)

  construct_upsert_events-All :
      (m : EventMap) (services : ServiceMap) → AllOf m → All Q (construct_upsert_events m services)
  unfolding construct_upsert_events
  construct_upsert_events-All [] services _ = tt
  construct_upsert_events-All ((em, d) ∷ m) services (q, qs) =
      All-append Q (upsert_loop services em d) _ (upsert_loop-All services em d q)
        (construct_upsert_events-All m services qs)

  delete_entry-All :
      (lambdas : EventMap) (em : EnterpriseMeta) (name : Text)
      → Q (orphan em name)
      → All Q (delete_entry lambdas em name)
  unfolding delete_entry
  delete_entry-All lambdas em name q = elim (Option-cases (lookup em lambdas)) [
    | inl x ↦ rw (x, delete_entry) (q, tt)
    | inr (d, x) ↦ elim (Bool-cases (contains name d)) [
      | inl c ↦ rw (x, delete_entry) (rw c tt)
      | inr c ↦ rw (x, delete_entry) (rw c (q, tt))
    ]
  ]

  delete_loop-All :
      (lambdas : EventMap) (em : EnterpriseMeta) (d : Dict Text (Unit {0}))
      → All (λ (name, _). Q (orphan em name)) d
      → All Q (delete_loop lambdas em d)
  unfolding delete_loop
  delete_loop-All lambdas em [] _ = tt
  delete_loop-All lambdas em ((name, _) ∷ d) (q, qs) =
      All-append Q (delete_entry lambdas em name) _ (delete_entry-All lambdas em name q)
        (delete_loop-All lambdas em d qs)

  construct_delete_events-All :
      (lambdas : EventMap) (services : ServiceMap)
      → All (λ (em, d). All (λ (name, _). Q (orphan em name)) d) services
      → All Q (construct_delete_events lambdas services)
  unfolding construct_delete_events
  construct_delete_events-All lambdas [] _ = tt
  construct_delete_events-All lambdas ((em, d) ∷ services) (q, qs) =
      All-append Q (delete_loop lambdas em d) _ (delete_loop-All lambdas em d q)
        (construct_delete_events-All lambdas services qs)

  pub plan-All :
      (lambdas : EventMap) (services : ServiceMap)
      → AllOf lambdas
      → All (λ (em, d). All (λ (name, _). Q (orphan em name)) d) services
      → All Q (plan lambdas services)
  unfolding plan
  plan-All lambdas services h k =
      All-append Q (construct_upsert_events lambdas services) _
        (construct_upsert_events-All lambdas services h)
        (construct_delete_events-All lambdas services k)
