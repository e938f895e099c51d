-- ===== src/Registrator/Sync/Settled.antt =====
-- A plan is empty where Consul already holds what the functions ask for.
use terraform_aws_consul_lam.Prelude.{
  ◌≡◌, refl, sym, ◌∙◌, Text, text_eq, true, some, [], ◌∷◌, arith,
}
use terraform_aws_consul_lam.Prelude.Dict.{Dict, lookup, contains, NodupKeys}
use terraform_aws_consul_lam.Structs.{EnterpriseMeta, em_eq}
use terraform_aws_consul_lam.Registrator.Event.{Event, upsert, delete}
use terraform_aws_consul_lam.Registrator.Sync.{
  EventMap, ServiceMap, upsert_entry, upsert_loop, construct_upsert_events, delete_entry,
  delete_loop, construct_delete_events, plan,
}
use terraform_aws_consul_lam.Registrator.Sync.View.{
  is_upsert, has, find, settle, wanted, Keyed, IsKeyed, IsPlannable,
}

upsert_entry-eq-nil :
    (services : ServiceMap) (em : EnterpriseMeta) (name : Text) (e : Event)
    → has em name services ≡ is_upsert e
    → upsert_entry services em name e ≡ []
unfolding upsert_entry has
upsert_entry-eq-nil services em name (upsert e) h = ground arith
upsert_entry-eq-nil services em name (delete e) h = ground arith

upsert_loop-eq-nil :
    (services : ServiceMap) (em : EnterpriseMeta) (d : Dict Text Event)
    → Keyed em d
    → ((name : Text) (e : Event) → lookup name d ≡ some e → has em name services ≡ is_upsert e)
    → upsert_loop services em d ≡ []
unfolding upsert_loop lookup
upsert_loop-eq-nil services em [] _ h = refl
upsert_loop-eq-nil services em ((j, e) ∷ d) (p, q, fresh, k) h =
    rw (upsert_loop-eq-nil services em d k (λ name x found. h name x (ground arith)))
      (ground (arith, h j e, upsert_entry-eq-nil services em j e))

construct_upsert_events-eq-nil :
    (services : ServiceMap) (m : EventMap)
    → IsKeyed m
    → ((em : EnterpriseMeta) (name : Text) (e : Event)
        → find em name m ≡ some e
        → has em name services ≡ is_upsert e)
    → construct_upsert_events m services ≡ []
unfolding construct_upsert_events lookup find
construct_upsert_events-eq-nil services [] _ h = refl
construct_upsert_events-eq-nil services ((em, d) ∷ m) (k, fresh, ks) h =
    rw (upsert_loop-eq-nil services em d k (λ name x found. h em name x (ground arith))) (
      construct_upsert_events-eq-nil services m ks
        (λ em' name x found. h em' name x (ground arith)))

delete_entry-eq-nil :
    (lambdas : EventMap) (em : EnterpriseMeta) (name : Text)
    → has em name lambdas ≡ true
    → delete_entry lambdas em name ≡ []
unfolding delete_entry has
delete_entry-eq-nil lambdas em name h = ground arith

delete_loop-eq-nil :
    (lambdas : EventMap) (em : EnterpriseMeta) (d : Dict Text (Unit {0}))
    → ((name : Text) → contains name d ≡ true → has em name lambdas ≡ true)
    → delete_loop lambdas em d ≡ []
unfolding delete_loop contains
delete_loop-eq-nil lambdas em [] h = refl
delete_loop-eq-nil lambdas em ((j, _) ∷ d) h =
    rw (delete_loop-eq-nil lambdas em d (λ name found. h name (ground arith)))
      (ground (arith, h j, delete_entry-eq-nil lambdas em j))

construct_delete_events-eq-nil :
    (lambdas : EventMap) (services : ServiceMap)
    → NodupKeys services
    → ((em : EnterpriseMeta) (name : Text)
        → has em name services ≡ true
        → has em name lambdas ≡ true)
    → construct_delete_events lambdas services ≡ []
unfolding construct_delete_events lookup has
construct_delete_events-eq-nil lambdas [] _ h = refl
construct_delete_events-eq-nil lambdas ((em, d) ∷ services) (fresh, u) h =
    rw (delete_loop-eq-nil lambdas em d (λ name found. unfold has in h em name (ground arith))) (
      construct_delete_events-eq-nil lambdas services u
        (λ em' name found. h em' name (ground arith)))

wanted-has :
    (em : EnterpriseMeta) (name : Text) (m : EventMap)
    → wanted em name m ≡ true
    → has em name m ≡ true
unfolding wanted settle find has contains
wanted-has em name m h = ground arith

-- Let every event be filed once, under its own metadata and name, and what was read of Consul
-- have one entry for each scanned partition and namespace. If Consul already holds exactly the
-- services that the functions ask for, the plan is empty.
pub plan-eq-nil :
    (lambdas : EventMap) (services : ServiceMap)
    → IsPlannable lambdas services
    → ((em : EnterpriseMeta) (name : Text) → has em name services ≡ wanted em name lambdas)
    → plan lambdas services ≡ []
unfolding plan
plan-eq-nil lambdas services p h =
    rw
      (construct_upsert_events-eq-nil services lambdas p.keyed
        (λ em name e found. h em name ∙ (unfold wanted settle in rw found refl)))
      (construct_delete_events-eq-nil lambdas services p.nodup
        (λ em name found. wanted-has em name lambdas (sym (h em name) ∙ found)))
