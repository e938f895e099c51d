-- ===== src/Registrator/Sync/Plan.antt =====
-- What the plan of a full pass does to the set of services that Consul holds.
use terraform_aws_consul_lam.Prelude.{
  ◌≡◌, ◌≢◌, ◌↔◌, refl, Text, ◌==◌, text_eq, Bool, true, false, not, ◌&&◌, ◌||◌, none, List, [], ◌∷◌,
  ◌++◌, All, if◌then◌else◌, arith, ◌⊎◌,
}
use terraform_aws_consul_lam.Prelude.Dict.{Dict, lookup, contains, NodupKeys}
use terraform_aws_consul_lam.Structs.{EnterpriseMeta, em_eq}
use terraform_aws_consul_lam.Registrator.Event.{Event, upsert, delete}
use terraform_aws_consul_lam.Registrator.Sync.{
  EventMap, ServiceMap, upsert_entry, upsert_loop, construct_upsert_events, delete_entry,
  delete_loop, construct_delete_events, plan,
}
use terraform_aws_consul_lam.Registrator.Sync.View.{
  is_upsert, event_meta, event_name, after, has, settle, find, Keyed, IsKeyed, IsScanned,
  IsPlannable, wanted,
}

after-append :
    (em : EnterpriseMeta) (name : Text) (xs ys : List Event) (old : Bool)
    → after em name old (xs ++ ys) ≡ after em name (after em name old xs) ys
unfolding after
after-append em name [] ys old = refl
after-append em name (x ∷ xs) ys old = after-append em name xs ys _

module _ (services : ServiceMap) (em : EnterpriseMeta) (name : Text) where
  -- What one entry of the loop makes of the service
  after-upsert_entry :
      (em' : EnterpriseMeta) (name' : Text) (e : Event) (old : Bool)
      → event_meta e ≡ em'
      → event_name e ≡ name'
      → after em name old (upsert_entry services em' name' e) ≡ (
          if em == em' && name == name'
          then if has em name services then is_upsert e && old else is_upsert e || old
          else old)
  unfolding after upsert_entry has
  after-upsert_entry em' name' (upsert e) old p q = ground arith
  after-upsert_entry em' name' (delete e) old p q = ground arith

  after-upsert_loop_absent :
      (em' : EnterpriseMeta) (d : Dict Text Event) (old : Bool)
      → Keyed em' d
      → (em ≢ em') ⊎ (lookup name d ≡ none)
      → after em name old (upsert_loop services em' d) ≡ old
  unfolding upsert_loop lookup
  after-upsert_loop_absent em' [] old _ _ = unfold after in refl
  after-upsert_loop_absent em' ((j, e) ∷ d) old (p, q, fresh, k) h =
      rw (after-append em name (upsert_entry services em' j e))
        (ground (arith, after-upsert_entry em' j e old p q, after-upsert_loop_absent em' d old k))

  after-upsert_loop :
      (d : Dict Text Event)
      → Keyed em d
      → after em name (has em name services) (upsert_loop services em d)
        ≡ settle (lookup name d) (has em name services)
  unfolding upsert_loop lookup settle
  after-upsert_loop [] _ = unfold after in refl
  after-upsert_loop ((j, e) ∷ d) (p, q, fresh, k) =
      rw (after-append em name (upsert_entry services em j e)) (
        ground (
          arith,
          after-upsert_entry em j e (has em name services) p q,
          after-upsert_loop d k,
          after-upsert_loop_absent em d (is_upsert e) k,
        ))

  after-construct_upsert_events_absent :
      (m : EventMap) (old : Bool)
      → IsKeyed m
      → lookup em m ≡ none
      → after em name old (construct_upsert_events m services) ≡ old
  unfolding construct_upsert_events lookup
  after-construct_upsert_events_absent [] old _ _ = unfold after in refl
  after-construct_upsert_events_absent ((em', d) ∷ m) old (k, fresh, ks) h =
      rw (after-append em name (upsert_loop services em' d)) (
        ground (
          arith,
          after-upsert_loop_absent em' d old k,
          after-construct_upsert_events_absent m old ks,
        ))

  -- The upserts and deletes that the functions ask for are carried out, and nothing else.
  pub after-construct_upsert_events :
      (m : EventMap)
      → IsKeyed m
      → after em name (has em name services) (construct_upsert_events m services)
        ≡ settle (find em name m) (has em name services)
  unfolding construct_upsert_events lookup settle find
  after-construct_upsert_events [] _ = unfold after in refl
  after-construct_upsert_events ((em', d) ∷ m) (k, fresh, ks) =
      rw (after-append em name (upsert_loop services em' d)) (
        ground (
          arith,
          after-upsert_loop d,
          after-upsert_loop_absent em' d (has em name services) k,
          after-construct_upsert_events m ks,
          after-construct_upsert_events_absent m (settle (lookup name d) (has em name services)) ks,
        ))

module _ (lambdas : EventMap) (em : EnterpriseMeta) (name : Text) where
  after-delete_entry :
      (em' : EnterpriseMeta) (name' : Text) (old : Bool)
      → IsScanned em'
      → after em name old (delete_entry lambdas em' name')
        ≡ (if em == em' && name == name' && not (has em name lambdas) then false else old)
  unfolding after delete_entry has
  after-delete_entry em' name' old h = ground arith

  after-delete_loop :
      (em' : EnterpriseMeta) (d : Dict Text (Unit {0})) (old : Bool)
      → IsScanned em'
      → after em name old (delete_loop lambdas em' d)
        ≡ (if em == em' && contains name d && not (has em name lambdas) then false else old)
  unfolding delete_loop contains
  after-delete_loop em' [] old h = unfold after in ground arith
  after-delete_loop em' ((j, _) ∷ d) old h =
      rw (after-append em name (delete_entry lambdas em' j)) (
        ground (
          arith,
          after-delete_entry em' j old h,
          after-delete_loop em' d old h,
          after-delete_loop em' d false h,
        ))

  -- The services of the catalog that no function names are deleted, and nothing else.
  pub after-construct_delete_events :
      (services : ServiceMap) (old : Bool)
      → All (λ (em', _). IsScanned em') services
      → NodupKeys services
      → after em name old (construct_delete_events lambdas services)
        ≡ (if has em name services && not (has em name lambdas) then false else old)
  unfolding construct_delete_events has lookup
  after-construct_delete_events [] old _ _ = unfold after in ground arith
  after-construct_delete_events ((em', d) ∷ services) old (h, hs) (fresh, u) =
      rw (after-append em name (delete_loop lambdas em' d)) (
        ground (
          arith,
          after-delete_loop em' d old h,
          after-construct_delete_events services old hs u,
          after-construct_delete_events services false hs u,
        ))

has-find :
    (em : EnterpriseMeta) (name : Text) (lambdas : EventMap)
    → (has em name lambdas ≡ true) ↔ (find em name lambdas ≢ none)
unfolding has find contains
has-find em name lambdas = ground arith

-- Let every event be filed once, under its own metadata and name, and what was read of Consul
-- have one entry for each scanned partition and namespace. Once the plan has been carried out,
-- Consul holds a service exactly if the functions ask for it.
pub after-plan :
    (lambdas : EventMap) (services : ServiceMap) (em : EnterpriseMeta) (name : Text)
    → IsPlannable lambdas services
    → after em name (has em name services) (plan lambdas services) ≡ wanted em name lambdas
unfolding plan wanted
after-plan lambdas services em name h =
    rw (after-append em name (construct_upsert_events lambdas services)) (
      ground (
        arith,
        after-construct_upsert_events services em name lambdas h.keyed,
        after-construct_delete_events lambdas em name services
            (settle (find em name lambdas) (has em name services)) h.scanned h.nodup,
        has-find em name lambdas,
      ))
