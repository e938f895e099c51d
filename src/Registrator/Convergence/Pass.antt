-- ===== src/Registrator/Convergence/Pass.antt =====
-- The theorems on a full pass: what it makes of the catalog, and when it plans nothing.
use terraform_aws_consul_lam.Prelude.{
  ◌≡◌, ◌≢◌, sym, ap, subst, ◌∙◌, Text, Bool, true, false, none, List, [], ◌∷◌, ◌==◌, arith, All,
  inl, inr, Bool-cases, if◌then◌else◌,
}
use terraform_aws_consul_lam.Prelude.Dict.{Dict}
use terraform_aws_consul_lam.Errors.{ok}
use terraform_aws_consul_lam.Structs.{EnterpriseMeta, em_eq}
use terraform_aws_consul_lam.Registrator.Config.{Config}
use terraform_aws_consul_lam.Registrator.Event.{Event}
use terraform_aws_consul_lam.Registrator.Platform.{Platform}
use terraform_aws_consul_lam.Registrator.Trigger.{LambdaFunction}
use terraform_aws_consul_lam.Registrator.Sync.{
  ServiceMap, get_consul_services, collect, full_sync_data, get_enterprise_metas,
}
use terraform_aws_consul_lam.Registrator.Sync.View.{
  after, has, find, settle, wanted, IsPlannable, IsScanned, find-nil,
}
use terraform_aws_consul_lam.Registrator.Sync.Plan.{after-plan}
use terraform_aws_consul_lam.Registrator.Sync.Settled.{plan-eq-nil}
use terraform_aws_consul_lam.Registrator.Sync.Collect.{
  collect-IsKeyed, find-collect, last_event, all_events,
}
use terraform_aws_consul_lam.Registrator.Sync.Events.{collect-AllOf, plan-All}
use terraform_aws_consul_lam.Registrator.Sync.Inversion.{FullSync, full_sync_data-eq-ok}
use terraform_aws_consul_lam.Registrator.Handler.{process}
use terraform_aws_consul_lam.Registrator.Convergence.Laws.{IsConsul}
use terraform_aws_consul_lam.Registrator.Convergence.Carry.{IsLocalEvent, kept, view-process}
use terraform_aws_consul_lam.Registrator.Convergence.Own.{
  Scans, registered, OwnsTag, Scans-IsScanned,
}
use terraform_aws_consul_lam.Registrator.Convergence.Read.{
  member, has-get_consul_services, get_consul_services-Keeps, get_enterprise_metas-Scans,
  Keeps-OwnsTag, get_enterprise_metas-Keeps, get_consul_services-IsReading,
  get_consul_services_only,
}
use terraform_aws_consul_lam.Registrator.Convergence.Local.{AllLocal, all_local, orphans_local}

scanned_lem :
    (env : Config) (found : ServiceMap)
    → All (λ (em, _). Scans env em) found
    → All (λ (em, _). IsScanned em) found
scanned_lem env [] _ = tt
scanned_lem env ((em, _) ∷ found) (h, hs) = (Scans-IsScanned env em h, scanned_lem env found hs)

member-All :
    (Q : EnterpriseMeta → Type 0) (em : EnterpriseMeta) (metas : List EnterpriseMeta)
    → All Q metas
    → member em metas ≡ true
    → Q em
unfolding member
member-All Q em [] _ h = cc
member-All Q em (x ∷ metas) (q, qs) h = elim (Bool-cases (em == x)) [
  | inl e ↦ let same : em ≡ x = ground arith in rw same q
  | inr e ↦ member-All Q em metas qs (ground (arith, e, h))
]

-- Whether the last event of the functions for a service is an upsert
abbrev pub asked : Config → Dict Text LambdaFunction → EnterpriseMeta → Text → Bool
asked env fns em name = settle (last_event em name none (all_events env fns)) false

module _ (P : Platform) (env : Config) (local : Text) (L : IsConsul P local) where
  abbrev view : P.State → EnterpriseMeta → Text → Bool
  view = registered P env local L

  -- What a full pass plans is plannable, and all of it is local.
  pub record IsSound (s : P.State) (events : List Event) (pass : FullSync P env s events)
      : Type 0 where
    pub plannable : IsPlannable (collect env pass.fns ([], none)).0 pass.found
    pub local_events : All (IsLocalEvent env local) events
    pub scans : All (Scans env) pass.metas
    pub seen :
        (em : EnterpriseMeta) (name : Text)
        → member em pass.metas ≡ true
        → has em name pass.found ≡ view (full_sync_data P env s).1 em name
    pub unchanged :
        (em : EnterpriseMeta) (name : Text)
        → view (full_sync_data P env s).1 em name ≡ view s em name

  FullSync-IsSound :
      (s : P.State) (events : List Event) (pass : FullSync P env s events)
      → OwnsTag P env local L s
      → All (λ (p, _). p ≢ []) env.partitions
      → AllLocal env local pass.fns
      → IsSound s events pass
  FullSync-IsSound s events pass own named near =
      let s1 = (P.list_functions s).1 in
      let s2 = (get_enterprise_metas P env s1).1 in
      let scans = get_enterprise_metas-Scans P env local L pass.metas s1 named pass.scanned in
      let own1 = Keeps-OwnsTag P env local L P.list_functions s L.list_functions_keeps own in
      let own2 =
        Keeps-OwnsTag P env local L (get_enterprise_metas P env) s1
          (get_enterprise_metas-Keeps P env local L) own1 in
      let reading =
        get_consul_services-IsReading P env local L pass.metas pass.found s2 scans own2 pass.read in
      record {
        plannable = record {
          keyed = collect-IsKeyed env pass.fns [] none tt;
          scanned = scanned_lem env pass.found reading.scanned;
          nodup = reading.nodup;
        };
        local_events = subst (All (IsLocalEvent env local)) (sym pass.planned) (
            plan-All (IsLocalEvent env local) _ pass.found
              (collect-AllOf (IsLocalEvent env local) env pass.fns [] none tt
                (all_local env local pass.fns near))
              (orphans_local env local pass.found reading.scanned reading.named));
        scans = scans;
        seen = λ em name m.
            has-get_consul_services P env local L pass.metas pass.found s2 em name scans own2
              pass.read m
            ∙ ap (λ x. view x em name) (sym pass.end_state);
        unchanged = λ em name.
            ap (λ x. view x em name) pass.end_state
            ∙ kept P env local L (get_consul_services P pass.metas)
                (get_consul_services-Keeps P env local L pass.metas) s2 em name
            ∙ kept P env local L (get_enterprise_metas P env)
                (get_enterprise_metas-Keeps P env local L) s1 em name
            ∙ kept P env local L P.list_functions L.list_functions_keeps s em name;
      }

ok_injective : {A : Type 0} (a b : A) → ok a ≡ ok b → a ≡ b
ok_injective a b h = cc

wanted-collect :
    (env : Config) (fns : Dict Text LambdaFunction) (em : EnterpriseMeta) (name : Text)
    → wanted em name (collect env fns ([], none)).0 ≡ asked env fns em name
unfolding wanted find
wanted-collect env fns em name =
    ap (λ o. settle o false) (find-collect env em name fns [] none ∙ rw find-nil)

module _ (P : Platform) (env : Config) (local : Text) (L : IsConsul P local) where
  -- Let Consul behave as `IsConsul` says, nobody but the registrator use its tag (`OwnsTag`), every
  -- managed partition have a name, and every function have a name and be in the local datacenter,
  -- by its tag or by default. If the calls of a full pass and of every event in it succeed, then
  -- in every partition and namespace that is scanned Consul holds a service on the registrator's
  -- node, under its own name and with the tag, exactly if the last event of the functions for it
  -- is an upsert, whatever it held before.
  pub full_sync_converges :
      (fns : Dict Text LambdaFunction) (metas : List EnterpriseMeta) (s : P.State)
      (events : List Event)
      → (P.list_functions s).0 ≡ ok fns
      → (get_enterprise_metas P env (P.list_functions s).1).0 ≡ ok metas
      → (full_sync_data P env s).0 ≡ ok events
      → (process P env events none (full_sync_data P env s).1).0 ≡ none
      → OwnsTag P env local L s
      → All (λ (p, _). p ≢ []) env.partitions
      → AllLocal env local fns
      → (em : EnterpriseMeta) (name : Text) → member em metas ≡ true
      → registered P env local L (process P env events none (full_sync_data P env s).1).1 em name
        ≡ asked env fns em name
  full_sync_converges fns metas s events listed scanned planned done own named near em name m =
      let pass = full_sync_data-eq-ok P env s events planned in
      let same_fns = ok_injective fns pass.fns (sym listed ∙ pass.listed) in
      let same_metas = ok_injective metas pass.metas (sym scanned ∙ pass.scanned) in
      let sound =
        FullSync-IsSound P env local L s events pass own named
          (subst (AllLocal env local) same_fns near) in
      view-process P env local L events (full_sync_data P env s).1 sound.local_events done em name
        (member-All (Scans env) em pass.metas sound.scans (rw (← same_metas) m))
      ∙ ap (λ b. after em name b events) (sym (sound.seen em name (rw (← same_metas) m)))
      ∙ ap (after em name (has em name pass.found)) pass.planned
      ∙ after-plan _ pass.found em name sound.plannable
      ∙ wanted-collect env pass.fns em name
      ∙ ap (λ x. asked env x em name) (sym same_fns)

  has_lem :
      (s : P.State) (events : List Event) (pass : FullSync P env s events)
      → IsSound P env local L s events pass
      → (em : EnterpriseMeta) (name : Text)
      → asked env pass.fns em name
        ≡ (if member em pass.metas then registered P env local L s em name else false)
      → has em name pass.found ≡ asked env pass.fns em name
  has_lem s events pass sound em name h = elim (Bool-cases (member em pass.metas)) [
    | inl m ↦ sound.seen em name m ∙ sound.unchanged em name ∙ sym (h ∙ rw m)
    | inr m ↦
        get_consul_services_only P env local L pass.metas pass.found _ em name pass.read m
        ∙ sym (h ∙ rw m)
  ]

  -- Let Consul behave as `IsConsul` says, nobody but the registrator use its tag (`OwnsTag`), every
  -- managed partition have a name, and every function have a name and be in the local datacenter.
  -- If Consul holds on the registrator's node the services that the functions ask for where it is
  -- scanned, and they ask for nothing elsewhere, then a full pass whose calls succeed plans no
  -- event.
  pub full_sync_stable :
      (fns : Dict Text LambdaFunction) (metas : List EnterpriseMeta) (s : P.State)
      (events : List Event)
      → (P.list_functions s).0 ≡ ok fns
      → (get_enterprise_metas P env (P.list_functions s).1).0 ≡ ok metas
      → (full_sync_data P env s).0 ≡ ok events
      → OwnsTag P env local L s
      → All (λ (p, _). p ≢ []) env.partitions
      → AllLocal env local fns
      → ((em : EnterpriseMeta) (name : Text)
          → asked env fns em name
            ≡ (if member em metas then registered P env local L s em name else false))
      → events ≡ []
  full_sync_stable fns metas s events listed scanned planned own named near settled =
      let pass = full_sync_data-eq-ok P env s events planned in
      let same_fns = ok_injective fns pass.fns (sym listed ∙ pass.listed) in
      let same_metas = ok_injective metas pass.metas (sym scanned ∙ pass.scanned) in
      let sound =
        FullSync-IsSound P env local L s events pass own named
          (subst (AllLocal env local) same_fns near) in
      pass.planned
      ∙ plan-eq-nil _ pass.found sound.plannable λ em name.
        has_lem s events pass sound em name (rw (same_fns, same_metas) at (settled em name))
        ∙ sym (wanted-collect env pass.fns em name)
