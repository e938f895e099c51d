-- ===== src/Extension/DataLock/Consistent.antt =====
-- A dial sees data and trust domains of one version.
use terraform_aws_consul_lam.Prelude.{
  ℕ, ◌≡◌, refl, sym, ap, ◌∙◌, subst, Text, Bool, true, false, not, some, List, [], ◌∷◌, ◌++◌,
  append_assoc, append-nil, All, All-append, arith,
}
use mathlib.Core.Bool.{false≢true}
use terraform_aws_consul_lam.Errors.{Result, ok}
use terraform_aws_consul_lam.Structs.{Service, ExtensionData}
use terraform_aws_consul_lam.Extension.{
  Config, Extension, new_extension, parse_upstreams, set_trust_domain,
}
use terraform_aws_consul_lam.Extension.Refresh.{InStep, parse_upstreams-InStep}
use terraform_aws_consul_lam.Extension.DataLock.{
  Pc, first_lock, fetching, leaving, unlocking, storing, writing, advance, System, Step, advances,
  locks_first, locks_data, unlocks, dials, ends_dial, init, Reach, here, later,
}

abbrev holds : Pc → Bool
holds (fetching held) = held
holds (leaving held) = held
holds (unlocking held) = held
holds (storing _) = true
holds (writing _ _ _) = true
holds _ = false

abbrev Follows : Text → List Service → Type 0
Follows td = All (λ up. up.trust_domain ≡ td)

-- What the extension looks like where `getExtensionData` stands
abbrev At : Extension → Pc → Type 0
At ext (writing d done rest) =
    (ext.data_held ≡ d) × (ext.upstreams ≡ done ++ rest) × Follows d.trust_domain done
At ext p = Follows ext.data_held.trust_domain ext.upstreams

-- A call holds the lock from the start exactly until the first has ended.
abbrev Initial : Extension → Pc → Type 0
Initial ext first_lock = ext.data_init ≡ false
Initial ext (fetching held) = held ≡ not ext.data_init
Initial ext _ = Unit

finish_lem :
    (d : ExtensionData) (ext : Extension) (done : List Service)
    → At ext (writing d done [])
    → Follows ext.data_held.trust_domain ext.upstreams
finish_lem d ext done (held, ups, new) = rw (ups, append-nil done) (rw held new)

write_lem :
    (d : ExtensionData) (ext : Extension) (done rest : List Service) (up : Service)
    → At ext (writing d done (up ∷ rest))
    → At
        (record ext { upstreams = done ++ (set_trust_domain ext.data_held.trust_domain up ∷ rest) })
        (writing d (done ++ (set_trust_domain ext.data_held.trust_domain up ∷ [])) rest)
write_lem d ext done rest up (held, ups, new) = (
  held,
  sym (append_assoc done (set_trust_domain ext.data_held.trust_domain up ∷ []) rest),
  All-append _ done _ new (ap (λ x. x.trust_domain) held, tt),
)

some_lem : {A : Type 0} {a b : A} → some a ≡ some b → a ≡ b
some_lem h = cc

advance-At :
    (r : Result ExtensionData) (p : Pc) (ext ext' : Extension) (p' : Pc)
    → At ext p
    → advance r p ext ≡ some (ext', p')
    → At ext' p'
unfolding advance
advance-At r (storing d) ext ext' p' o h = ground arith
advance-At r (writing d done []) ext ext' p' o h =
    let finished = finish_lem d ext done o in ground (arith, finished)
advance-At r (writing d done (up ∷ rest)) ext ext' p' o h =
    let next = write_lem d ext done rest up o in
    let same = some_lem h in subst (λ x. At x.0 x.1) same next
advance-At r p ext ext' p' o h = ground (arith, o)

advance-Initial :
    (r : Result ExtensionData) (p : Pc) (ext ext' : Extension) (p' : Pc)
    → Initial ext p
    → advance r p ext ≡ some (ext', p')
    → Initial ext' p'
unfolding advance
advance-Initial r p ext ext' p' o h = ground (arith, o)

advance-holds :
    (r : Result ExtensionData) (p : Pc) (ext ext' : Extension) (p' : Pc)
    → Initial ext p
    → advance r p ext ≡ some (ext', p')
    → holds p' ≡ holds p
unfolding advance
advance-holds r p ext ext' p' o h = ground (arith, o)

record Inv (s : System) : Type 0 where
  at : At s.ext s.pc
  initial : Initial s.ext s.pc
  lock : s.locked ≡ holds s.pc
  readers : (i : ℕ) → s.dialing i ≡ true → s.locked ≡ false

Step-Inv : {s t : System} → Step s t → Inv s → Inv t
Step-Inv {s} (advances r {ext} {p} h) v = record {
  at = advance-At r s.pc s.ext ext p v.at h;
  initial = advance-Initial r s.pc s.ext ext p v.initial h;
  lock = v.lock ∙ sym (advance-holds r s.pc s.ext ext p v.initial h);
  readers = v.readers;
}
Step-Inv {s} (locks_first e free none_dials) v = record {
  at = subst (At s.ext) e v.at;
  initial =
      let fresh : s.ext.data_init ≡ false = subst (Initial s.ext) e v.initial in
      ground (arith, fresh);
  lock = refl;
  readers = λ i h. absurd (false≢true (sym (none_dials i) ∙ h));
}
Step-Inv {s} (locks_data d e free none_dials) v = record {
  at = subst (At s.ext) e v.at;
  initial = tt;
  lock = refl;
  readers = λ i h. absurd (false≢true (sym (none_dials i) ∙ h));
}
Step-Inv {s} (unlocks e) v = record {
  at = subst (At s.ext) e v.at;
  initial = tt;
  lock = refl;
  readers = λ i h. refl;
}
Step-Inv {s} (dials i free out) v = record {
  at = v.at;
  initial = v.initial;
  lock = v.lock;
  readers = λ j h. free;
}
Step-Inv {s} (ends_dial i h) v = record {
  at = v.at;
  initial = v.initial;
  lock = v.lock;
  readers = λ j h'. v.readers i h;
}

Reach-Inv : {ext : Extension} {s : System} → InStep ext → Reach (init ext) s → Inv s
Reach-Inv k here = record { at = k.same; initial = tt; lock = refl; readers = λ i h. refl }
Reach-Inv k (later r st) = Step-Inv st (Reach-Inv k r)

unlocked-At :
    (ext : Extension) (p : Pc)
    → At ext p
    → holds p ≡ false
    → Follows ext.data_held.trust_domain ext.upstreams
unlocked-At ext p h free = ground (arith, h)

-- Let the upstreams of an extension parse. However its fetches and any number of dials are
-- interleaved, whatever is fetched: while a dial holds the lock, every upstream has the trust
-- domain of the data that the extension holds. No dial sees an update half done.
pub dialing-InStep :
    (cfg : Config) (ext : Extension) {s : System}
    → parse_upstreams (new_extension cfg) ≡ ok ext
    → Reach (init ext) s
    → (i : ℕ) → s.dialing i ≡ true
    → InStep s.ext
dialing-InStep cfg ext {s} parsed r i h =
    let v = Reach-Inv (parse_upstreams-InStep cfg ext parsed) r in
    record { same = unlocked-At s.ext s.pc v.at (sym v.lock ∙ v.readers i h) }
