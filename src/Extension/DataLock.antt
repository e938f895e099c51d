-- ===== src/Extension/DataLock.antt =====
-- consul-lambda/consul-lambda-extension/extension.go: the read-write lock round the extension's
-- data. `refreshExtensionData` calls `getExtensionData` again and again, and any number of dials hold
-- the lock for reading meanwhile.
pub mod Consistent
use terraform_aws_consul_lam.Prelude.{
  ℕ, ◌≡◌, Text, Bool, true, false, not, Option, none, some, List, [], ◌∷◌, ◌++◌, if◌then◌else◌,
}
use terraform_aws_consul_lam.Prelude.Threads.{set_at}
use terraform_aws_consul_lam.Errors.{Result, ok, err}
use terraform_aws_consul_lam.Structs.{Service, ExtensionData, equals}
use terraform_aws_consul_lam.Extension.{Extension, set_trust_domain}

-- What `getExtensionData` does next. Its flag is whether the call holds the lock.
pub data Pc : Type 0 where
  called first_lock : Pc
  fetching leaving unlocking : Bool → Pc
  -- The new data waits for the lock, and is stored.
  data_lock storing : ExtensionData → Pc
  -- The loop over the upstreams: those that have the new trust domain, and those to come
  writing : ExtensionData → List Service → List Service → Pc

-- What becomes of fetched data
after_fetch : Bool → Result ExtensionData → Extension → Pc
after_fetch held (err e) ext = leaving held
after_fetch held (ok d) ext =
    if equals d ext.data_held
    then leaving held
    else if ext.data_init
    then data_lock d
    else storing d

-- A step that does not take the lock or give it back, where `r` is the decoded answer of the store
unfoldable pub advance : Result ExtensionData → Pc → Extension → Option (Extension × Pc)
unfolding after_fetch
advance r called ext = some (ext, if ext.data_init then fetching false else first_lock)
advance r first_lock ext = none
advance r (fetching held) ext = some (ext, after_fetch held r ext)
advance r (leaving held) ext = some (record ext { data_init = true }, unlocking held)
advance r (unlocking held) ext = if held then none else some (ext, called)
advance r (data_lock d) ext = none
advance r (storing d) ext = some (record ext { data_held = d }, writing d [] ext.upstreams)
advance r (writing d done []) ext = some (ext, leaving true)
advance r (writing d done (up ∷ rest)) ext =
    let new = set_trust_domain ext.data_held.trust_domain up in
    some (record ext { upstreams = done ++ (new ∷ rest) }, writing d (done ++ (new ∷ [])) rest)

-- `locked` is that the lock is held for writing, `dialing` which dials hold it for reading.
pub record System : Type 0 where
  pub ext : Extension
  pub pc : Pc
  pub locked : Bool
  pub dialing : ℕ → Bool

pub data Step (s : System) : System → Type 0 where
  advances :
      (r : Result ExtensionData) {ext : Extension} {p : Pc}
      → advance r s.pc s.ext ≡ some (ext, p)
      → Step s (record s { ext = ext; pc = p })
  locks_first :
      s.pc ≡ first_lock
      → s.locked ≡ false
      → ((i : ℕ) → s.dialing i ≡ false)
      → Step s (record s { pc = fetching true; locked = true })
  locks_data :
      (d : ExtensionData)
      → s.pc ≡ data_lock d
      → s.locked ≡ false
      → ((i : ℕ) → s.dialing i ≡ false)
      → Step s (record s { pc = storing d; locked = true })
  unlocks : s.pc ≡ unlocking true → Step s (record s { pc = called; locked = false })
  dials :
      (i : ℕ)
      → s.locked ≡ false
      → s.dialing i ≡ false
      → Step s (record s { dialing = set_at i true s.dialing })
  ends_dial :
      (i : ℕ) → s.dialing i ≡ true → Step s (record s { dialing = set_at i false s.dialing })

-- The upstreams have been parsed, and `refreshExtensionData` has been started.
abbrev pub init : Extension → System
init ext = record { ext = ext; pc = called; locked = false; dialing = λ _. false }

pub data Reach (s : System) : System → Type 0 where
  here : Reach s s
  later : {t u : System} → Reach s t → Step t u → Reach s u
