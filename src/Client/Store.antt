-- ===== src/Client/Store.antt =====
-- The client is a store: what is set is read back, and a tier is asked for only for large values.
use terraform_aws_consul_lam.Prelude.{
  ◌≡◌, ◌≢◌, ◌↔◌, refl, ◌∙◌, ◌<◌, ◌||◌, Text, ◌==◌, text_eq, Bool, true, false, Option, none, some,
  List, [], ◌∷◌, length, arith, if◌then◌else◌, Bool-cases, inl, inr,
}
use terraform_aws_consul_lam.Errors.{ok}
use terraform_aws_consul_lam.Client.{
  SsmApi, PutParameter, get, set, request_tier, match_tier, equal_fold,
}

-- What the client relies on: a parameter that was put is there, and no other is touched.
pub record IsParameterStore (api : SsmApi) : Type 0 where
  pub value_at : api.State → Text → Option Text
  pub get-put :
      (p : PutParameter) (s : api.State) (key : Text)
      → p.overwrite ≡ true
      → (api.put_parameter p s).0 ≡ ok tt
      → value_at (api.put_parameter p s).1 key
        ≡ (if key == p.name then some p.value else value_at s key)
  pub get_parameter-value :
      (key v : Text) (s : api.State)
      → value_at s key ≡ some v
      → (api.get_parameter key true s).0 ≡ ok (some v)

self_lem : (key : Text) (a b : Option Text) → (if key == key then a else b) ≡ a
self_lem key a b = ground arith

module _ (api : SsmApi) (L : IsParameterStore api) where
  -- Over an API that keeps what is put, a value that was set without an error is read back, in
  -- any tier and over whatever was there.
  pub get-set :
      (tier key value : Text) (s : api.State)
      → (set api tier key value s).0 ≡ ok tt
      → (get api key (set api tier key value s).1).0 ≡ ok value
  unfolding get set
  get-set tier key value s done =
      let p : PutParameter = record {
        name = key;
        value = value;
        overwrite = true;
        secure = true;
        tier = request_tier api.tiers tier value;
      } in
      let found = L.get-put p s key refl done ∙ self_lem key (some value) (L.value_at s key) in
      rw (L.get_parameter-value key value (api.put_parameter p s).1 found) refl

-- Whether some value of the API matches the tier
pub any_match : Text → List Text → Bool
any_match tier [] = false
any_match tier (v ∷ vs) = equal_fold tier v || any_match tier vs

match_tier_found :
    (tier : Text) (values : List Text) (found : Option Text)
    → found ≢ none
    → match_tier tier values found ≢ none
unfolding match_tier
match_tier_found tier [] found h = h
match_tier_found tier (v ∷ vs) found h = elim (Bool-cases (equal_fold tier v)) [
  | inl m ↦ rw (m, match_tier) (match_tier_found tier vs (some v) (λ e. cc))
  | inr m ↦ rw (m, match_tier) (match_tier_found tier vs found h)
]

match_tier_iff :
    (tier : Text) (values : List Text)
    → (match_tier tier values none ≢ none) ↔ (any_match tier values ≡ true)
unfolding match_tier any_match
match_tier_iff tier [] = (λ h. absurd (h refl), λ h. cc)
match_tier_iff tier (v ∷ vs) = elim (Bool-cases (equal_fold tier v)) [
  | inl m ↦ rw (m, match_tier) (λ _. refl, λ _. match_tier_found tier vs (some v) (λ e. cc))
  | inr m ↦ rw (m, match_tier) (match_tier_iff tier vs)
]

-- A request names a tier exactly if the client has one, the value is longer than 4096 bytes and the
-- API knows the tier. A tier that is configured is not used for smaller values.
pub request_tier_iff :
    (tiers : List Text) (tier value : Text)
    → (request_tier tiers tier value ≢ none)
      ↔ ((tier ≢ []) × (4096 < length value) × (any_match tier tiers ≡ true))
unfolding request_tier
request_tier_iff tiers tier value = ground (arith, match_tier_iff tier tiers)
