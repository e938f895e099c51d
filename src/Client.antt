-- ===== src/Client.antt =====
-- consul-lambda/client/ssm.go: the client of Parameter Store that both programs use.
pub mod Store
use terraform_aws_consul_lam.Prelude.{
  ℕ, ◌+◌, ◌-◌, Text, ◌==◌, text_eq, Bool, true, false, not, ◌&&◌, Option, none, some, List, [], ◌∷◌,
  length, ltb, leb, eqb, if◌then◌else◌,
}
use terraform_aws_consul_lam.Errors.{Result, ok, err, parameter_missing}
use terraform_aws_consul_lam.Exec.{Exec, pure, raise, ◌>>=◌}

-- `ssm.PutParameterInput`; the type is `SecureString` in every request.
pub record PutParameter : Type 0 where
  pub name : Text
  pub value : Text
  pub overwrite : Bool
  pub secure : Bool
  pub tier : Option Text

-- The calls of the SSM client, which this repository does not implement
pub record SsmApi : Type 1 where
  pub State : Type 0
  pub put_parameter : PutParameter → Exec State Unit
  -- `GetParameter` of a name, with decryption or without; the value may be nil.
  pub get_parameter : Text → Bool → Exec State (Option Text)
  pub delete_parameter : Text → Exec State Unit
  -- `types.ParameterTierStandard.Values()`
  pub tiers : List Text

unfoldable pub lower : ℕ → ℕ
lower c = if leb b'A' c && leb c b'Z' then c + 32 else c

-- `strings.EqualFold`, on ASCII texts
unfoldable pub equal_fold : Text → Text → Bool
unfolding lower
equal_fold [] [] = true
equal_fold [] (_ ∷ _) = false
equal_fold (_ ∷ _) [] = false
equal_fold (a ∷ s) (b ∷ t) = eqb (lower a) (lower b) && equal_fold s t

-- The loop over the values: the last one that matches is kept.
unfoldable pub match_tier : Text → List Text → Option Text → Option Text
match_tier tier [] found = found
match_tier tier (value ∷ values) found =
    match_tier tier values (if equal_fold tier value then some value else found)

-- The tier of a request, none for the client's default
unfoldable pub request_tier : List Text → Text → Text → Option Text
unfolding match_tier
request_tier tiers tier value =
    if not (tier == []) && ltb 4096 (length value) then match_tier tier tiers none else none

module _ (api : SsmApi) where
  open api use {State, put_parameter, get_parameter, delete_parameter, tiers}

  -- `SSMClient.Delete`
  unfoldable pub delete : Text → Exec State Unit
  delete key = delete_parameter key

  required : Text → Option Text → Exec State Text
  required key none = raise (parameter_missing key)
  required key (some value) = pure value

  -- `SSMClient.Get`
  unfoldable pub get : Text → Exec State Text
  unfolding required
  get key = do value ← get_parameter key true; required key value

  -- `SSMClient.Set`, of a client with a tier
  unfoldable pub set : Text → Text → Text → Exec State Unit
  set tier key value = put_parameter (record {
    name = key;
    value = value;
    overwrite = true;
    secure = true;
    tier = request_tier tiers tier value;
  })
