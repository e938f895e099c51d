-- ===== src/Tests/Client.antt =====
-- The client of Parameter Store on an in-memory API.
use terraform_aws_consul_lam.Prelude.{◌≡◌, refl, ap, Text, text, text_eq, List, [], ◌∷◌}
use terraform_aws_consul_lam.Prelude.Dict.{Dict, lookup, insert, erase, lookup-insert}
use terraform_aws_consul_lam.Errors.{ok}
use terraform_aws_consul_lam.Client.{SsmApi, get, set}
use terraform_aws_consul_lam.Client.Store.{IsParameterStore, get-set}

abbrev tier_names : List Text
tier_names = text "Standard" ∷ text "Advanced" ∷ []

abbrev store : SsmApi
store = record {
  State = Dict Text Text;
  put_parameter = λ p s. (ok tt, insert p.name p.value s);
  get_parameter = λ key _ s. (ok (lookup key s), s);
  delete_parameter = λ key s. (ok tt, erase key s);
  tiers = tier_names;
}

store-IsParameterStore : IsParameterStore store
store-IsParameterStore = record {
  value_at = λ s key. lookup key s;
  get-put = λ p s key _ _. lookup-insert key p.name p.value s;
  get_parameter-value = λ key v s h. ap ok h;
}

set_done : (set store (text "Advanced") (text "k") (text "v") []).0 ≡ ok tt
unfolding set
set_done = refl

get-set_example :
    (get store (text "k") (set store (text "Advanced") (text "k") (text "v") []).1).0
    ≡ ok (text "v")
get-set_example =
    get-set store store-IsParameterStore (text "Advanced") (text "k") (text "v") [] set_done
