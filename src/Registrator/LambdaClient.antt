-- ===== src/Registrator/LambdaClient.antt =====
-- lambda_client.go: the functions of an account, page by page.
pub mod Listing
use terraform_aws_consul_lam.Prelude.{Text, Option, none, some, List, [], ◌∷◌}
use terraform_aws_consul_lam.Prelude.Dict.{Dict, insert}
use terraform_aws_consul_lam.Prelude.{text_eq}
use terraform_aws_consul_lam.Errors.{Error, Result, ok, err, append_error, more_error}
use terraform_aws_consul_lam.Exec.{Exec, pure, ◌>>=◌}
use terraform_aws_consul_lam.Registrator.Trigger.{LambdaFunction, Tags}

-- What the program reads of `lambda.GetFunctionOutput`
pub record FunctionOutput : Type 0 where
  pub function_arn : Text
  pub function_name : Text
  pub tags : Tags

module _ {S : Type 0} (api_get : Text → Exec S FunctionOutput) where
  -- `GetFunction`
  unfoldable pub get_function : Text → Exec S LambdaFunction
  get_function arn = do
    fn ← api_get arn
    pure (record { arn = fn.function_arn; name = fn.function_name; tags = fn.tags })

  add_function :
      Dict Text LambdaFunction × Option Error
      → Result LambdaFunction
      → Dict Text LambdaFunction × Option Error
  add_function (lambdas, errs) (ok fn) = (insert fn.arn fn lambdas, errs)
  add_function (lambdas, errs) (err e) = (lambdas, append_error errs e)

  -- The loop over the functions of a page
  unfoldable pub page_loop :
      List Text
      → Dict Text LambdaFunction × Option Error
      → S
      → (Dict Text LambdaFunction × Option Error) × S
  unfolding add_function
  page_loop [] acc s = (acc, s)
  page_loop (arn ∷ arns) acc s =
      page_loop arns (add_function acc (get_function arn s).0) (get_function arn s).1

  -- `ListFunctions`, over the answers of `NextPage` for as long as `HasMorePages` holds: the ARNs of
  -- a page, or an error, which ends the loop. The last line returns no error, whatever was gathered.
  unfoldable pub list_functions :
      List (Result (List Text))
      → Dict Text LambdaFunction × Option Error
      → Exec S (Dict Text LambdaFunction)
  unfolding page_loop
  list_functions [] (lambdas, _) s = (ok lambdas, s)
  list_functions (err e ∷ _) (_, errs) s = (err (more_error errs e), s)
  list_functions (ok arns ∷ pages) acc s =
      list_functions pages (page_loop arns acc s).0 (page_loop arns acc s).1
