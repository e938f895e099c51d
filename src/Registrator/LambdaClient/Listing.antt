-- ===== src/Registrator/LambdaClient/Listing.antt =====
-- What `ListFunctions` returns.
use terraform_aws_consul_lam.Prelude.{
  ◌≡◌, refl, ap, ◌∙◌, Text, ◌==◌, text_eq, Option, some, List, [], ◌∷◌, if◌then◌else◌, inl, inr,
}
use terraform_aws_consul_lam.Prelude.Dict.{Dict, lookup, lookup-insert}
use terraform_aws_consul_lam.Errors.{Error, Result, ok, err, Result-cases}
use terraform_aws_consul_lam.Exec.{Exec}
use terraform_aws_consul_lam.Registrator.Trigger.{LambdaFunction}
use terraform_aws_consul_lam.Registrator.LambdaClient.{
  FunctionOutput, get_function, page_loop, list_functions,
}

abbrev pub function_of : FunctionOutput → LambdaFunction
function_of fn = record { arn = fn.function_arn; name = fn.function_name; tags = fn.tags }

-- Pages that all arrive
abbrev pub pages_of : List (List Text) → List (Result (List Text))
pages_of [] = []
pages_of (p ∷ ps) = ok p ∷ pages_of ps

module _ (fetch : Text → Result FunctionOutput) where
  abbrev fetched : Text → Option LambdaFunction → Result FunctionOutput → Option LambdaFunction
  fetched arn old (ok fn) = if arn == fn.function_arn then some (function_of fn) else old
  fetched arn old (err _) = old

  abbrev last_in_page : Text → Option LambdaFunction → List Text → Option LambdaFunction
  last_in_page arn old [] = old
  last_in_page arn old (a ∷ arns) = last_in_page arn (fetched arn old (fetch a)) arns

  -- The last function of the pages that was fetched with the ARN, or what was there before
  abbrev pub last_fetched : Text → Option LambdaFunction → List (List Text) → Option LambdaFunction
  last_fetched arn old [] = old
  last_fetched arn old (page ∷ pages) = last_fetched arn (last_in_page arn old page) pages

module _ {S : Type 0} (fetch : Text → Result FunctionOutput) where
  -- An account that does not change while it is listed
  abbrev pub steady : Text → Exec S FunctionOutput
  steady arn s = (fetch arn, s)

  lookup-page_loop :
      (arn : Text) (arns : List Text) (m : Dict Text LambdaFunction) (errs : Option Error) (s : S)
      → lookup arn (page_loop steady arns (m, errs) s).0.0
        ≡ last_in_page fetch arn (lookup arn m) arns
  unfolding page_loop get_function
  lookup-page_loop arn [] m errs s = refl
  lookup-page_loop arn (a ∷ arns) m errs s = elim (Result-cases (fetch a)) [
    | inl (fn, e) ↦
        rw (e, page_loop)
          (lookup-page_loop arn arns _ errs s
            ∙ ap (λ o. last_in_page fetch arn o arns)
                (lookup-insert arn fn.function_arn (function_of fn) m))
    | inr (x, e) ↦ rw (e, page_loop) (lookup-page_loop arn arns m _ s)
  ]

  -- In an account that does not change while it is listed, and if every page arrives, the
  -- listing succeeds, whatever the answers for the single functions: under an ARN it has the
  -- last function that was fetched with it, or what was there before. A function that was not
  -- fetched causes no error.
  pub list_functions_lem :
      (pages : List (List Text)) (m : Dict Text LambdaFunction) (errs : Option Error) (s : S)
      → (lambdas : Dict Text LambdaFunction) × ((list_functions steady
            (pages_of pages)
            (m, errs)
            s).0
          ≡ ok lambdas)
        × ((arn : Text) → lookup arn lambdas ≡ last_fetched fetch arn (lookup arn m) pages)
  unfolding list_functions
  list_functions_lem [] m errs s = (m, refl, λ arn. refl)
  list_functions_lem (page ∷ pages) m errs s =
      let acc = (page_loop steady page (m, errs) s).0 in
      let (lambdas, e, h) =
        list_functions_lem pages acc.0 acc.1 (page_loop steady page (m, errs) s).1 in
      (
        lambdas,
        e,
        λ arn.
            h arn ∙ ap (λ o. last_fetched fetch arn o pages) (lookup-page_loop arn page m errs s),
      )
