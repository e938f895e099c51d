-- ===== src/ExampleFunction/Goroutines.antt =====
-- examples/lambda/src/lambda/main.go: `lambdaToMesh` with its goroutines, one for each upstream, and
-- its two channels: `respChan` with a buffer of that many responses, and `errChan` without one. Every
-- `http.Get` is taken to return: a goroutine always comes to have a message.
pub mod Line
pub mod Outcomes
pub mod Progress
use terraform_aws_consul_lam.Prelude.{
  ℕ, ◌+◌, ◌<◌, ◌≡◌, Text, Option, none, some, List, [], ◌∷◌, ◌++◌, length,
}
use terraform_aws_consul_lam.Prelude.Arrivals.{Inserted}
use terraform_aws_consul_lam.Errors.{Error, ok, err}
use terraform_aws_consul_lam.ExampleFunction.{UpstreamResponse, Message, Response, respond}

-- `calling` are the goroutines that have not got to their channel, each with what it will send;
-- `blocked` those that wait in their send on `errChan`. `collected` is the variable `responses`.
pub record Call (A : Type 0) : Type 0 where
  pub calling : List (Message A)
  pub blocked : List Error
  pub buffer : List (UpstreamResponse A)
  pub collected : List (UpstreamResponse A)
  pub result : Option (Response A × Option Error)

-- All goroutines have been started.
abbrev pub started : {A : Type 0} → List (Message A) → Call A
started sends = record { calling = sends; blocked = []; buffer = []; collected = []; result = none }

-- A step for `n` upstreams. Where both channels can be read, `select` may read either.
module _ {A : Type 0} (n : ℕ) (sort : List (UpstreamResponse A) → List (UpstreamResponse A)) where
  pub data Step (s : Call A) : Call A → Type 0 where
    responds :
        (r : UpstreamResponse A) (others : List (Message A))
        → Inserted (ok r) others s.calling
        → length s.buffer < n
        → Step s (record s { calling = others; buffer = s.buffer ++ (r ∷ []) })
    fails :
        (e : Error) (others : List (Message A))
        → Inserted (err e) others s.calling
        → Step s (record s { calling = others; blocked = e ∷ s.blocked })
    receives :
        (r : UpstreamResponse A) (rest : List (UpstreamResponse A))
        → s.result ≡ none
        → length s.collected < n
        → s.buffer ≡ r ∷ rest
        → Step s (record s { buffer = rest; collected = s.collected ++ (r ∷ []) })
    receives_error :
        (e : Error) (others : List Error)
        → s.result ≡ none
        → length s.collected < n
        → Inserted e others s.blocked
        → Step s (record s { blocked = others; result = some (respond sort (err e)) })
    -- The loop has ended.
    returns :
        s.result ≡ none
        → length s.collected ≡ n
        → Step s (record s { result = some (respond sort (ok s.collected)) })

  pub data Reach (s : Call A) : Call A → Type 0 where
    here : Reach s s
    later : {t u : Call A} → Reach s t → Step t u → Reach s u
