-- ===== src/ExampleFunction/Goroutines/Progress.antt =====
-- `lambdaToMesh` comes to its end, and which of its goroutines do not.
use terraform_aws_consul_lam.Prelude.{
  ℕ, suc, ◌+◌, ◌*◌, ◌<◌, ◌≤◌, ◌≡◌, ◌⊎◌, inl, inr, refl, sym, ap, ◌∙◌, subst, Option, none, some,
  List, [], ◌∷◌, length, length-append, arith,
}
use terraform_aws_consul_lam.Prelude.Arrivals.{Inserted, at_head, In, further}
use terraform_aws_consul_lam.Prelude.Arrivals.Moves.{Inserted-length}
use terraform_aws_consul_lam.Errors.{Error, ok, err}
use terraform_aws_consul_lam.ExampleFunction.{UpstreamResponse, Message, Response}
use terraform_aws_consul_lam.ExampleFunction.Goroutines.{
  Call, started, Step, responds, fails, receives, receives_error, returns, Reach, here, later,
}

module _ {A : Type 0} where
  abbrev open_count : Option (Response A × Option Error) → ℕ
  open_count none = 1
  open_count (some _) = 0

  -- The most steps that are still to come
  abbrev pub left : Call A → ℕ
  left s = 2 * length s.calling + length s.blocked + length s.buffer + open_count s.result

  -- What the numbers of goroutines, of responses and of errors add up to
  record Counted (n : ℕ) (s : Call A) : Type 0 where
    room : length s.buffer + length s.calling + length s.collected ≤ n
    whole :
        s.result ≡ none
        → length s.buffer + length s.calling + length s.collected + length s.blocked ≡ n

  module _ {n : ℕ} {sort : List (UpstreamResponse A) → List (UpstreamResponse A)} where
    -- The steps of a run
    unfoldable pub steps_of : {s t : Call A} → Reach n sort s t → ℕ
    steps_of here = 0
    steps_of (later r st) = suc (steps_of r)

    Step-left : {s t : Call A} → Step n sort s t → left t < left s
    Step-left {s} (responds r others i room) =
        omega (arith, Inserted-length (ok r) i, length-append s.buffer (r ∷ []))
    Step-left {s} (fails e others i) = omega (arith, Inserted-length (err e) i)
    Step-left {s} (receives r rest h lt b) = omega (arith, ap length b)
    Step-left {s} (receives_error e others h lt i) =
        omega (arith, Inserted-length e i, ap open_count h)
    Step-left {s} (returns h full) = omega (arith, ap open_count h)

    steps-left : {s t : Call A} (r : Reach n sort s t) → steps_of r + left t ≤ left s
    unfolding steps_of
    steps-left here = omega arith
    steps-left (later r st) = omega (arith, steps-left r, Step-left st)

    Step-Counted : {s t : Call A} → Step n sort s t → Counted n s → Counted n t
    Step-Counted {s} (responds r others i room) c = record {
      room = omega (arith, c.room, Inserted-length (ok r) i, length-append s.buffer (r ∷ []));
      whole =
          λ h. omega (arith, c.whole h, Inserted-length (ok r) i, length-append s.buffer (r ∷ []));
    }
    Step-Counted {s} (fails e others i) c = record {
      room = omega (arith, c.room, Inserted-length (err e) i);
      whole = λ h. omega (arith, c.whole h, Inserted-length (err e) i);
    }
    Step-Counted {s} (receives r rest h lt b) c = record {
      room = omega (arith, c.room, ap length b, length-append s.collected (r ∷ []));
      whole = λ k. omega (arith, c.whole h, ap length b, length-append s.collected (r ∷ []));
    }
    Step-Counted {s} (receives_error e others h lt i) c = record { room = c.room; whole = λ k. cc }
    Step-Counted {s} (returns h full) c = record { room = c.room; whole = λ k. cc }

module _ {A : Type 0} (n : ℕ) (sort : List (UpstreamResponse A) → List (UpstreamResponse A)) where
  abbrev CanStep : Call A → Type 0
  CanStep s = (t : Call A) × Step n sort s t

  module _ (s : Call A) (c : Counted n s) (open_ : s.result ≡ none) where
    all_sent :
        (qs : List (UpstreamResponse A)) (es : List Error)
        → s.calling ≡ []
        → s.buffer ≡ qs
        → s.blocked ≡ es
        → CanStep s
    all_sent (q ∷ qs) es h hb he = (_, receives q qs open_ (omega (arith, c.room, ap length hb)) hb)
    all_sent [] (e ∷ es) h hb he = (
      _,
      receives_error e es open_ (omega (arith, c.whole open_, ap length he))
          (subst (Inserted e es) (sym he) (at_head refl)),
    )
    all_sent [] [] h hb he =
        (_, returns open_ (omega (arith, c.whole open_, ap length h, ap length hb, ap length he)))

    some_step : (ms : List (Message A)) → s.calling ≡ ms → CanStep s
    some_step [] h = all_sent s.buffer s.blocked h refl refl
    some_step (ok r ∷ ms) h = (
      _,
      responds r ms (subst (Inserted (ok r) ms) (sym h) (at_head refl))
          (omega (arith, c.room, ap length h)),
    )
    some_step (err e ∷ ms) h = (_, fails e ms (subst (Inserted (err e) ms) (sym h) (at_head refl)))

  ends_or_steps :
      (s : Call A) (o : Option (Response A × Option Error))
      → Counted n s
      → s.result ≡ o
      → ((r : Response A × Option Error) × (s.result ≡ some r)) ⊎ CanStep s
  ends_or_steps s none c h = inr (some_step s c h s.calling refl)
  ends_or_steps s (some r) c h = inl (r, h)

module _ {A : Type 0} (sort : List (UpstreamResponse A) → List (UpstreamResponse A))
    (ms : List (Message A)) where
  Reach-Counted : {s : Call A} → Reach (length ms) sort (started ms) s → Counted (length ms) s
  Reach-Counted here = record { room = omega arith; whole = λ h. omega arith }
  Reach-Counted (later r st) = Step-Counted st (Reach-Counted r)

-- Let every `http.Get` return, so that each goroutine of `lambdaToMesh` has a message to send,
-- whichever. Every run, under every schedule, has at most `2 * n + 1` steps for `n` upstreams, and as
-- long as `lambdaToMesh` has not returned, some step can be taken.
pub lambda_to_mesh_ends :
    {A : Type 0} (sort : List (UpstreamResponse A) → List (UpstreamResponse A))
    (ms : List (Message A)) {s : Call A} (run : Reach (length ms) sort (started ms) s)
    → (steps_of run ≤ 2 * length ms + 1)
      × (((r : Response A × Option Error) × (s.result ≡ some r))
          ⊎ ((t : Call A) × Step (length ms) sort s t))
lambda_to_mesh_ends sort ms {s} run = (
  omega (arith, steps-left run),
  ends_or_steps (length ms) sort s s.result (Reach-Counted sort ms run) refl,
)

module _ {A : Type 0} {n : ℕ} {sort : List (UpstreamResponse A) → List (UpstreamResponse A)} where
  Step-blocked :
      (e : Error) {s t : Call A} {r : Response A × Option Error}
      → Step n sort s t
      → s.result ≡ some r
      → In e s.blocked
      → (t.result ≡ some r) × In e t.blocked
  Step-blocked e (responds q others i room) h k = (h, k)
  Step-blocked e (fails x others i) h k = (h, further k)
  Step-blocked e (receives q rest none_ lt b) h k = (h, k)
  Step-blocked e (receives_error x others none_ lt i) h k = let j = sym none_ ∙ h in cc
  Step-blocked e (returns none_ full) h k = let j = sym none_ ∙ h in cc

-- A goroutine that waits to send its error when `lambdaToMesh` has returned waits for ever: in every
-- state that can follow, one with that error is still waiting.
pub blocked_forever :
    {A : Type 0} {n : ℕ} {sort : List (UpstreamResponse A) → List (UpstreamResponse A)}
    {s t : Call A} (r : Response A × Option Error) (e : Error)
    → s.result ≡ some r
    → In e s.blocked
    → Reach n sort s t
    → (t.result ≡ some r) × In e t.blocked
blocked_forever r e h k here = (h, k)
blocked_forever r e h k (later run st) =
    let (h', k') = blocked_forever r e h k run in Step-blocked e st h' k'
