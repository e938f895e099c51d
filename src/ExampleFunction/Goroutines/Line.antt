-- ===== src/ExampleFunction/Goroutines/Line.antt =====
-- The messages of the goroutines of `lambdaToMesh`, in an order in which they may be received.
use terraform_aws_consul_lam.Prelude.{
  suc, ◌≡◌, refl, sym, ap, ◌∙◌, subst, List, [], ◌∷◌, ◌++◌, length, append_assoc, append-nil, arith,
}
use terraform_aws_consul_lam.Prelude.Arrivals.{Inserted, at_head, deeper, Arrives}
use terraform_aws_consul_lam.Prelude.Arrivals.Moves.{
  Arrives-moved, Inserted-append, append-Inserted,
}
use terraform_aws_consul_lam.Errors.{Error, ok, err}
use terraform_aws_consul_lam.ExampleFunction.{UpstreamResponse, Message, collect}
use terraform_aws_consul_lam.ExampleFunction.Goroutines.{Call}

module _ {A : Type 0} where
  unfoldable pub sent : List (UpstreamResponse A) → List (Message A)
  sent [] = []
  sent (r ∷ rs) = ok r ∷ sent rs

  unfoldable pub refused : List Error → List (Message A)
  refused [] = []
  refused (e ∷ es) = err e ∷ refused es

  sent-append : (rs qs : List (UpstreamResponse A)) → sent (rs ++ qs) ≡ sent rs ++ sent qs
  unfolding sent
  sent-append [] qs = refl
  sent-append (r ∷ rs) qs = ap (λ ms. ok r ∷ ms) (sent-append rs qs)

  pub refused-Inserted :
      (e : Error) {es fs : List Error}
      → Inserted e es fs
      → Inserted (err e) (refused es) (refused fs)
  unfolding refused
  refused-Inserted e (at_head h) = at_head (ap err h)
  refused-Inserted e (deeper i) = deeper (refused-Inserted e i)

  -- The messages that have not been received, and all of them in an order in which they may be
  unfoldable pub pending : Call A → List (Message A)
  pending s = sent s.buffer ++ (refused s.blocked ++ s.calling)

  unfoldable pub line : Call A → List (Message A)
  unfolding pending
  line s = sent s.collected ++ pending s

  pub below :
      (s : Call A) (m : Message A) {xs ys : List (Message A)}
      → Inserted m xs ys
      → Inserted m
          (sent s.collected ++ (sent s.buffer ++ xs))
          (sent s.collected ++ (sent s.buffer ++ ys))
  below s m i = append-Inserted m (sent s.collected) (append-Inserted m (sent s.buffer) i)

  pub responds_line :
      (ms : List (Message A)) (s : Call A) (r : UpstreamResponse A) (others : List (Message A))
      → Inserted (ok r) others s.calling
      → Arrives ms (line s)
      → Arrives ms (line (record s { calling = others; buffer = s.buffer ++ (r ∷ []) }))
  unfolding line sent
  responds_line ms s r others i h =
      let rest = refused s.blocked ++ others in
      let from = below s (ok r) (append-Inserted (ok r) (refused s.blocked) i) in
      let same : sent (s.buffer ++ (r ∷ [])) ++ rest ≡ sent s.buffer ++ (ok r ∷ rest) =
        ap (λ x. x ++ rest) (sent-append s.buffer (r ∷ []))
        ∙ append_assoc (sent s.buffer) (ok r ∷ []) rest in
      let to =
        append-Inserted (ok r) (sent s.collected) (Inserted-append (ok r) (sent s.buffer) rest) in
      subst (λ x. Arrives ms (sent s.collected ++ x)) (sym same) (Arrives-moved (ok r) h from to)

  pub fails_line :
      (ms : List (Message A)) (s : Call A) (e : Error) (others : List (Message A))
      → Inserted (err e) others s.calling
      → Arrives ms (line s)
      → Arrives ms (line (record s { calling = others; blocked = e ∷ s.blocked }))
  unfolding line refused
  fails_line ms s e others i h =
      Arrives-moved (err e) h (below s (err e) (append-Inserted (err e) (refused s.blocked) i))
        (below s (err e) (at_head refl))

  pub receives_line :
      (s : Call A) (r : UpstreamResponse A) (rest : List (UpstreamResponse A))
      → s.buffer ≡ r ∷ rest
      → line (record s { buffer = rest; collected = s.collected ++ (r ∷ []) }) ≡ line s
  unfolding line sent
  receives_line s r rest h =
      let after = refused s.blocked ++ s.calling in
      ap (λ x. x ++ (sent rest ++ after)) (sent-append s.collected (r ∷ []))
      ∙ append_assoc (sent s.collected) (ok r ∷ []) (sent rest ++ after)
      ∙ ap (λ b. sent s.collected ++ (sent b ++ after)) (sym h)

  pub collect-sent :
      (rs done : List (UpstreamResponse A)) (ms : List (Message A))
      → collect (sent rs ++ ms) done ≡ collect ms (done ++ rs)
  unfolding collect sent
  collect-sent [] done ms = ap (collect ms) (sym (append-nil done))
  collect-sent (r ∷ rs) done ms =
      collect-sent rs (done ++ (r ∷ [])) ms ∙ ap (collect ms) (append_assoc done (r ∷ []) rs)

  pub length-sent : (rs : List (UpstreamResponse A)) → length (sent rs) ≡ length rs
  unfolding sent
  length-sent [] = refl
  length-sent (r ∷ rs) = ap suc (length-sent rs)

  pub nothing_left : (ms : List (Message A)) → length ms ≡ 0 → ms ≡ []
  nothing_left [] h = refl
  nothing_left (m ∷ ms) h = absurd (omega arith)

  pub Inserted-append_right :
      (m : Message A) (after : List (Message A)) {xs ys : List (Message A)}
      → Inserted m xs ys
      → Inserted m (xs ++ after) (ys ++ after)
  Inserted-append_right m after (at_head e) = at_head e
  Inserted-append_right m after (deeper i) = deeper (Inserted-append_right m after i)
