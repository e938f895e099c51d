-- ===== src/Proxy/Listener/Contract.antt =====
-- What a listener promises to those who hold it: its channels and what `Serve` returns, without the
-- goroutines, the locks, the socket and the wait group.
use terraform_aws_consul_lam.Prelude.{
  ℕ, ◌<◌, ◌≡◌, refl, subst, sym, ◌⊎◌, inl, inr, Bool, true, false, Bool-cases, Option, none, some,
  List, [], ◌∷◌, ◌++◌, length, ltb, arith, if◌then◌else◌,
}
use terraform_aws_consul_lam.Errors.{Error, closed_listener}
use terraform_aws_consul_lam.Proxy.Listener.{
  Listener, Pc, serve_check, serve_listen, serve_open, serve_failed, send_try, close_swap,
  close_errors, Answer, succeeds, fails, move, push_error, System, Step, moves, calls_close, spawns,
  connects, joins, receives, init, new_listener, err_buf_size, Reach, here, later,
}
use terraform_aws_consul_lam.Proxy.Listener.Invariant.{Own}
use terraform_aws_consul_lam.Proxy.Listener.Global.{Inv}
use terraform_aws_consul_lam.Proxy.Listener.Reachable.{Reach-Inv}
use terraform_aws_consul_lam.Proxy.Listener.Front.{Front, Fronts, Reach-Fronts}

-- `announced` says whether `Wait` returns, and `ended` whether `Errors()` is closed.
pub record View : Type 0 where
  pub announced : Bool
  pub stopping : Bool
  pub ended : Bool
  pub reported : List Error
  pub result : Option (Option Error)

abbrev pub view : Listener → View
view m = record {
  announced = m.listening_closed;
  stopping = m.stop_flag;
  ended = m.err_closed;
  reported = m.errors;
  result = m.serve_result;
}

abbrev pub start : View
start = record { announced = false; stopping = false; ended = false; reported = []; result = none }

-- What may happen. `Serve` returns without an error only if the listener was announced and has been
-- told to stop, and nothing is reported once it has been.
pub data Contract (v : View) : View → Type 0 where
  announces : v.announced ≡ false → v.result ≡ none → Contract v (record v { announced = true })
  begins_stop : v.stopping ≡ false → Contract v (record v { stopping = true })
  ends : v.stopping ≡ true → v.ended ≡ false → Contract v (record v { ended = true })
  reports :
      (e : Error)
      → v.stopping ≡ false
      → v.ended ≡ false
      → length v.reported < err_buf_size
      → Contract v (record v { reported = v.reported ++ (e ∷ []) })
  hands_over :
      (e : Error) (es : List Error) → v.reported ≡ e ∷ es → Contract v (record v { reported = es })
  returns_error : (e : Error) → v.result ≡ none → Contract v (record v { result = some (some e) })
  returns :
      v.result ≡ none
      → v.announced ≡ true
      → v.stopping ≡ true
      → Contract v (record v { result = some none })

pub data Runs : View → Type 0 where
  begins : Runs start
  goes_on : {v w : View} → Runs v → Contract v w → Runs w

-- What a step may do to the view
abbrev Allowed : View → View → Type 0
Allowed v w = (w ≡ v) ⊎ Contract v w

abbrev is_quiet : Pc → Bool
is_quiet serve_check = false
is_quiet serve_listen = false
is_quiet serve_open = false
is_quiet (serve_failed _) = false
is_quiet (send_try _ _) = false
is_quiet close_swap = false
is_quiet close_errors = false
is_quiet _ = true

move_quiet :
    (i : ℕ) (p : Pc) (a : Answer) (m m' : Listener) (p' : Pc)
    → is_quiet p ≡ true
    → move i p a m ≡ some (m', p')
    → view m' ≡ view m
unfolding move
move_quiet i p a m m' p' q h = ground arith

becomes :
    (m : Listener) {m' n : Listener} {p q : Pc}
    → Path (Option (Listener × Pc)) (some (n, q)) (some (m', p))
    → Allowed (view m) (view n)
    → Allowed (view m) (view m')
becomes m {m'} {n} e h = let same : n ≡ m' = cc in subst (λ x. Allowed (view m) (view x)) same h

taken : {A : Type 0} {b : Bool} {x r : A} (y : A) → b ≡ true → (if b then x else y) ≡ r → x ≡ r
taken y h e = ground (arith, h, e)

not_taken : {A : Type 0} {b : Bool} {y r : A} (x : A) → b ≡ false → (if b then x else y) ≡ r → y ≡ r
not_taken x h e = ground (arith, h, e)

pushed :
    (e : Error) (m : Listener)
    → m.stop_flag ≡ false
    → m.err_closed ≡ false
    → Allowed (view m) (view (push_error e m))
unfolding push_error
pushed e m going open_ = elim (Bool-cases (ltb (length m.errors) err_buf_size)) [
  | inl room ↦
      subst
        (λ b.
          Allowed (view m)
            (record (view m) { reported = if b then m.errors ++ (e ∷ []) else m.errors }))
        (sym room) (inr (reports e going open_ (ground arith)))
  | inr full ↦
      subst
        (λ b.
          Allowed (view m)
            (record (view m) { reported = if b then m.errors ++ (e ∷ []) else m.errors }))
        (sym full) (inl refl)
]

move-Allowed :
    (i : ℕ) (p : Pc) (a : Answer) (m m' : Listener) (p' : Pc)
    → Own i m p
    → Front m p
    → move i p a m ≡ some (m', p')
    → Allowed (view m) (view m')
unfolding move push_error
move-Allowed i serve_check a m m' p' o f h = elim (Bool-cases m.stop_flag) [
  | inl stopped ↦
      becomes m (taken _ stopped h) (inr (returns_error closed_listener (f.no_result refl)))
  | inr going ↦ becomes m (not_taken _ going h) (inl refl)
]
move-Allowed i serve_listen succeeds m m' p' o f h = becomes m h (inl refl)
move-Allowed i serve_listen (fails e) m m' p' o f h =
    becomes m h (inr (returns_error e (f.no_result refl)))
move-Allowed i serve_open a m m' p' o f h =
    becomes m h (inr (announces (o.opens refl) (f.no_result refl)))
move-Allowed i (serve_failed e) a m m' p' o f h = becomes m h (elim (Bool-cases m.stop_flag) [
  | inl stopped ↦
      subst (λ b. Allowed (view m) (record (view m) { result = some (if b then none else some e) }))
        (sym stopped) (inr (returns (f.no_result refl) (f.opened refl) stopped))
  | inr going ↦
      subst (λ b. Allowed (view m) (record (view m) { result = some (if b then none else some e) }))
        (sym going) (inr (returns_error e (f.no_result refl)))
])
move-Allowed i (send_try w e) a m m' p' o f h = becomes m h (pushed e m o.at.0 o.at.2)
move-Allowed i close_swap a m m' p' o f h = elim (Bool-cases m.stop_flag) [
  | inl stopped ↦ becomes m (taken _ stopped h) (inl refl)
  | inr going ↦ becomes m (not_taken _ going h) (inr (begins_stop going))
]
move-Allowed i close_errors a m m' p' o f h = becomes m h (inr (ends o.at.0 o.at.2))
move-Allowed i p a m m' p' o f h = inl (move_quiet i p a m m' p' refl h)

init-view : view init.mem ≡ start
unfolding new_listener
init-view = refl

Step-Allowed :
    {n : ℕ} {s t : System} → Inv n s → Fronts s → Step n s t → Allowed (view s.mem) (view t.mem)
Step-Allowed {n} {s} v f (moves i a {m} {p} lt h) =
    move-Allowed i (s.pc i) a s.mem m p (v.own i) (f i) h
Step-Allowed v f (calls_close i lt h) = inl refl
Step-Allowed v f (spawns i j lt lt' h h') = inl refl
Step-Allowed v f (connects i j lt lt' h h') = inl refl
Step-Allowed v f (joins i c lt h h') = inl refl
Step-Allowed v f (receives e es h) = inr (hands_over e es h)

Allowed-Runs : {v w : View} → Runs v → Allowed v w → Runs w
Allowed-Runs r (inl same) = subst Runs (sym same) r
Allowed-Runs r (inr c) = goes_on r c

Reach-Runs : {n : ℕ} {s : System} → Reach n init s → Runs (view s.mem)
Reach-Runs here = subst Runs (sym init-view) begins
Reach-Runs (later r st) =
    Allowed-Runs (Reach-Runs r) (Step-Allowed (Reach-Inv r) (Reach-Fronts r) st)

-- The detailed listener, with its goroutines, keeps the contract: in every state that it can reach,
-- its channels and the result of `Serve` are those of a run of the contract, and each step leaves
-- them as they are or is one of the contract.
pub Step-Contract :
    {n : ℕ} {s t : System}
    → Reach n init s
    → Step n s t
    → Runs (view s.mem) × ((view t.mem ≡ view s.mem) ⊎ Contract (view s.mem) (view t.mem))
Step-Contract r st = (Reach-Runs r, Step-Allowed (Reach-Inv r) (Reach-Fronts r) st)
