-- ===== src/Trace/Nested.antt =====
-- Nested calls leave no timer behind.
use terraform_aws_consul_lam.Prelude.{
  ℕ, ◌≡◌, refl, sym, ap, ◌∙◌, Text, text_eq, ◌==◌, Bool, true, false, not, ◌&&◌, ◌||◌, none, [],
  if◌then◌else◌, arith, Bool-cases, Option-cases, inl, inr,
}
use terraform_aws_consul_lam.Prelude.Dict.{lookup, lookup-insert, lookup-erase}
use terraform_aws_consul_lam.Trace.{Trace, start, enter, exit, Calls, nothing, call, run_calls}

-- The function is called by name somewhere.
unfoldable pub is_called : Text → Calls → Bool
is_called g nothing = false
is_called g (call f from inner until next) =
    let inside = is_called g inner in
    let later = is_called g next in g == f && not (f == []) || inside || later

module _ {L : Type 0} (null_logger : L) where
  enter-enabled : (f : Text) (now : ℕ) (t : Trace L) → (enter f now t).enabled ≡ t.enabled
  unfolding enter
  enter-enabled f now t = ground arith

  exit-enabled : (f : Text) (now : ℕ) (t : Trace L) → (exit null_logger f now t).enabled ≡ t.enabled
  unfolding exit
  exit-enabled f now t = ground arith

  -- A function's own timer is gone after its `Exit`; the others are as the calls inside left them.
  exit-timers :
      (g f : Text) (now : ℕ) (t : Trace L)
      → t.enabled ≡ true
      → lookup g (exit null_logger f now t).timers
        ≡ (if g == f && not (f == []) then none else lookup g t.timers)
  unfolding exit
  exit-timers g f now t on = elim (Option-cases (lookup f t.timers)) [
    | inl absent ↦ ground (arith, absent)
    | inr (timer, present) ↦ ground (arith, lookup-erase g f t.timers)
  ]

  enter-timers :
      (g f : Text) (now : ℕ) (t : Trace L)
      → (g == f && not (f == [])) ≡ false
      → lookup g (enter f now t).timers ≡ lookup g t.timers
  unfolding enter
  enter-timers g f now t other = ground (arith, lookup-insert g f (start f now t) t.timers)

  enabled-run_calls : (c : Calls) (t : Trace L) → (run_calls null_logger c t).enabled ≡ t.enabled
  unfolding run_calls
  enabled-run_calls nothing t = refl
  enabled-run_calls (call f from inner until next) t =
      enabled-run_calls next _
      ∙ exit-enabled f until _
      ∙ enabled-run_calls inner _
      ∙ enter-enabled f from t

  timers_enabled :
      (g : Text) (c : Calls) (t : Trace L)
      → t.enabled ≡ true
      → lookup g (run_calls null_logger c t).timers
        ≡ (if is_called g c then none else lookup g t.timers)
  unfolding run_calls is_called
  timers_enabled g nothing t on = refl
  timers_enabled g (call f from inner until next) t on =
      let t1 = enter f from t in
      let t2 = run_calls null_logger inner t1 in
      let t3 = exit null_logger f until t2 in
      let on1 : t1.enabled ≡ true = enter-enabled f from t ∙ on in
      let on2 : t2.enabled ≡ true = enabled-run_calls inner t1 ∙ on1 in
      let on3 : t3.enabled ≡ true = exit-enabled f until t2 ∙ on2 in
      let a = timers_enabled g next t3 on3 in
      let b = exit-timers g f until t2 on2 in
      let d = timers_enabled g inner t1 on1 in
      let e = enter-timers g f from t in grind (arith, a, b, d, e)

  enter_disabled : (f : Text) (now : ℕ) (t : Trace L) → t.enabled ≡ false → enter f now t ≡ t
  unfolding enter
  enter_disabled f now t off = rw off refl

  exit_disabled :
      (f : Text) (now : ℕ) (t : Trace L) → t.enabled ≡ false → exit null_logger f now t ≡ t
  unfolding exit
  exit_disabled f now t off = rw off refl

  run_calls_disabled : (c : Calls) (t : Trace L) → t.enabled ≡ false → run_calls null_logger c t ≡ t
  unfolding run_calls
  run_calls_disabled nothing t off = refl
  run_calls_disabled (call f from inner until next) t off =
      let inside =
        ap (run_calls null_logger inner) (enter_disabled f from t off)
        ∙ run_calls_disabled inner t off in
      ap (run_calls null_logger next)
        (ap (exit null_logger f until) inside ∙ exit_disabled f until t off)
      ∙ run_calls_disabled next t off

  -- After traced calls, nested and recursive in any way, a function that was called has no timer,
  -- and any other has the timer that it had. Where tracing is disabled, all timers are as they were.
  pub run_calls-timers :
      (c : Calls) (t : Trace L) (g : Text)
      → lookup g (run_calls null_logger c t).timers
        ≡ (if t.enabled && is_called g c then none else lookup g t.timers)
  run_calls-timers c t g =
      let after = λ (b : Bool). if b && is_called g c then none else lookup g t.timers in
      elim (Bool-cases t.enabled) [
        | inl on ↦ timers_enabled g c t on ∙ ap after (sym on)
        | inr off ↦ ap (λ u. lookup g u.timers) (run_calls_disabled c t off) ∙ ap after (sym off)
      ]
