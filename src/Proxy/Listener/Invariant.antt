-- ===== src/Proxy/Listener/Invariant.antt =====
-- Who holds `stopLock`, and what is closed at which point of `Close` and `sendError`.
use terraform_aws_consul_lam.Prelude.{
  ℕ, ◌≤◌, ◌<◌, ◌≡◌, ◌≢◌, Bool, true, false, none, some, length, length-append, [], ◌∷◌, arith,
}
use terraform_aws_consul_lam.Proxy.Listener.{
  Listener, Pc, closed, serve_check, serve_listen, serve_set, serve_open, serve_accept, serve_spawn,
  serve_failed, finishing, send_test, send_try, send_unlock, close_swap, close_socket, close_stop,
  close_errors, close_wait, close_unlock, Answer, move, err_buf_size,
}

-- Where a goroutine is with respect to `stopLock` and the channels
pub data Phase : Type 0 where
  outside done entered sending stopping_all half leaving : Phase

abbrev pub phase : Pc → Phase
phase closed = done
phase (send_test _ _) = entered
phase (send_try _ _) = sending
phase (send_unlock _) = entered
phase close_swap = entered
phase close_socket = stopping_all
phase close_stop = stopping_all
phase close_errors = half
phase close_wait = leaving
phase close_unlock = leaving
phase _ = outside

abbrev pub holds : Phase → Bool
holds outside = false
holds done = false
holds _ = true

-- What the phase says of the flag and the two channels
abbrev pub At : Listener → Phase → Type 0
At m outside = Unit
At m entered = (m.stop_closed ≡ m.stop_flag) × (m.err_closed ≡ m.stop_flag)
At m sending = (m.stop_flag ≡ false) × (m.stop_closed ≡ false) × (m.err_closed ≡ false)
At m stopping_all = (m.stop_flag ≡ true) × (m.stop_closed ≡ false) × (m.err_closed ≡ false)
At m half = (m.stop_flag ≡ true) × (m.stop_closed ≡ true) × (m.err_closed ≡ false)
At m leaving = (m.stop_flag ≡ true) × (m.stop_closed ≡ true) × (m.err_closed ≡ true)
At m done = (m.stop_flag ≡ true) × (m.stop_closed ≡ true) × (m.err_closed ≡ true)

abbrev pub is_opening : Pc → Bool
is_opening serve_check = true
is_opening serve_listen = true
is_opening serve_set = true
is_opening serve_open = true
is_opening _ = false

abbrev pub is_serving : Pc → Bool
is_serving serve_accept = true
is_serving serve_spawn = true
is_serving (serve_failed _) = true
is_serving p = is_opening p

pub record Own (i : ℕ) (m : Listener) (p : Pc) : Type 0 where
  pub holder : holds (phase p) ≡ true → m.lock ≡ some i
  pub at : At m (phase p)
  pub serves : is_serving p ≡ true → i ≡ 0
  pub opens : is_opening p ≡ true → m.listening_closed ≡ false

-- What holds of the shared state. `Close` is complete whenever nobody holds the lock.
pub record Shared (m : Listener) : Type 0 where
  pub calm : m.panicked ≡ false
  pub bounded : length m.errors ≤ err_buf_size
  pub complete : m.lock ≡ none → (m.stop_closed ≡ m.stop_flag) × (m.err_closed ≡ m.stop_flag)

pub move-Own :
    (i : ℕ) (p : Pc) (a : Answer) (m m' : Listener) (p' : Pc)
    → Own i m p
    → Shared m
    → move i p a m ≡ some (m', p')
    → Own i m' p'
unfolding move
move-Own i p a m m' p' o s h = ground (arith, o.holder, o.at, o.serves, o.opens, s.complete)

-- A step of `i` keeps what the phase of another goroutine says.
pub move-Own_other :
    (i j : ℕ) (p q : Pc) (a : Answer) (m m' : Listener) (p' : Pc)
    → i ≢ j
    → Own i m p
    → Own j m q
    → move i p a m ≡ some (m', p')
    → Own j m' q
unfolding move
move-Own_other i j p q a m m' p' ne o r h =
    ground (arith, o.holder, o.at, o.serves, o.opens, r.holder, r.at, r.serves, r.opens)

pub move-Shared :
    (i : ℕ) (p : Pc) (a : Answer) (m m' : Listener) (p' : Pc)
    → Own i m p
    → Shared m
    → (p ≡ finishing → 0 < m.conn_wg)
    → move i p a m ≡ some (m', p')
    → Shared m'
unfolding move
move-Shared i (send_try w e) a m m' p' o s pos h =
    ground (arith, o.holder, o.at, s.bounded, length-append m.errors (e ∷ []))
move-Shared i p a m m' p' o s pos h =
    ground (arith, o.holder, o.at, o.opens, s.complete, s.bounded, pos)
