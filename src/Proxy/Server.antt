-- ===== src/Proxy/Server.antt =====
-- proxy/proxy.go: the server over its listeners. The goroutines that call `Serve` and `Close` are
-- numbered and take steps as those of a listener do; what a listener does is a step of its own.
pub mod Owners
pub mod Made
pub mod Closing
pub mod Missed
use terraform_aws_consul_lam.Prelude.{
  ℕ, zero, suc, ◌+◌, ◌<◌, ◌≡◌, Bool, true, false, ◌&&◌, ◌||◌, Option, none, some, List, [], ◌∷◌,
  ◌++◌, ltb, if◌then◌else◌,
}
use terraform_aws_consul_lam.Prelude.Threads.{set_at}
use terraform_aws_consul_lam.Errors.{Error, listener_failed}

-- `Server`: listener `k` is one of the first `made`. `shut` tells which ones have been closed, by
-- `Close` or by their own `Serve`, `opened` which ones listen, `served` whose `Serve` has failed, and
-- `offers` what they report to `listenerErrChan`.
pub record Server : Type 0 where
  pub stop_flag : Bool
  pub stop_closed : Bool
  pub wait_closed : Bool
  pub lock : Option ℕ
  pub made : ℕ
  pub shut : ℕ → Bool
  pub opened : ℕ → Bool
  pub served : ℕ → Bool
  pub offers : ℕ → Option Error
  pub logged : List Error
  pub panicked : Bool

-- What a goroutine does next
pub data Pc : Type 0 where
  unborn closed : Pc
  -- `Serve`, which returns an error of its own where it is refused
  serve_check serve_refused serve_lock serve_make serve_unlock serve_select : Pc
  serve_done : Option Error → Pc
  -- `Close`
  close_lock close_swap close_listeners close_stop close_unlock : Pc

-- Which listener `Close` gets to next, or which case of the `select` of `Serve` is taken
pub data Choice : Type 0 where
  listener : ℕ → Choice
  stop : Choice
  conn_error : Error → Choice

-- `New`
unfoldable pub new_server : Server
new_server = record {
  stop_flag = false;
  stop_closed = false;
  wait_closed = false;
  lock = none;
  made = 0;
  shut = λ _. false;
  opened = λ _. false;
  served = λ _. false;
  offers = λ _. none;
  logged = [];
  panicked = false;
}

unfoldable pub all_of : ℕ → (ℕ → Bool) → Bool
all_of zero f = true
all_of (suc k) f = let rest = all_of k f in f k && rest

acquire : ℕ → Option ℕ → Server → Pc → Option (Server × Pc)
acquire i none m p = some (record m { lock = some i }, p)
acquire i (some _) m p = none

-- `Serve` receives what listener `k` offers.
receive : ℕ → Option Error → Server → Option (Server × Pc)
receive k none m = none
receive k (some e) m =
    some (record m { offers = set_at k none m.offers }, serve_done (some (listener_failed e)))

-- One step of goroutine `i` of a server with `n` configurations; none where it has to wait.
unfoldable pub move : ℕ → ℕ → Pc → Choice → Server → Option (Server × Pc)
unfolding acquire receive
move n i unborn c m = none
move n i closed c m = none
move n i serve_check c m = if m.stop_flag then some (m, serve_refused) else some (m, serve_lock)
move n i serve_refused c m = none
move n i serve_lock c m = acquire i m.lock (record m { made = 0 }) serve_make
move n i serve_make c m =
    if ltb m.made n
    then some (record m { made = m.made + 1 }, serve_make)
    else some (m, serve_unlock)
move n i serve_unlock c m = some (record m { lock = none }, serve_select)
move n i serve_select (listener k) m = receive k (m.offers k) m
move n i serve_select stop m = if m.stop_closed then some (m, serve_done none) else none
move n i serve_select (conn_error e) m =
    some (record m { logged = m.logged ++ (e ∷ []) }, serve_select)
move n i (serve_done r) c m = none
move n i close_lock c m = acquire i m.lock m close_swap
move n i close_swap c m =
    if m.stop_flag
    then some (m, close_unlock)
    else some (record m { stop_flag = true }, close_listeners)
move n i close_listeners (listener k) m =
    if ltb k m.made then some (record m { shut = set_at k true m.shut }, close_listeners) else none
move n i close_listeners c m = if all_of m.made m.shut then some (m, close_stop) else none
move n i close_stop c m =
    some (record m { stop_closed = true; panicked = m.panicked || m.stop_closed }, close_unlock)
move n i close_unlock c m = some (record m { lock = none }, closed)

pub record System : Type 0 where
  pub mem : Server
  pub pc : ℕ → Pc

-- `Serve` has made its listeners and given back the lock.
abbrev pub has_made : Pc → Bool
has_made serve_select = true
has_made (serve_done _) = true
has_made _ = false

pub data Step (n : ℕ) (s : System) : System → Type 0 where
  moves :
      (i : ℕ) (c : Choice) {m : Server} {p : Pc}
      → move n i (s.pc i) c s.mem ≡ some (m, p)
      → Step n s (record { mem = m; pc = set_at i p s.pc })
  -- Somebody calls `Close`, any number of times.
  calls_close :
      (i : ℕ) → s.pc i ≡ unborn → Step n s (record { mem = s.mem; pc = set_at i close_lock s.pc })
  -- A listener listens.
  opens :
      (k : ℕ)
      → k < s.mem.made
      → Step n s (record { mem = record s.mem { opened = set_at k true s.mem.opened }; pc = s.pc })
  -- `Serve` of a listener returns an error, once. Its `defer l.Close()` has closed the listener.
  fails :
      (k : ℕ) (e : Error)
      → k < s.mem.made
      → s.mem.served k ≡ false
      → Step n s (record {
        mem = record s.mem {
          shut = set_at k true s.mem.shut;
          served = set_at k true s.mem.served;
          offers = set_at k (some e) s.mem.offers;
        };
        pc = s.pc;
      })
  -- All listeners listen, and `waitChan` is closed.
  gets_ready :
      has_made (s.pc 0) ≡ true
      → s.mem.wait_closed ≡ false
      → all_of n s.mem.opened ≡ true
      → Step n s (record { mem = record s.mem { wait_closed = true }; pc = s.pc })

-- Goroutine 0 has called `Serve`.
abbrev pub init : System
init = record { mem = new_server; pc = set_at 0 serve_check (λ _. unborn) }

pub data Reach (n : ℕ) (s : System) : System → Type 0 where
  here : Reach n s s
  later : {t u : System} → Reach n s t → Step n t u → Reach n s u
