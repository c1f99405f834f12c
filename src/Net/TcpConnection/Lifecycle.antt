-- ===== src/Net/TcpConnection/Lifecycle.antt =====
-- The life of a connection under any sequence of completions and calls: its state only moves on,
-- and the connection callback reports UP and DOWN at most once each.
pub mod Later
pub mod Moves
pub mod Events
pub mod Order
use lib_net_toy.Net.TcpConnection.Types.{
  closes, State, disconnected, connecting, connected, disconnecting, Task, start_read_task,
  stop_read_task, shutdown_task, force_close_task, Read, Call, connection_changed, message_arrived,
  write_completed, connection_closed, TcpConnection, Handlers, Callback, invoke, invoke_if_set,
  is_connected, is_disconnected, is_open,
}
use lib_net_toy.Prelude.{
  ℕ, zero, suc, ◌+◌, ◌-◌, ◌*◌, ◌/◌, ◌%◌, ◌^◌, ◌≤◌, ◌<◌, min, ◌≡◌, refl, sym, ap, ap₂, ◌∙◌, ◌≢◌, ◌↔◌,
  ◌⊎◌, inl, inr, Bool, true, false, ◌&&◌, ◌||◌, not, Option, none, some, List, [], ◌∷◌, ◌++◌, map,
  reverse, append-nil, append_assoc, arith, dec_lt, ℕ_discrete, ltb, leb, ◌==◌, if◌then◌else◌,
  Bool-cases, Option-cases, Fault, assertion, out_of_range, length_error, null_pointer, dangling,
  bad_function_call, Result, ok, fault, ◌>>=◌, ◌>>◌, assert, Result-cases, length, take, drop,
  get_elem?,
}
use lib_net_toy.Net.TcpConnection.Handlers.{
  ErrorCode, success, eof, other_error, async_read, begin_first_read, handle_close, handle_error,
  read_on, start_read_in_loop, stop_read_in_loop, shutdown_in_loop, post_task, read_handler,
  write_handler, force_close_in_loop, exec, start_read, stop_read, connect_established,
  connect_destroyed, shutdown, force_close, send,
}

-- What can happen to a connection: a completion, a posted functor that runs, a call of its owner
-- or of its user.
pub data Event : Type 0 where
  read_done write_done : ErrorCode → ℕ → Event
  task_runs : Task → Event
  established destroyed shut_down closed_by_force reading_started reading_stopped : Event
  sent : List ℕ → Event

unfoldable pub apply : Handlers → ℕ → Event → TcpConnection → Result TcpConnection
apply h thread (read_done error n) c = read_handler h thread error n c
apply h thread (write_done error n) c = write_handler h thread error n c
apply h thread (task_runs task) c = exec h thread task c
apply h thread established c = connect_established h thread c
apply h thread destroyed c = connect_destroyed h thread c
apply h thread shut_down c = shutdown h thread c
apply h thread closed_by_force c = force_close h thread c
apply h thread reading_started c = start_read h thread c
apply h thread reading_stopped c = stop_read h thread c
apply h thread (sent message) c = send message c

-- Events in turn, each with the thread in which it happens.
unfoldable pub run : Handlers → List (ℕ × Event) → TcpConnection → Result TcpConnection
run h [] c = ok c
run h ((thread, e) ∷ es) c = do c' ← apply h thread e c; run h es c'

-- How far a connection has come.
abbrev pub rank : State → ℕ
rank connecting = 0
rank connected = 1
rank disconnecting = 2
rank disconnected = 3

-- How often the connection callback has reported UP, and DOWN.
abbrev pub ups : List Call → ℕ
ups [] = 0
ups (connection_changed true ∷ cs) = suc (ups cs)
ups (_ ∷ cs) = ups cs

abbrev pub downs : List Call → ℕ
downs [] = 0
downs (connection_changed false ∷ cs) = suc (downs cs)
downs (_ ∷ cs) = downs cs

-- UP comes with the step to `connected`, DOWN and the close callback with that to `disconnected`.
pub record IsOrderly (c : TcpConnection) : Type 0 where
  pub up : ups c.calls ≤ min 1 (rank c.state)
  pub down : downs c.calls ≤ rank c.state - 2
  pub closed : closes c.calls ≤ rank c.state - 2

pub ups-append : (xs ys : List Call) → ups (xs ++ ys) ≡ ups xs + ups ys
ups-append [] ys = omega arith
ups-append (connection_changed true ∷ xs) ys = omega (arith, ups-append xs ys)
ups-append (connection_changed false ∷ xs) ys = ups-append xs ys
ups-append (message_arrived ∷ xs) ys = ups-append xs ys
ups-append (write_completed ∷ xs) ys = ups-append xs ys
ups-append (connection_closed ∷ xs) ys = ups-append xs ys

pub downs-append : (xs ys : List Call) → downs (xs ++ ys) ≡ downs xs + downs ys
downs-append [] ys = omega arith
downs-append (connection_changed false ∷ xs) ys = omega (arith, downs-append xs ys)
downs-append (connection_changed true ∷ xs) ys = downs-append xs ys
downs-append (message_arrived ∷ xs) ys = downs-append xs ys
downs-append (write_completed ∷ xs) ys = downs-append xs ys
downs-append (connection_closed ∷ xs) ys = downs-append xs ys

pub closes-append : (xs ys : List Call) → closes (xs ++ ys) ≡ closes xs + closes ys
closes-append [] ys = omega arith
closes-append (connection_closed ∷ xs) ys = omega (arith, closes-append xs ys)
closes-append (connection_changed up ∷ xs) ys = closes-append xs ys
closes-append (message_arrived ∷ xs) ys = closes-append xs ys
closes-append (write_completed ∷ xs) ys = closes-append xs ys
