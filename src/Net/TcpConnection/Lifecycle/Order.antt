-- ===== src/Net/TcpConnection/Lifecycle/Order.antt =====
-- No event takes a connection back to an earlier state, and none repeats UP, DOWN or the close
-- callback.
use lib_net_toy.Net.TcpConnection.Lifecycle.Events.{Allows, apply-Follows}
use lib_net_toy.Net.TcpConnection.Lifecycle.{
  read_done, write_done, task_runs, established, destroyed, shut_down, closed_by_force,
  reading_started, reading_stopped, sent, Event, run, apply, rank, ups, downs, IsOrderly,
}
use lib_net_toy.Net.TcpConnection.Lifecycle.Moves.{
  Follows-rank, rank_top, Follows-closes, Follows-IsOrderly, IsOrderly-closes, IsOrderly-downs,
}
use lib_net_toy.Prelude.{
  ℕ, ◌-◌, ◌≤◌, ◌≡◌, refl, ap, true, Option, List, [], ◌∷◌, arith, ok, >>=-eq-ok,
}
use lib_net_toy.Base.Buffer.{
  readable_bytes, peek, append, retrieve, has_written, ensure_writable_bytes,
}
use lib_net_toy.Net.TcpConnection.Types.{
  closes, new_connection, disconnected, TcpConnection, Handlers,
}
use lib_net_toy.Base.Buffer
use lib_net_toy.Net.TcpConnection.Lifecycle.Later.{Follows, stays, after, RespectsAll}
use lib_net_toy.Base.EventLoop.{EventLoop}

pub Allows-all : (e : Event) → Allows true e
Allows-all (read_done error n) = tt
Allows-all (write_done error n) = tt
Allows-all (task_runs task) = tt
Allows-all established = refl
Allows-all destroyed = tt
Allows-all shut_down = tt
Allows-all closed_by_force = tt
Allows-all reading_started = tt
Allows-all reading_stopped = tt
Allows-all (sent message) = tt

-- So does every sequence of them, in whatever order and threads.
run-Follows :
    (h : Handlers) (es : List (ℕ × Event)) (c c' : TcpConnection)
    → RespectsAll true h
    → run h es c ≡ ok c'
    → Follows true c c'
unfolding run
run-Follows h [] c c' r e = stays (ground arith) (ground arith)
run-Follows h ((thread, ev) ∷ es) c c' r e =
    let (d, e₁, e₂) = >>=-eq-ok (apply h thread ev c) _ e in
    after (apply-Follows h thread r ev c d (Allows-all ev) e₁) (run-Follows h es d c' r e₂)

pub new_connection-IsOrderly :
    (loop : Option EventLoop) (name : List ℕ) (c : TcpConnection)
    → new_connection loop name ≡ ok c
    → IsOrderly c
unfolding new_connection
new_connection-IsOrderly loop name c n =
    let (input, _, e₁) = >>=-eq-ok (Buffer.init 4096) _ n in
    let (output, _, e₂) = >>=-eq-ok (Buffer.init 4096) _ e₁ in
    record { up = ground arith; down = ground arith; closed = ground arith }

-- It has called nothing, and waits for `connectEstablished`.
pub new_connection-fresh :
    (loop : Option EventLoop) (name : List ℕ) (c : TcpConnection)
    → new_connection loop name ≡ ok c
    → (closes c.calls ≡ 0) × (rank c.state ≡ 0)
unfolding new_connection
new_connection-fresh loop name c n =
    let (input, _, e₁) = >>=-eq-ok (Buffer.init 4096) _ n in
    let (output, _, e₂) = >>=-eq-ok (Buffer.init 4096) _ e₁ in (ground arith, ground arith)

-- With callbacks that do what the code lets them do, a connection that is disconnected stays so
-- whatever happens, and its close callback is not called again.
pub disconnected_forever :
    (h : Handlers) (es : List (ℕ × Event)) (c c' : TcpConnection)
    → RespectsAll true h
    → run h es c ≡ ok c'
    → c.state ≡ disconnected
    → (c'.state ≡ disconnected) × (closes c'.calls ≡ closes c.calls)
disconnected_forever h es c c' r e s =
    let f = run-Follows h es c c' r e in
    (rank_top c'.state (omega (arith, Follows-rank f, ap rank s)), Follows-closes f s)

-- With callbacks that do what the code lets them do: in the whole life of a connection the
-- connection callback reports UP at most once and DOWN at most once, and the close callback is called
-- at most once; DOWN and the close callback only when the connection has come to the last state,
-- `kDisconnected`.
pub callbacks_once :
    (h : Handlers) (loop : Option EventLoop) (name : List ℕ) (es : List (ℕ × Event))
    (c c' : TcpConnection)
    → RespectsAll true h
    → new_connection loop name ≡ ok c
    → run h es c ≡ ok c'
    → (ups c'.calls ≤ 1)
      × (downs c'.calls ≤ 1)
      × (closes c'.calls ≤ 1)
      × (downs c'.calls ≤ rank c'.state - 2)
      × (closes c'.calls ≤ rank c'.state - 2)
callbacks_once h loop name es c c' r n e =
    let o =
      Follows-IsOrderly (run-Follows h es c c' r e) (new_connection-IsOrderly loop name c n) in
    (omega (arith, o.up), IsOrderly-downs c' o, IsOrderly-closes c' o, o.down, o.closed)
