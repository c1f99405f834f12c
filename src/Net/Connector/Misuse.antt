-- ===== src/Net/Connector/Misuse.antt =====
-- Calls that come at the wrong moment.
use lib_net_toy.Net.Connector.{
  is_alive, call_back, drop_timer, stop, stop_in_loop, Timer, start, handle_connect, Connector,
  k_connected, k_connecting, k_disconnected, connect_socket, start_in_loop, retry, exec_functor,
}
use lib_net_toy.Net.Connector.Backoff.{IsWaiting}
use lib_net_toy.Base.EventLoop.{EventLoop, is_in_loop_thread-true}
use lib_net_toy.Net.TcpConnection.Types.{with_loop}
use lib_net_toy.Prelude.{
  ℕ, ◌≡◌, refl, inl, inr, Bool, true, false, Option, some, [], ◌∷◌, ◌++◌, arith, Bool-cases,
  assertion, Result, ok, fault, ◌>>=◌,
}

-- Once a connection was made `start` fails its assertion.
pub start_connected :
    (owned : ℕ → Bool) (thread : ℕ) (loop : EventLoop) (c : Connector)
    → loop.thread_id ≡ thread
    → c.loop ≡ some loop
    → c.state ≡ k_connected
    → start owned thread c ≡ fault assertion
unfolding start exec_functor start_in_loop with_loop
start_connected owned thread loop c t its up =
    ground (arith, its, up, is_in_loop_thread-true loop thread t)

stop_in_loop-stop :
    (owned : ℕ → Bool) (thread : ℕ) (loop : EventLoop) (c : Connector) (s : ℕ)
    → loop.thread_id ≡ thread
    → c.loop ≡ some loop
    → c.state ≡ k_connecting
    → c.socket ≡ some s
    → (c' : Connector) × (stop_in_loop owned thread (stop owned c) ≡ ok c') × (c'.connect ≡ false)
unfolding stop_in_loop stop retry with_loop
stop_in_loop-stop owned thread loop c s t its connecting held =
    let d : Connector = record (stop owned c) { state = k_disconnected } in
    elim (Bool-cases (is_alive owned [] c s)) [
      | inl alive ↦ (
        record d { closed = c.closed ++ s ∷ [] },
        ground (arith, its, connecting, held, is_in_loop_thread-true loop thread t),
        ground (arith, its),
      )
      | inr dead ↦ (
        d,
        ground (arith, its, connecting, held, is_in_loop_thread-true loop thread t),
        ground (arith, its),
      )
    ]

module _ (owned : ℕ → Bool) (cb : Option (ℕ → Connector → Result Connector)) (thread : ℕ)
    (loop : EventLoop) (t : loop.thread_id ≡ thread) where
  -- The flaw: `start` while a retry is due begins an attempt and leaves the timer; when the timer
  -- fires before that attempt has ended, the assertion of `startInLoop` fails.
  pub start_while_waiting :
      (c : Connector) (timer : Timer)
      → IsWaiting loop c
      → c.timers ≡ timer ∷ []
      → (c' : Connector) × (start owned thread c ≡ ok c')
        × (c'.timers ≡ timer ∷ [])
        × (start_in_loop thread (record c' { timers = drop_timer timer.id c'.timers })
            ≡ fault assertion)
  unfolding start exec_functor start_in_loop connect_socket with_loop
  start_while_waiting c timer w one = (
    connect_socket (record c { connect = true }),
    ground (arith, w.its_loop, w.idle, is_in_loop_thread-true loop thread t),
    one,
    refl,
  )

  -- The flaw: a connect that succeeds after `stop`, and after `stopInLoop` has run, is handed to the
  -- callback all the same: the success is not checked against `connect_`.
  pub connected_after_stop :
      (c : Connector) (s : ℕ)
      → c.loop ≡ some loop
      → c.state ≡ k_connecting
      → c.socket ≡ some s
      → (c' : Connector) × ((stop_in_loop owned thread (stop owned c)
            >>= handle_connect owned cb s false)
          ≡ call_back owned cb s c')
        × (c'.state ≡ k_connected)
        × (c'.connect ≡ false)
  unfolding handle_connect
  connected_after_stop c s its connecting held =
      let (d, e, off) = stop_in_loop-stop owned thread loop c s t its connecting held in
      (record d { state = k_connected }, rw e refl, refl, off)
