-- ===== src/Net/TcpClient/Steps/Safety.antt =====
-- Of the connections that a client has made only the current one is not closed.
use lib_net_toy.Prelude.{
  false, Bool, Option, none, some, List, [], ◌∷◌, ap, ok-injective, >>=-eq-ok, ℕ, ◌<◌, ◌≡◌, ◌≢◌,
  refl, true, arith, ok, get_elem?, All,
}
use lib_net_toy.Net.TcpClient.{
  false, Bool, Made, TcpClient, call_connection, connect, disconnect, run_posted,
}
use lib_net_toy.Net.TcpClient.Steps.{
  Step, connects, retries, disconnects, connect_ends, timer_fires, functor_runs, happens,
  posted_runs, Reach, begins, later, ready_client, without_timer,
}
use lib_net_toy.Net.TcpClient.Steps.Connecting.{
  Sound, IsStart, start-Sound, start_in_loop-Sound, exec_functor-Sound,
}
use lib_net_toy.Net.TcpClient.Steps.Keeping.{Inv, current_at, current_at-one, current_at_other}
use lib_net_toy.Net.TcpClient.Steps.Current.{event-Inv, connector-Inv, connect_done-Inv}
use lib_net_toy.Net.Connector
use lib_net_toy.Net.Connector.{Connector}
use lib_net_toy.Net.TcpConnection.Types.{TcpConnection, Handlers, closes, disconnected}
use lib_net_toy.Net.TcpConnection.Handlers.{connect_destroyed, shutdown}
use lib_net_toy.Net.TcpConnection.Lifecycle.{Event, apply, destroyed, shut_down}
use lib_net_toy.Net.TcpConnection.Lifecycle.Later.{RespectsAll}
use lib_net_toy.Net.TcpConnection.Lifecycle.Events.{apply-Follows}
use lib_net_toy.Net.TcpConnection.Lifecycle.Order.{Allows-all}
use lib_net_toy.Net.TcpConnection.Lifecycle.Moves.{Follows-IsOrderly, IsOrderly-closes, rank_top}
use lib_net_toy.Base.EventLoop.{EventLoop}

-- The switches of the client are no part of the account.
switch-Inv :
    (s s' : TcpClient)
    → Inv s
    → s'.made ≡ s.made
    → s'.callbacks ≡ s.callbacks
    → s'.connection ≡ s.connection
    → s'.connector ≡ s.connector
    → Inv s'
switch-Inv s s' v made callbacks connection connector = record {
  callbacks = rw callbacks v.callbacks;
  handlers = rw made v.handlers;
  orderly = rw made v.orderly;
  accounted = rw (made, connection) v.accounted;
  connecting = rw (connection, connector) v.connecting;
}

disconnect-Inv :
    (owned : ℕ → Bool) (t : ℕ) (s s' : TcpClient) (current : Option ℕ)
    → Inv s
    → elim current [ none ↦ ok s | some i ↦ call_connection owned t (λ h. shutdown h t) i s ]
      ≡ ok s'
    → Inv s'
unfolding apply
disconnect-Inv owned t s s' none v e = rw (ok-injective e) at v
disconnect-Inv owned t s s' (some i) v e = event-Inv owned t i shut_down s s' v e

run_posted-Inv :
    (owned : ℕ → Bool) (t : ℕ) (s s' : TcpClient) (posted : List ℕ)
    → Inv s
    → elim posted [
      | [] ↦ ok s
      | i ∷ rest ↦
          call_connection owned t
            (λ h. connect_destroyed h t)
            i
            (record s { destroys_posted = rest })
    ]
      ≡ ok s'
    → Inv s'
unfolding apply
run_posted-Inv owned t s s' [] v e = rw (ok-injective e) at v
run_posted-Inv owned t s s' (i ∷ rest) v e =
    let s₁ : TcpClient = record s { destroys_posted = rest } in
    event-Inv owned t i destroyed s₁ s' (switch-Inv s s₁ v refl refl refl refl) e

Step-Inv : (owned : ℕ → Bool) {s s' : TcpClient} → Step owned s s' → Inv s → Inv s'
unfolding connect disconnect run_posted
Step-Inv owned {s} {s'} (connects t e) v =
    let s₁ : TcpClient = record s { connect = true } in
    let (c, e₁, e₂) = >>=-eq-ok (Connector.start owned t s.connector) _ e in
    rw (ok-injective e₂) at (
      connector-Inv s₁ c (switch-Inv s s₁ v refl refl refl refl)
        (start-Sound owned t s.connection s.connector c v.connecting e₁))
Step-Inv owned {s} retries v = switch-Inv s _ v refl refl refl refl
Step-Inv owned {s} {s'} (disconnects t e) v =
    let s₁ : TcpClient = record s { connect = false } in
    disconnect-Inv owned t s₁ s' s.connection (switch-Inv s s₁ v refl refl refl refl) e
Step-Inv owned {s} {s'} (connect_ends t socket error peer there e) v =
    connect_done-Inv owned t socket error peer s s' v there e
Step-Inv owned {s} (timer_fires t timer {c} e) v =
    let waited : Sound s.connection (without_timer timer s.connector) = record {
      single = v.connecting.single;
      up = v.connecting.up;
      unstopped = v.connecting.unstopped;
    } in
    connector-Inv s c v
      (start_in_loop-Sound t s.connection (without_timer timer s.connector) c waited e)
Step-Inv owned {s} (functor_runs t f rest {c} posted e) v =
    let (start, others) : All IsStart (f ∷ rest) = rw posted at v.connecting.unstopped in
    let taken : Sound s.connection (record s.connector { posted = rest }) = record {
      single = v.connecting.single;
      up = v.connecting.up;
      unstopped = others;
    } in
    connector-Inv s c v (exec_functor-Sound owned t s.connection f _ c start taken e)
Step-Inv owned {s} {s'} (happens t i event e) v = event-Inv owned t i event s s' v e
Step-Inv owned {s} {s'} (posted_runs t e) v = run_posted-Inv owned t s s' s.destroys_posted v e

ready_client-Inv :
    (loop : EventLoop) (name : List ℕ) (callbacks : Handlers)
    → RespectsAll true callbacks
    → Inv (ready_client loop name callbacks)
ready_client-Inv loop name callbacks r = record {
  callbacks = r;
  handlers = λ j m e. cc;
  orderly = λ j m e. cc;
  accounted = λ j m e. cc;
  connecting = record { single = refl; up = λ i now. cc; unstopped = tt };
}

Reach-Inv :
    (owned : ℕ → Bool) (loop : EventLoop) (name : List ℕ) (callbacks : Handlers) {s : TcpClient}
    → RespectsAll true callbacks
    → Reach owned (ready_client loop name callbacks) s
    → Inv s
Reach-Inv owned loop name callbacks r begins = ready_client-Inv loop name callbacks r
Reach-Inv owned loop name callbacks r (later p q) =
    Step-Inv owned q (Reach-Inv owned loop name callbacks r p)

-- A client whose user's callbacks do what the code lets them do, and whose `stop` is not called:
-- whatever its connector, its connections and its user have done, in any order and number, a
-- connection whose close callback an event is about to call is the current one, so that the
-- assertion `connection_ == conn` of `removeConnection` holds, and every other connection that the
-- client has made is `kDisconnected` and has called its close callback once.
pub closing_is_current :
    (owned : ℕ → Bool) (loop : EventLoop) (name : List ℕ) (callbacks : Handlers) (s : TcpClient)
    (t j : ℕ) (m : Made) (event : Event) (c : TcpConnection)
    → RespectsAll true callbacks
    → Reach owned (ready_client loop name callbacks) s
    → get_elem? s.made j ≡ some m
    → apply m.handlers t event m.conn ≡ ok c
    → closes m.conn.calls < closes c.calls
    → (s.connection ≡ some j)
      × ((k : ℕ) (other : Made)
          → get_elem? s.made k ≡ some other
          → k ≢ j
          → (other.conn.state ≡ disconnected) × (closes other.conn.calls ≡ 1))
closing_is_current owned loop name callbacks s t j m event c r reach here called more =
    let v = Reach-Inv owned loop name callbacks r reach in
    let follows =
      apply-Follows m.handlers t (v.handlers j m here) event m.conn c (Allows-all event) called in
    let once = IsOrderly-closes c (Follows-IsOrderly follows (v.orderly j m here)) in
    let now : s.connection ≡ some j =
      current_at-one j s.connection (omega (arith, v.accounted j m here, once, more)) in
    (
      now,
      λ k other there away.
          let ended : closes other.conn.calls ≡ 1 =
            omega (
              arith,
              v.accounted k other there,
              ap (current_at k) now,
              current_at_other j k away,
            ) in
          let orderly = v.orderly k other there in
          (rank_top other.conn.state (omega (arith, orderly.closed, ended)), ended),
    )
