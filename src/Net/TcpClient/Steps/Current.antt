-- ===== src/Net/TcpClient/Steps/Current.antt =====
-- A new connection comes only when there is no other, and every step keeps the account.
use lib_net_toy.Net.Connector.{
  k_disconnected, has, drop_socket, retry, Connector, handle_connect, k_connected,
}
use lib_net_toy.Net.TcpClient.{connect_done, TcpClient, call_connection, conn_name, new_connection}
use lib_net_toy.Net.TcpClient.Steps.{without_connect}
use lib_net_toy.Net.TcpConnection.Lifecycle.{established, IsOrderly, Event, apply}
use lib_net_toy.Net.TcpConnection.Lifecycle.Order.{
  new_connection-fresh, new_connection-IsOrderly, Allows-all,
}
use lib_net_toy.Net.TcpClient.Steps.Connecting.{
  under_way, under_way_le, drop_socket-length, retry-Sound, Sound,
}
use lib_net_toy.Prelude.{
  ◌∙◌, ◌≤◌, Option-cases, refl, length, get_elem?-append-cases, get_elem?-lt, inl, inr, sym, ap,
  ok-injective, >>=-eq-ok, ℕ, ◌+◌, ◌-◌, ◌^◌, ◌≡◌, Bool, true, false, none, some, List, [], ◌∷◌,
  ◌++◌, arith, ok, fault, signed_overflow, ltb, if◌then◌else◌,
}
use lib_net_toy.Net.TcpClient.Steps.Keeping.{Inv, call_connection-Inv}
use lib_net_toy.Net.TcpConnection.Types
use lib_net_toy.Net.TcpConnection.Types.{TcpConnection, Handlers, closes, leave_close, disconnected}
use lib_net_toy.Net.TcpConnection.Lifecycle.Later.{RespectsAll, stays}
use lib_net_toy.Net.TcpConnection.Lifecycle.Events.{apply-Follows}
use lib_net_toy.Base.EventLoop.{assert_in_loop_thread}

-- With the close callback of the client.
client-RespectsAll :
    (h : Handlers)
    → RespectsAll true h
    → RespectsAll true (record h { close_callback = leave_close })
client-RespectsAll h r = record {
  on_connection = r.on_connection;
  on_message = r.on_message;
  on_write_complete = r.on_write_complete;
  on_close = λ c c' e.
      stays (ap (λ (d : TcpConnection). d.state) (sym (ok-injective e)))
        (ap (λ (d : TcpConnection). d.calls) (sym (ok-injective e)));
}

-- What happens to a connection keeps the account.
pub event-Inv :
    (owned : ℕ → Bool) (t i : ℕ) (event : Event) (s s' : TcpClient)
    → Inv s
    → call_connection owned t (λ h. apply h t event) i s ≡ ok s'
    → Inv s'
event-Inv owned t i event s s' v e =
    call_connection-Inv owned t (λ h. apply h t event) i s s' v
      (λ m c here called.
        apply-Follows m.handlers t (v.handlers i m here) event m.conn c (Allows-all event) called)
      e

-- A connection that is not established yet joins the others.
join-Inv :
    (s : TcpClient) (n : ℕ) (c : TcpConnection) (h : Handlers)
    → Inv s
    → s.connection ≡ none
    → s.connector.state ≡ k_connected
    → IsOrderly c
    → closes c.calls ≡ 0
    → RespectsAll true h
    → Inv (record s {
      next_conn_id = n;
      connection = some (length s.made);
      made = s.made ++ record { conn = c; handlers = h } ∷ [];
    })
join-Inv s n c h v free up orderly zero_closes r = record {
  callbacks = v.callbacks;
  handlers = λ j m e. elim (get_elem?-append-cases s.made _ j m e) [
    | inl there ↦ v.handlers j m there
    | inr (last, same) ↦ rw same r
  ];
  orderly = λ j m e. elim (get_elem?-append-cases s.made _ j m e) [
    | inl there ↦ v.orderly j m there
    | inr (last, same) ↦ rw same orderly
  ];
  accounted = λ j m e. elim (get_elem?-append-cases s.made _ j m e) [
    | inl there ↦
        let all : closes m.conn.calls + 0 ≡ 1 = rw free at (v.accounted j m there) in
        ground (arith, all, get_elem?-lt s.made j m there)
    | inr (last, same) ↦ rw same (ground (arith, last, zero_closes))
  ];
  connecting = record {
    single = v.connecting.single;
    up = λ i now. up;
    unstopped = v.connecting.unstopped;
  };
}

-- The number of the next connection is no part of the account.
count-Inv : (s : TcpClient) (n : ℕ) → Inv s → Inv (record s { next_conn_id = n })
count-Inv s n v = record {
  callbacks = v.callbacks;
  handlers = v.handlers;
  orderly = v.orderly;
  accounted = v.accounted;
  connecting = v.connecting;
}

new_connection-Inv :
    (owned : ℕ → Bool) (t : ℕ) (peer : List ℕ) (s s' : TcpClient)
    → Inv s
    → s.connection ≡ none
    → s.connector.state ≡ k_connected
    → new_connection owned t peer s ≡ ok s'
    → Inv s'
unfolding new_connection apply
new_connection-Inv owned t peer s s' v free up e =
    let (_, _, e₁) = >>=-eq-ok (assert_in_loop_thread s.loop t) _ e in
    let (s₁, e₂, e₃) =
      >>=-eq-ok
        (if ltb s.next_conn_id (2 ^ 31 - 1)
          then ok (record s { next_conn_id = s.next_conn_id + 1 })
          else fault signed_overflow)
        _ e₁ in
    let counted : record s { next_conn_id = s.next_conn_id + 1 } ≡ s₁ = ground (arith, e₂) in
    let (c, e₄, e₅) =
      >>=-eq-ok (Types.new_connection (some s₁.loop) (conn_name s.name peer s.next_conn_id)) _ e₃ in
    let h : Handlers = record s₁.callbacks { close_callback = leave_close } in
    let v₁ : Inv s₁ = rw counted at (count-Inv s (s.next_conn_id + 1) v) in
    let joined =
      join-Inv s₁ s₁.next_conn_id c h v₁ (ap (λ (x : TcpClient). x.connection) (sym counted) ∙ free)
        (ap (λ (x : TcpClient). x.connector.state) (sym counted) ∙ up)
        (new_connection-IsOrderly (some s₁.loop) (conn_name s.name peer s.next_conn_id) c e₄)
        (new_connection-fresh (some s₁.loop) (conn_name s.name peer s.next_conn_id) c e₄).0
        (client-RespectsAll s₁.callbacks v₁.callbacks) in
    event-Inv owned t (length s₁.made) established
      (record s₁ {
        connection = some (length s₁.made);
        made = s₁.made ++ record { conn = c; handlers = h } ∷ [];
      })
      s' joined e₅

-- The connector changes, and the connection does not.
pub connector-Inv :
    (s : TcpClient) (c : Connector)
    → Inv s
    → Sound s.connection c
    → Inv (record s { connector = c })
connector-Inv s c v sound = record {
  callbacks = v.callbacks;
  handlers = v.handlers;
  orderly = v.orderly;
  accounted = v.accounted;
  connecting = sound;
}

-- While a connect is under way there is no connection, and no other connect.
alone :
    (s : TcpClient) (socket : ℕ)
    → Inv s
    → has s.connector.connects socket ≡ true
    → (s.connection ≡ none) × (length (drop_socket socket s.connector.connects) ≡ 0)
alone s socket v there =
    let one = drop_socket-length socket s.connector.connects there in
    let busy : 1 ≤ under_way s.connector.state = omega (arith, one, v.connecting.single) in
    (
      elim (Option-cases s.connection) [
        | inl free ↦ free
        | inr (i, now) ↦ absurd (omega (arith, busy, ap under_way (v.connecting.up i now)))
      ],
      omega (arith, one, v.connecting.single, under_way_le s.connector.state),
    )

pub connect_done-Inv :
    (owned : ℕ → Bool) (t socket : ℕ) (error : Bool) (peer : List ℕ) (s s' : TcpClient)
    → Inv s
    → has s.connector.connects socket ≡ true
    → connect_done owned t socket error peer (without_connect socket s) ≡ ok s'
    → Inv s'
unfolding connect_done handle_connect
connect_done-Inv owned t socket true peer s s' v there e =
    let (free, none_left) = alone s socket v there in
    let d : Connector = record s.connector {
      connects = drop_socket socket s.connector.connects;
      state = k_disconnected;
    } in
    let (c, e₁, e₂) = >>=-eq-ok (retry owned (socket ∷ []) d) _ e in
    let down : Sound s.connection d = record {
      single = none_left;
      up = λ i now. cc;
      unstopped = v.connecting.unstopped;
    } in
    rw (ok-injective e₂) at
      (connector-Inv s c v (retry-Sound owned (socket ∷ []) s.connection d c down refl e₁))
connect_done-Inv owned t socket false peer s s' v there e =
    let (free, none_left) = alone s socket v there in
    let d : Connector = record s.connector {
      connects = drop_socket socket s.connector.connects;
      state = k_connected;
    } in
    let up : Sound s.connection d = record {
      single = none_left;
      up = λ i now. refl;
      unstopped = v.connecting.unstopped;
    } in
    new_connection-Inv owned t peer (record s { connector = d }) s' (connector-Inv s d v up) free
      refl e
