-- ===== src/Net/TcpClient/Reconnecting.antt =====
-- The client's way from one connection to the next.
use lib_net_toy.Net.TcpConnection.Types
use lib_net_toy.Base.Buffer.IsValid.{init_lem}
use lib_net_toy.Net.TcpClient.Closing.{call_connection-quiet}
use lib_net_toy.Net.TcpConnection.Lifecycle.{closes-append}
use lib_net_toy.Net.TcpConnection.Handlers.{connect_established}
use lib_net_toy.Net.TcpClient.{conn_name, Made, TcpClient, new_connection}
use lib_net_toy.Net.TcpConnection.Closing.{Watches, connect_established_lem}
use lib_net_toy.Net.TcpConnection.Types.{
  closes, leave_close, with_loop, Call, connection_closed, connection_changed, message_arrived,
  write_completed, is_open, Handlers, TcpConnection, connected, connecting, disconnected,
}
use lib_net_toy.Base.EventLoop.{EventLoop, is_in_loop_thread-true}
use lib_net_toy.Prelude.{
  set-append_last, get_elem?-append_last, ℕ, ◌+◌, ◌-◌, ◌*◌, ◌^◌, ◌<◌, ◌≡◌, refl, ap, ◌∙◌, Bool,
  true, false, Option, some, List, [], ◌∷◌, ◌++◌, arith, ok, length,
}

-- The constructor of a connection returns.
new_connection-eq-ok :
    (loop : Option EventLoop) (name : List ℕ)
    → (c : TcpConnection) × (Types.new_connection loop name ≡ ok c)
      × (c.loop ≡ loop)
      × (c.state ≡ connecting)
      × (c.calls ≡ [])
unfolding Types.new_connection
new_connection-eq-ok loop name =
    let (b, e, v, k, w, p) = init_lem 4096 (omega arith) in
    (
      record {
        loop = loop;
        name = name;
        state = connecting;
        reading = true;
        high_water_mark = 64 * 1024 * 1024;
        input_buffer = b;
        output_buffer = b;
        reads = [];
        sends = [];
        write_shut = false;
        posted = [];
        calls = [];
      },
      rw e refl,
      refl,
      refl,
      refl,
    )

module _ (owned : ℕ → Bool) (thread : ℕ) where
  -- A connect that succeeded gives the client a connection, which has reported UP.
  pub new_connection_lem :
      (peer : List ℕ) (s : TcpClient)
      → s.loop.thread_id ≡ thread
      → s.next_conn_id < 2 ^ 31 - 1
      → Watches s.callbacks.connection_callback
      → (m : Made) × (new_connection owned thread peer s
          ≡ ok (record s {
            next_conn_id = s.next_conn_id + 1;
            connection = some (length s.made);
            made = s.made ++ m ∷ [];
          }))
        × (m.conn.state ≡ connected)
        × (m.conn.loop ≡ some s.loop)
        × (m.conn.calls ≡ connection_changed true ∷ [])
        × (m.handlers.connection_callback ≡ s.callbacks.connection_callback)
        × (m.handlers.close_callback ≡ leave_close)
  unfolding new_connection
  new_connection_lem peer s t small w =
      let handlers : Handlers = record s.callbacks { close_callback = leave_close } in
      let (c, e, l, st, k) =
        new_connection-eq-ok (some s.loop) (conn_name s.name peer s.next_conn_id) in
      let (c', e', st', l', k') =
        connect_established_lem handlers thread s.loop t w (λ d. (d, refl, refl, refl, refl)) c l
          st in
      let made : Made = record { conn = c; handlers = handlers } in
      let same : closes c'.calls ≡ closes c.calls =
        omega (arith, ap closes k', closes-append c.calls (connection_changed true ∷ [])) in
      let up = rw (set-append_last s.made made (record { conn = c'; handlers = handlers })) at (
        call_connection-quiet owned thread (λ h. connect_established h thread) (length s.made) made
          (record s {
            next_conn_id = s.next_conn_id + 1;
            connection = some (length s.made);
            made = s.made ++ made ∷ [];
          })
          c' (get_elem?-append_last s.made made (length s.made) refl) e' same) in
      (
        record { conn = c'; handlers = handlers },
        ground (arith, is_in_loop_thread-true s.loop thread t, e, up),
        st',
        l',
        k' ∙ ap (λ xs. xs ++ connection_changed true ∷ []) k,
        refl,
        refl,
      )
