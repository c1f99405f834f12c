-- ===== src/Net/TcpClient/Disconnecting.antt =====
-- The end of a connection that the client has asked for.
use lib_net_toy.Net.TcpClient.{
  closes, connection_closed, TcpClient, Made, call_connection, connect, disconnect,
}
use lib_net_toy.Net.TcpConnection.Types.{
  connection_changed, Handlers, TcpConnection, disconnecting, disconnected, is_open, is_connected,
  with_loop, with_loop-some,
}
use lib_net_toy.Net.TcpClient.Closing.{IsServing, call_connection-quiet, peer_closes}
use lib_net_toy.Net.TcpConnection.Handlers.{shutdown, shutdown_in_loop, exec, read_handler, eof}
use lib_net_toy.Base.EventLoop.{is_in_loop_thread-true, EventLoop}
use lib_net_toy.Net.Connector.{k_connected}
use lib_net_toy.Net.Connector.Misuse.{start_connected}
use lib_net_toy.Prelude.{
  assertion, fault, ℕ, ◌≡◌, refl, ap, ◌∙◌, inl, inr, Bool, true, false, ◌&&◌, none, some, [], ◌∷◌,
  ◌++◌, arith, Bool-cases, ok, ◌>>=◌, set, get_elem?-set_self, set-set,
}

-- `shutdown` leaves an open connection open and calls nothing.
shutdown_lem :
    (h : Handlers) (thread : ℕ) (loop : EventLoop) (c : TcpConnection)
    → loop.thread_id ≡ thread
    → c.loop ≡ some loop
    → is_open c ≡ true
    → (c' : TcpConnection) × (shutdown h thread c ≡ ok c')
      × (c'.loop ≡ some loop)
      × (is_open c' ≡ true)
      × (c'.calls ≡ c.calls)
unfolding shutdown shutdown_in_loop exec with_loop
shutdown_lem h thread loop c t l o =
    let closing : TcpConnection = record c { state = disconnecting } in
    let shut : shutdown_in_loop thread closing ≡ ok (record closing { write_shut = true }) =
      ground (arith, l, is_in_loop_thread-true loop thread t) in
    elim (Bool-cases (is_connected c)) [
      | inl e ↦ (
        record closing { write_shut = true },
        rw (e, with_loop-some c.loop (ok c) _ l, is_in_loop_thread-true loop thread t) shut,
        l,
        refl,
        refl,
      )
      | inr e ↦ (c, rw e refl, l, o, refl)
    ]

module _ (owned : ℕ → Bool) (thread : ℕ) where
  disconnect_lem :
      (i : ℕ) (m : Made) (s : TcpClient)
      → IsServing thread i m s
      → (c : TcpConnection) × (disconnect owned thread s
          ≡ ok (record s { connect = false; made = set s.made i (record m { conn = c }) }))
        × IsServing thread i
            (record m { conn = c })
            (record s { connect = false; made = set s.made i (record m { conn = c }) })
        × (c.calls ≡ m.conn.calls)
  unfolding disconnect
  disconnect_lem i m s v =
      let (c, e, l, o, k) =
        shutdown_lem m.handlers thread s.loop m.conn v.own_thread v.its_loop v.is_up in
      let quiet =
        call_connection-quiet owned thread (λ h. shutdown h thread) i m
          (record s { connect = false }) c v.its_place e (ap closes k) in
      (
        c,
        ap
              (λ o. elim o [
                | none ↦ ok (record s { connect = false })
                | some j ↦
                    call_connection owned thread (λ h. shutdown h thread) j
                      (record s { connect = false })
              ])
              v.current
            ∙ quiet,
        record {
          own_thread = v.own_thread;
          current = v.current;
          its_place = get_elem?-set_self s.made i m (record m { conn = c }) v.its_place;
          its_loop = l;
          is_up = o;
          on_connection = v.on_connection;
          on_close = v.on_close;
          connector_loop = v.connector_loop;
        },
        k,
      )

  -- When a client with an open connection has called `disconnect`, and its peer then closes that
  -- connection, the client does not connect again, whether or not `enableRetry` was called: its
  -- connector is left as it was. The user hears DOWN once.
  pub disconnect_stays :
      (i n : ℕ) (m : Made) (s : TcpClient)
      → IsServing thread i m s
      → (c : TcpConnection) × ((disconnect owned thread s
            >>= call_connection owned thread (λ h. read_handler h thread eof n) i)
          ≡ ok (record s {
            connect = false;
            connection = none;
            made = set s.made i (record m { conn = c });
            destroys_posted = s.destroys_posted ++ i ∷ [];
          }))
        × (c.state ≡ disconnected)
        × (c.calls ≡ m.conn.calls ++ connection_changed false ∷ connection_closed ∷ [])
  disconnect_stays i n m s v =
      let (c, e, v', k) = disconnect_lem i m s v in
      let (c', e', st, l, k') = peer_closes owned thread i n (record m { conn = c }) _ v' in
      let never : (s.retry && false) ≡ false = ground arith in
      let old = record m { conn = c } in
      (
        c',
        rw e (e' ∙ rw (never, set-set s.made i old (record m { conn = c' })) refl),
        st,
        k' ∙ ap (λ xs. xs ++ connection_changed false ∷ connection_closed ∷ []) k,
      )

  -- The flaw: when its peer has closed the connection of a client that is not to retry and whose
  -- connector is `kConnected`, the connector stays so, and `connect` fails its assertion.
  pub connect_after_close :
      (i n : ℕ) (m : Made) (s : TcpClient)
      → IsServing thread i m s
      → (s.retry && s.connect) ≡ false
      → s.connector.state ≡ k_connected
      → (call_connection owned thread (λ h. read_handler h thread eof n) i s
          >>= connect owned thread)
        ≡ fault assertion
  unfolding connect
  connect_after_close i n m s v once up =
      let (c, e, st, l, k) = peer_closes owned thread i n m s v in
      rw (e, once)
        (rw (start_connected owned thread s.loop s.connector v.own_thread v.connector_loop up) refl)
