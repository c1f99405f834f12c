-- ===== src/Net/TcpClient/Closing.antt =====
-- What the client does when its connection closes.
use lib_net_toy.Net.Connector
use lib_net_toy.Net.TcpClient.{Made, TcpClient, remove_connection, call_connection}
use lib_net_toy.Net.Connector.{
  Connector, connect_socket, k_disconnected, k_init_retry_delay_ms, start_in_loop,
}
use lib_net_toy.Net.TcpConnection.Closing.{Watches, handle_close_lem}
use lib_net_toy.Net.TcpConnection.Lifecycle.{closes-append}
use lib_net_toy.Net.TcpConnection.Types.{
  closes, with_loop, connection_closed, connection_changed, is_open, Handlers, TcpConnection,
  disconnected,
}
use lib_net_toy.Base.EventLoop.{EventLoop, is_in_loop_thread-true}
use lib_net_toy.Net.TcpConnection.Handlers.{read_handler, eof}
use lib_net_toy.Base.EventLoopThreadPool.{at-eq-ok}
use lib_net_toy.Prelude.{
  ℕ, ◌≡◌, refl, ap, Bool, true, false, ◌&&◌, none, some, [], ◌∷◌, ◌++◌, arith, ltb, if◌then◌else◌,
  Result, ok, get_elem?, set, get_elem?-set_self, lt→ltb,
}

-- The client has an open connection, the `i`th, in its own loop.
pub record IsServing (thread i : ℕ) (m : Made) (s : TcpClient) : Type 0 where
  pub own_thread : s.loop.thread_id ≡ thread
  pub current : s.connection ≡ some i
  pub its_place : get_elem? s.made i ≡ some m
  pub its_loop : m.conn.loop ≡ some s.loop
  pub is_up : is_open m.conn ≡ true
  pub on_connection : Watches m.handlers.connection_callback
  pub on_close : Watches m.handlers.close_callback
  pub connector_loop : s.connector.loop ≡ some s.loop

-- The connector once `restart` has begun a new attempt.
abbrev pub restarted : Connector → Connector
restarted c =
    connect_socket
      (record c { state = k_disconnected; retry_delay_ms = k_init_retry_delay_ms; connect = true })

restart_lem :
    (owned : ℕ → Bool) (thread : ℕ) (loop : EventLoop) (c : Connector)
    → loop.thread_id ≡ thread
    → c.loop ≡ some loop
    → Connector.restart owned thread c ≡ ok (restarted c)
unfolding Connector.restart start_in_loop with_loop
restart_lem owned thread loop c t its = ground (arith, its, is_in_loop_thread-true loop thread t)

-- The client after the connection `i` was removed.
abbrev pub removed : ℕ → TcpClient → TcpClient
removed i s = record s {
  connection = none;
  destroys_posted = s.destroys_posted ++ i ∷ [];
  connector = if s.retry && s.connect then restarted s.connector else s.connector;
}

remove_connection_lem :
    (owned : ℕ → Bool) (thread i : ℕ) (m : Made) (s : TcpClient)
    → s.loop.thread_id ≡ thread
    → get_elem? s.made i ≡ some m
    → m.conn.loop ≡ some s.loop
    → s.connection ≡ some i
    → s.connector.loop ≡ some s.loop
    → remove_connection owned thread i s ≡ ok (removed i s)
unfolding remove_connection
remove_connection_lem owned thread i m s t e l c k = ground (
  arith,
  e,
  l,
  c,
  is_in_loop_thread-true s.loop thread t,
  restart_lem owned thread s.loop s.connector t k,
)

module _ (owned : ℕ → Bool) (thread : ℕ) where
  -- A call that does not call the close callback changes the connection only.
  pub call_connection-quiet :
      (f : Handlers → TcpConnection → Result TcpConnection) (i : ℕ) (m : Made) (s : TcpClient)
      (c : TcpConnection)
      → get_elem? s.made i ≡ some m
      → f m.handlers m.conn ≡ ok c
      → closes c.calls ≡ closes m.conn.calls
      → call_connection owned thread f i s
        ≡ ok (record s { made = set s.made i (record m { conn = c }) })
  unfolding call_connection
  call_connection-quiet f i m s c e k calls =
      let n = closes m.conn.calls in
      let same : ltb n n ≡ false = ground arith in rw (at-eq-ok s.made i m e, k, calls, same) refl

  -- A call that closes the connection removes it.
  call_closes :
      (f : Handlers → TcpConnection → Result TcpConnection) (i : ℕ) (m : Made) (s : TcpClient)
      (c : TcpConnection)
      → IsServing thread i m s
      → f m.handlers m.conn ≡ ok c
      → c.loop ≡ some s.loop
      → c.calls ≡ m.conn.calls ++ connection_changed false ∷ connection_closed ∷ []
      → call_connection owned thread f i s
        ≡ ok (removed i (record s { made = set s.made i (record m { conn = c }) }))
  unfolding call_connection
  call_closes f i m s c v e l k =
      let s₁ : TcpClient = record s { made = set s.made i (record m { conn = c }) } in
      let more : ltb (closes m.conn.calls) (closes c.calls) ≡ true = lt→ltb _ _ (
        omega (
          arith,
          ap closes k,
          closes-append m.conn.calls (connection_changed false ∷ connection_closed ∷ []),
        )) in
      let removes =
        remove_connection_lem owned thread i (record m { conn = c }) s₁ v.own_thread
          (get_elem?-set_self s.made i m (record m { conn = c }) v.its_place) l v.current
          v.connector_loop in
      rw (at-eq-ok s.made i m v.its_place, e, more) removes

  -- When the peer closes the connection the client lets go of it, and connects again exactly if
  -- `enableRetry` was called and neither `disconnect` nor `stop` was.
  pub peer_closes :
      (i n : ℕ) (m : Made) (s : TcpClient)
      → IsServing thread i m s
      → (c : TcpConnection) × (call_connection owned thread (λ h. read_handler h thread eof n) i s
          ≡ ok (record s {
            made = set s.made i (record m { conn = c });
            connection = none;
            destroys_posted = s.destroys_posted ++ i ∷ [];
            connector = if s.retry && s.connect then restarted s.connector else s.connector;
          }))
        × (c.state ≡ disconnected)
        × (c.loop ≡ some s.loop)
        × (c.calls ≡ m.conn.calls ++ connection_changed false ∷ connection_closed ∷ [])
  unfolding read_handler
  peer_closes i n m s v =
      let (c, e, st, l, k) =
        handle_close_lem m.handlers thread s.loop v.own_thread v.on_connection v.on_close m.conn
          v.its_loop v.is_up in
      (c, call_closes (λ h. read_handler h thread eof n) i m s c v e l k, st, l, k)
