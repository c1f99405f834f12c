-- ===== src/Net/TcpServer/Accepting.antt =====
-- Which loop an accepted socket belongs to.
use lib_net_toy.Net.TcpServer.{
  find, Connection, Request, TcpServer, listen, listen_in_loop, Acceptor, accept_handler,
  new_connection,
}
use lib_net_toy.Net.TcpServer.Connections.{IsNamed, LeavesServer, new_connection_lem}
use lib_net_toy.Base.EventLoopThreadPool.Turns.{get_next_loop_lem}
use lib_net_toy.Base.EventLoopThreadPool.{EventLoopThreadPool}
use lib_net_toy.Base.EventLoop.{EventLoop, is_in_loop_thread-true}
use lib_net_toy.Prelude.{
  ℕ, ◌+◌, ◌-◌, ◌%◌, ◌^◌, ◌<◌, ◌≡◌, refl, sym, ap, ◌∙◌, true, false, Option, none, some, [], ◌∷◌,
  ◌++◌, arith, Result, ok, ◌>>=◌, length, get_elem?,
}

-- A server that was started in its loop's thread, with a pool of threads, and waits for a socket
-- that was made on `current`.
pub record IsListening (thread : ℕ) (current : EventLoop) (s : TcpServer) : Type 0 where
  pub own_thread : s.loop.thread_id ≡ thread
  pub acceptor_thread : s.acceptor.loop.thread_id ≡ thread
  pub pool_thread : s.thread_pool.base_loop.thread_id ≡ thread
  pub pool_started : s.thread_pool.started ≡ true
  pub pool_turn : s.thread_pool.next < length s.thread_pool.loops
  pub named : IsNamed s
  pub bound : s.acceptor.new_sock_binded_loop ≡ some current

listen_lem :
    (thread : ℕ) (s : TcpServer)
    → s.acceptor.loop.thread_id ≡ thread
    → s.thread_pool.base_loop.thread_id ≡ thread
    → s.thread_pool.started ≡ true
    → s.thread_pool.next < length s.thread_pool.loops
    → (next : EventLoop) × (get_elem? s.thread_pool.loops s.thread_pool.next ≡ some next)
      × (listen thread s
          ≡ ok (record s {
            thread_pool = record s.thread_pool {
              next = (s.thread_pool.next + 1) % length s.thread_pool.loops;
            };
            acceptor = record s.acceptor {
              listenning = true;
              new_sock_binded_loop = some next;
              accepts = s.acceptor.accepts ++ next ∷ [];
            };
          }))
unfolding listen listen_in_loop
listen_lem thread s a p st lt =
    let (next, g, e) = get_next_loop_lem thread s.thread_pool p st lt in
    (next, g, rw (is_in_loop_thread-true s.acceptor.loop thread a, e) refl)

module _ (exec : Request → TcpServer → Result TcpServer) (leaves : LeavesServer exec)
    (thread : ℕ) where
  -- An accepted socket becomes a connection on the loop that the socket was made on, and the server
  -- listens again, with a socket on the loop whose turn it is.
  pub accept_handler_lem :
      (current : EventLoop) (s : TcpServer)
      → IsListening thread current s
      → s.next_conn_id < 2 ^ 31 - 1
      → (conn : Connection) × (next : EventLoop) × (s' : TcpServer) × (accept_handler exec thread
            false s
          ≡ ok s')
        × (conn.io_loop ≡ current)
        × (find conn.name s.connections ≡ none)
        × (find conn.name s'.connections ≡ some conn)
        × (get_elem? s.thread_pool.loops s.thread_pool.next ≡ some next)
        × (s'.acceptor.accepts ≡ s.acceptor.accepts ++ next ∷ [])
        × (s'.thread_pool
            ≡ record s.thread_pool { next = (s.thread_pool.next + 1) % length s.thread_pool.loops })
        × (s'.next_conn_id ≡ s.next_conn_id + 1)
        × IsListening thread next s'
  unfolding accept_handler
  accept_handler_lem current s w small =
      let (conn, s₁, e, l, fresh, cs, f, a, loop₁, pool₁, acc₁, n₁) =
        new_connection_lem exec leaves thread current s w.own_thread small w.named in
      let (next, g, e₂) =
        listen_lem thread s₁ (rw acc₁ w.acceptor_thread) (rw pool₁ w.pool_thread)
          (rw pool₁ w.pool_started) (rw pool₁ w.pool_turn) in
      let pool : EventLoopThreadPool = record s₁.thread_pool {
        next = (s₁.thread_pool.next + 1) % length s₁.thread_pool.loops;
      } in
      (
        conn,
        next,
        record s₁ {
          thread_pool = pool;
          acceptor = record s₁.acceptor {
            listenning = true;
            new_sock_binded_loop = some next;
            accepts = s₁.acceptor.accepts ++ next ∷ [];
          };
        },
        ap (λ (o : Option EventLoop). new_connection exec thread o s >>= listen thread) w.bound
            ∙ rw e e₂,
        l,
        fresh,
        f,
        ap (λ (p : EventLoopThreadPool). get_elem? p.loops p.next) (sym pool₁) ∙ g,
        ap (λ (x : Acceptor). x.accepts ++ next ∷ []) acc₁,
        ap (λ (p : EventLoopThreadPool). record p { next = (p.next + 1) % length p.loops }) pool₁,
        n₁,
        record {
          own_thread = rw loop₁ w.own_thread;
          acceptor_thread = rw acc₁ w.acceptor_thread;
          pool_thread = rw pool₁ w.pool_thread;
          pool_started = rw pool₁ w.pool_started;
          pool_turn = rw pool₁ (omega (arith, w.pool_turn));
          named = a;
          bound = refl;
        },
      )
