-- ===== src/Net/TcpServer/System/Accepted.antt =====
-- What an accept of a server's socket has done when it returns.
use lib_net_toy.Net.TcpServer.System.{System, accept, refused}
use lib_net_toy.Prelude.{
  ok-injective, >>=-eq-ok, ℕ, ◌+◌, ◌≡◌, sym, ◌≢◌, some, [], ◌∷◌, ◌++◌, arith, ok,
}
use lib_net_toy.Net.TcpServer.{TcpServer, Connection, establish, conn_name, put, new_connection}
use lib_net_toy.Net.TcpConnection.Types
use lib_net_toy.Net.TcpConnection.Types.{TcpConnection, closes}
use lib_net_toy.Net.TcpConnection.Lifecycle.{IsOrderly, rank}
use lib_net_toy.Net.TcpConnection.Lifecycle.Order.{new_connection-fresh, new_connection-IsOrderly}
use lib_net_toy.Base.EventLoop.{EventLoop}

-- The server, with a connection on the loop of another thread.
abbrev pub with_new : EventLoop → TcpServer → TcpServer
with_new io_loop s =
    let name = conn_name s.name s.ip_port s.next_conn_id in
    let conn : Connection = record { name = name; io_loop = io_loop } in
    record s {
      next_conn_id = s.next_conn_id + 1;
      connections = put name conn s.connections;
      requests = s.requests ++ establish conn ∷ [];
    }

new_connection-eq-ok :
    (thread : ℕ) (io_loop : EventLoop) (s s' : TcpServer)
    → io_loop.thread_id ≢ thread
    → new_connection refused thread (some io_loop) s ≡ ok s'
    → with_new io_loop s ≡ s'
unfolding new_connection
new_connection-eq-ok thread io_loop s s' away e = ground (arith, e)

pub accept-eq-ok :
    (thread : ℕ) (io_loop : EventLoop) (s s' : System)
    → io_loop.thread_id ≢ thread
    → accept thread io_loop s ≡ ok s'
    → (tcp : TcpConnection) × IsOrderly tcp
      × (closes tcp.calls ≡ 0)
      × (rank tcp.state ≡ 0)
      × (s' ≡ record {
        server = with_new io_loop s.server;
        living =
            s.living
            ++ record {
              conn = record {
                name = conn_name s.server.name s.server.ip_port s.server.next_conn_id;
                io_loop = io_loop;
              };
              tcp = tcp;
            }
              ∷ [];
      })
unfolding accept
accept-eq-ok thread io_loop s s' away e =
    let name = conn_name s.server.name s.server.ip_port s.server.next_conn_id in
    let (tcp, e₁, rest) = >>=-eq-ok (Types.new_connection (some io_loop) name) _ e in
    let (server, e₂, e₃) =
      >>=-eq-ok (new_connection refused thread (some io_loop) s.server) _ rest in
    let made = new_connection-eq-ok thread io_loop s.server server away e₂ in
    (
      tcp,
      new_connection-IsOrderly (some io_loop) name tcp e₁,
      (new_connection-fresh (some io_loop) name tcp e₁).0,
      (new_connection-fresh (some io_loop) name tcp e₁).1,
      rw made (sym (ok-injective e₃)),
    )
