-- ===== src/Net/TcpServer/Reentrant.antt =====
-- Connections whose callbacks close connections at once, in the server's own thread.
use lib_net_toy.Net.TcpServer.{
  new_server, erase, put, find, remove_connection_in_loop, Connection, post_request, conn_name,
  TcpServer, Request, new_connection, destroy, establish,
}
use lib_net_toy.Net.TcpServer.Connections.{
  SameServer, IsNamed, SameServer-IsNamed, Serves, begin, comes, goes,
}
use lib_net_toy.Net.TcpServer.Names.{put-AllNamed, find-next, AllNamed-suc, erase-AllNamed}
use lib_net_toy.Base.EventLoop.{EventLoop, run_in_loop, is_in_loop_thread}
use lib_net_toy.Prelude.{
  ok-injective, ℕ, ◌+◌, ◌≡◌, inl, inr, none, some, List, arith, Bool-cases, Result, ok,
}

-- A call has taken any number of connections out of the map.
pub data Closes (s : TcpServer) : TcpServer → Type 0 where
  quiet : {s' : TcpServer} → SameServer s s' → Closes s s'
  closes :
      (name : List ℕ) {s' s'' : TcpServer}
      → Closes s s'
      → SameServer (record s' { connections = (erase name s'.connections).0 }) s''
      → Closes s s''

-- What the calls of the connections may do to the server; one may also fail.
abbrev pub ClosesOnly : (Request → TcpServer → Result TcpServer) → Type 0
ClosesOnly exec = (r : Request) (s s' : TcpServer) → exec r s ≡ ok s' → Closes s s'

Closes-IsNamed : {s s' : TcpServer} → Closes s s' → IsNamed s → IsNamed s'
Closes-IsNamed (quiet same) a = SameServer-IsNamed _ _ same a
Closes-IsNamed {s = s} (closes name {s'} c same) a =
    SameServer-IsNamed _ _ same
      (erase-AllNamed s'.name s'.ip_port s'.next_conn_id name s'.connections (Closes-IsNamed c a))

module _ (exec : Request → TcpServer → Result TcpServer) (only : ClosesOnly exec) (thread : ℕ) where
  request-IsNamed :
      (r : Request) (l : EventLoop) (s s' : TcpServer)
      → run_in_loop exec (post_request exec thread) l thread r s ≡ ok s'
      → IsNamed s
      → IsNamed s'
  request-IsNamed r l s s' e a = elim (Bool-cases (is_in_loop_thread l thread)) [
    | inl own ↦ Closes-IsNamed (only r s s' (ground (arith, e))) a
    | inr other ↦
        rw
          (← ok-injective
            (let x : ok (post_request exec thread r s) ≡ ok s' = ground (arith, e) in x))
          a
  ]

  comes-IsNamed :
      (io_loop : EventLoop) (s s' : TcpServer)
      → new_connection exec thread (some io_loop) s ≡ ok s'
      → IsNamed s
      → IsNamed s'
  unfolding new_connection
  comes-IsNamed io_loop s s' e a =
      let k = conn_name s.name s.ip_port s.next_conn_id in
      let conn : Connection = record { name = k; io_loop = io_loop } in
      request-IsNamed (establish conn) io_loop
        (record s { next_conn_id = s.next_conn_id + 1; connections = put k conn s.connections }) s'
        (ground (arith, e))
        (put-AllNamed s.name s.ip_port (s.next_conn_id + 1) s.next_conn_id conn s.connections
          (omega arith) (AllNamed-suc s.name s.ip_port s.next_conn_id s.connections a))

  goes-IsNamed :
      (conn : Connection) (s s' : TcpServer)
      → remove_connection_in_loop exec thread conn s ≡ ok s'
      → IsNamed s
      → IsNamed s'
  unfolding remove_connection_in_loop
  goes-IsNamed conn s s' e a =
      request-IsNamed (destroy conn) conn.io_loop
        (record s { connections = (erase conn.name s.connections).0 }) s' (ground (arith, e))
        (erase-AllNamed s.name s.ip_port s.next_conn_id conn.name s.connections a)

  Serves-IsNamed : {s s' : TcpServer} → Serves exec thread s s' → IsNamed s → IsNamed s'
  Serves-IsNamed begin a = a
  Serves-IsNamed (comes io_loop p e) a = comes-IsNamed io_loop _ _ e (Serves-IsNamed p a)
  Serves-IsNamed (goes conn p e) a = goes-IsNamed conn _ _ e (Serves-IsNamed p a)

  -- Whatever connections have come and gone, and whatever connections the callbacks have closed in
  -- between, the name of the next one is not in the map: no connection ever takes the place of
  -- another.
  pub next_name_is_new :
      (loop : EventLoop) (ip_port name : List ℕ) (s : TcpServer)
      → Serves exec thread (new_server loop ip_port name) s
      → find (conn_name s.name s.ip_port s.next_conn_id) s.connections ≡ none
  next_name_is_new loop ip_port name s p =
      find-next s.name s.ip_port s.next_conn_id s.connections (Serves-IsNamed p tt)
