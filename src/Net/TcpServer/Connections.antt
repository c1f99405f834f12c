-- ===== src/Net/TcpServer/Connections.antt =====
-- Connections come and go: each gets a name of its own, and leaves the map once.
use lib_net_toy.Net.TcpServer.{
  erase, put, Entry, find, remove_connection_in_loop, Connection, post_request, conn_name,
  TcpServer, Request, new_connection, destroy, establish,
}
use lib_net_toy.Net.TcpServer.Names.{
  put-AllNamed, erase-put, find-put, find-next, AllNamed, AllNamed-suc, erase-none,
}
use lib_net_toy.Base.EventLoop.{EventLoop, run_in_loop, is_in_loop_thread, is_in_loop_thread-true}
use lib_net_toy.Prelude.{
  ℕ, ◌+◌, ◌-◌, ◌^◌, ◌<◌, ◌≡◌, refl, ap, ◌∙◌, inl, inr, none, some, List, arith, Bool-cases,
  assertion, Result, ok, fault, ◌>>=◌,
}

-- What a call of a connection leaves alone.
pub record SameServer (s s' : TcpServer) : Type 0 where
  pub loop_same : s'.loop ≡ s.loop
  pub ip_port_same : s'.ip_port ≡ s.ip_port
  pub name_same : s'.name ≡ s.name
  pub pool_same : s'.thread_pool ≡ s.thread_pool
  pub acceptor_same : s'.acceptor ≡ s.acceptor
  pub next_same : s'.next_conn_id ≡ s.next_conn_id
  pub connections_same : s'.connections ≡ s.connections

-- The connection's calls return, and their callbacks do not close a connection at once.
abbrev pub LeavesServer : (Request → TcpServer → Result TcpServer) → Type 0
LeavesServer exec =
    (r : Request) (s : TcpServer) → (s' : TcpServer) × (exec r s ≡ ok s') × SameServer s s'

-- Every name in the map has the number of an earlier connection.
abbrev pub IsNamed : TcpServer → Type 0
IsNamed s = AllNamed s.name s.ip_port s.next_conn_id s.connections

pub SameServer-IsNamed : (s s' : TcpServer) → SameServer s s' → IsNamed s → IsNamed s'
SameServer-IsNamed s s' e a = rw (e.name_same, e.ip_port_same, e.next_same, e.connections_same) a

module _ (exec : Request → TcpServer → Result TcpServer) (leaves : LeavesServer exec)
    (thread : ℕ) where
  request_lem :
      (r : Request) (l : EventLoop) (s : TcpServer)
      → (s' : TcpServer) × (run_in_loop exec (post_request exec thread) l thread r s ≡ ok s')
        × SameServer s s'
  request_lem r l s = elim (Bool-cases (is_in_loop_thread l thread)) [
    | inl own ↦ let (s', e, same) = leaves r s in (s', ground (arith, e), same)
    | inr other ↦ (
      post_request exec thread r s,
      ground arith,
      record {
        loop_same = refl;
        ip_port_same = refl;
        name_same = refl;
        pool_same = refl;
        acceptor_same = refl;
        next_same = refl;
        connections_same = refl;
      },
    )
  ]

  -- The server once the connection is in the map.
  abbrev added : EventLoop → TcpServer → TcpServer
  added io_loop s =
      let k = conn_name s.name s.ip_port s.next_conn_id in
      record s {
        next_conn_id = s.next_conn_id + 1;
        connections = put k (record { name = k; io_loop = io_loop }) s.connections;
      }

  -- A new connection enters the map under a name that was not there, and nothing else changes there.
  pub new_connection_lem :
      (io_loop : EventLoop) (s : TcpServer)
      → s.loop.thread_id ≡ thread
      → s.next_conn_id < 2 ^ 31 - 1
      → IsNamed s
      → (conn : Connection) × (s' : TcpServer) × (new_connection exec thread (some io_loop) s
          ≡ ok s')
        × (conn.io_loop ≡ io_loop)
        × (find conn.name s.connections ≡ none)
        × (s'.connections ≡ put conn.name conn s.connections)
        × (find conn.name s'.connections ≡ some conn)
        × IsNamed s'
        × (s'.loop ≡ s.loop)
        × (s'.thread_pool ≡ s.thread_pool)
        × (s'.acceptor ≡ s.acceptor)
        × (s'.next_conn_id ≡ s.next_conn_id + 1)
  unfolding new_connection
  new_connection_lem io_loop s t small a =
      let k = conn_name s.name s.ip_port s.next_conn_id in
      let conn : Connection = record { name = k; io_loop = io_loop } in
      let (s', e, same) = request_lem (establish conn) io_loop (added io_loop s) in
      (
        conn,
        s',
        ground (arith, e, is_in_loop_thread-true s.loop thread t),
        refl,
        find-next s.name s.ip_port s.next_conn_id s.connections a,
        same.connections_same,
        rw same.connections_same (find-put k conn s.connections),
        SameServer-IsNamed (added io_loop s) s' same (
            put-AllNamed s.name s.ip_port (s.next_conn_id + 1) s.next_conn_id conn s.connections
              (omega arith) (AllNamed-suc s.name s.ip_port s.next_conn_id s.connections a)),
        same.loop_same,
        same.pool_same,
        same.acceptor_same,
        same.next_same,
      )

  remove_lem :
      (conn : Connection) (es : List Entry) (s : TcpServer)
      → s.loop.thread_id ≡ thread
      → erase conn.name s.connections ≡ (es, 1)
      → (s' : TcpServer) × (remove_connection_in_loop exec thread conn s ≡ ok s')
        × SameServer (record s { connections = es }) s'
  unfolding remove_connection_in_loop
  remove_lem conn es s t e =
      let (s', e', same) =
        request_lem (destroy conn) conn.io_loop (record s { connections = es }) in
      (s', rw (e, is_in_loop_thread-true s.loop thread t) e', same)

  remove_unknown :
      (conn : Connection) (s : TcpServer)
      → s.loop.thread_id ≡ thread
      → find conn.name s.connections ≡ none
      → remove_connection_in_loop exec thread conn s ≡ fault assertion
  unfolding remove_connection_in_loop
  remove_unknown conn s t gone =
      rw (erase-none conn.name s.connections gone, is_in_loop_thread-true s.loop thread t) refl

  -- A connection that comes and goes leaves the map as it was, and a second removal of it fails its
  -- assertion.
  pub remove-new_connection :
      (io_loop : EventLoop) (s : TcpServer)
      → s.loop.thread_id ≡ thread
      → s.next_conn_id < 2 ^ 31 - 1
      → IsNamed s
      → (conn : Connection) × (s' : TcpServer) × ((new_connection exec thread (some io_loop) s
            >>= remove_connection_in_loop exec thread conn)
          ≡ ok s')
        × (s'.connections ≡ s.connections)
        × (find conn.name s'.connections ≡ none)
        × (remove_connection_in_loop exec thread conn s' ≡ fault assertion)
  remove-new_connection io_loop s t small a =
      let (conn, s₁, e, l, fresh, cs, f, a₁, loop₁, p, q, r) =
        new_connection_lem io_loop s t small a in
      let its : s₁.loop.thread_id ≡ thread = ap (λ (x : EventLoop). x.thread_id) loop₁ ∙ t in
      let (s₂, e₂, same) =
        remove_lem conn s.connections s₁ its
          (ap (erase conn.name) cs ∙ erase-put conn.name conn s.connections fresh) in
      let gone = ap (find conn.name) same.connections_same ∙ fresh in
      (
        conn,
        s₂,
        rw e e₂,
        same.connections_same,
        gone,
        remove_unknown conn s₂ (ap (λ (x : EventLoop). x.thread_id) same.loop_same ∙ its) gone,
      )

-- Connections that come, with the loop that the acceptor chose, and go.
pub data Serves (exec : Request → TcpServer → Result TcpServer) (thread : ℕ) (s : TcpServer)
    : TcpServer → Type 0 where
  begin : Serves exec thread s s
  comes :
      (io_loop : EventLoop) {s' s'' : TcpServer}
      → Serves exec thread s s'
      → new_connection exec thread (some io_loop) s' ≡ ok s''
      → Serves exec thread s s''
  goes :
      (conn : Connection) {s' s'' : TcpServer}
      → Serves exec thread s s'
      → remove_connection_in_loop exec thread conn s' ≡ ok s''
      → Serves exec thread s s''
