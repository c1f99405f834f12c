-- ===== src/Net/TcpServer/System.antt =====
-- A server of src/net/TcpServer.cpp with a pool of threads and its connections, each with the state
-- of src/net/TcpConnection.cpp: what the loops of all threads do to both, in any order. A connection
-- that was made stays in `living`, and its place there is its number. The close callback is the last
-- thing that its caller does to the server, so `removeConnection` is run behind the call.
pub mod Counting
pub mod Balance
pub mod Updating
pub mod Calls
pub mod Accepted
pub mod Growing
pub mod Removing
pub mod Steps
pub mod Safety
pub mod Tests
use lib_net_toy.Net.TcpServer.{
  TcpServer, new_server, Connection, Request, establish, destroy, new_connection, remove_connection,
  remove_connection_in_loop, conn_name,
}
use lib_net_toy.Net.TcpConnection.Types
use lib_net_toy.Net.TcpConnection.Types.{TcpConnection, Handlers, leave_close, closes}
use lib_net_toy.Net.TcpConnection.Lifecycle.{
  Event, established, destroyed, read_done, write_done, task_runs, shut_down, closed_by_force,
  reading_started, reading_stopped, sent, apply,
}
use lib_net_toy.Base.EventLoopThreadPool.{at}
use lib_net_toy.Base.EventLoop.{EventLoop}
use lib_net_toy.Prelude.{
  set, get_elem?-set_self, get_elem?-set_ne, get_elem?-set-cases, length-set, ℕ, zero, suc, ◌+◌,
  ◌-◌, ◌*◌, ◌/◌, ◌%◌, ◌^◌, ◌≤◌, ◌<◌, min, ◌≡◌, refl, sym, ap, ap₂, ◌∙◌, ◌≢◌, ◌↔◌, ◌⊎◌, inl, inr,
  Bool, true, false, ◌&&◌, ◌||◌, not, Option, none, some, List, [], ◌∷◌, ◌++◌, map, reverse,
  append-nil, append_assoc, arith, dec_lt, ℕ_discrete, ltb, leb, ◌==◌, if◌then◌else◌, Bool-cases,
  Option-cases, Fault, assertion, out_of_range, length_error, null_pointer, dangling,
  bad_function_call, Result, ok, fault, ◌>>=◌, ◌>>◌, assert, Result-cases, length, take, drop,
  get_elem?,
}

-- A connection, as its server knows it and as its loop does.
pub record Living : Type 0 where
  pub conn : Connection
  pub tcp : TcpConnection

pub record System : Type 0 where
  pub server : TcpServer
  pub living : List Living

-- A server that was made, before its first connection.
abbrev pub new_system : EventLoop → List ℕ → List ℕ → System
new_system loop ip_port name = record { server = new_server loop ip_port name; living = [] }

-- The connections are on the threads of the pool, so that no call of one runs at once.
abbrev pub refused : Request → TcpServer → Result TcpServer
refused r s = fault assertion

-- What asio and the user may do to a connection: all but the two calls of the server.
abbrev pub IsOutside : Event → Type 0
IsOutside established = ⊥
IsOutside destroyed = ⊥
IsOutside _ = Unit {0}

-- With the close callback that `newConnection` sets.
abbrev pub its_handlers : Handlers → Handlers
its_handlers callbacks = record callbacks { close_callback = leave_close }

abbrev pub with_requests : List Request → System → System
with_requests rs s = record s { server = record s.server { requests = rs } }

abbrev pub with_removals : List Connection → System → System
with_removals cs s = record s { server = record s.server { removals = cs } }

module _ (thread : ℕ) where
  -- A socket of `io_loop` was accepted: the connection, and the server's part.
  unfoldable pub accept : EventLoop → System → Result System
  accept io_loop s = do
    let name = conn_name s.server.name s.server.ip_port s.server.next_conn_id
    tcp ← Types.new_connection (some io_loop) name
    server ← new_connection refused thread (some io_loop) s.server
    ok (record {
      server = server;
      living =
          s.living ++ record { conn = record { name = name; io_loop = io_loop }; tcp = tcp } ∷ [];
    })

  -- A posted `removeConnectionInLoop` runs.
  unfoldable pub remove : Connection → System → Result System
  remove conn s = do
    server ← remove_connection_in_loop refused thread conn s.server
    ok (record s { server = server })

-- An event of the `k`th connection in thread `t`, and of `removeConnection` if it has called its
-- close callback.
unfoldable pub call : Handlers → ℕ → ℕ → Event → System → Result System
call callbacks t k event s = do
  l ← at s.living k
  tcp ← apply (its_handlers callbacks) t event l.tcp
  server ←
      if ltb (closes l.tcp.calls) (closes tcp.calls)
      then remove_connection refused t l.conn s.server
      else ok s.server
  ok (record { server = server; living = set s.living k (record l { tcp = tcp }) })

module _ (callbacks : Handlers) (thread : ℕ) where
  -- The threads of the pool take the calls that were posted to them, and the server's thread takes
  -- sockets and removals. The server lives: its destructor is not a step.
  pub data Step (s : System) : System → Type 0 where
    accepts :
        (io_loop : EventLoop) {s' : System}
        → io_loop.thread_id ≢ thread
        → accept thread io_loop s ≡ ok s'
        → Step s s'
    establishes :
        (k : ℕ) (l : Living) (before after : List Request) {s' : System}
        → get_elem? s.living k ≡ some l
        → s.server.requests ≡ before ++ establish l.conn ∷ after
        → call callbacks l.conn.io_loop.thread_id k established (with_requests (before ++ after) s)
          ≡ ok s'
        → Step s s'
    destroys :
        (k : ℕ) (l : Living) (before after : List Request) {s' : System}
        → get_elem? s.living k ≡ some l
        → s.server.requests ≡ before ++ destroy l.conn ∷ after
        → call callbacks l.conn.io_loop.thread_id k destroyed (with_requests (before ++ after) s)
          ≡ ok s'
        → Step s s'
    happens :
        (t k : ℕ) (event : Event) {s' : System}
        → IsOutside event
        → call callbacks t k event s ≡ ok s'
        → Step s s'
    removes :
        (conn : Connection) (before after : List Connection) {s' : System}
        → s.server.removals ≡ before ++ conn ∷ after
        → remove thread conn (with_removals (before ++ after) s) ≡ ok s'
        → Step s s'

  pub data Reach (s : System) : System → Type 0 where
    begins : Reach s s
    later : {s' s'' : System} → Reach s s' → Step s' s'' → Reach s s''
