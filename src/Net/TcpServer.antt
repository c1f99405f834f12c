-- ===== src/Net/TcpServer.antt =====
-- src/net/TcpServer.h and TcpServer.cpp, with src/net/Acceptor.h and Acceptor.cpp: the server
-- accepts connections, binds each to a loop of its pool, and keeps them in a map by their names.
-- Names are byte strings. Where `runInLoop` calls `connectEstablished` or `connectDestroyed` at
-- once, `exec` is what that does, the user's callbacks included; the calls that are posted to a
-- connection's loop are kept in `requests`, the removals that are posted in `removals`. A signed overflow of `nextConnId_` is a fault.
pub mod Names
pub mod Accepting
pub mod Dealing
pub mod Tests
pub mod Connections
pub mod Reentrant
pub mod System
use lib_net_toy.Base.EventLoopThreadPool
use lib_net_toy.Base.EventLoopThreadPool.{EventLoopThreadPool, get_next_loop}
use lib_net_toy.Prelude.Decimal.{decimal}
use lib_net_toy.Prelude.{
  ℕ, ◌+◌, ◌-◌, ◌^◌, Bool, true, false, ◌&&◌, ◌||◌, not, Option, none, some, List, [], ◌∷◌, ◌++◌,
  ltb, ◌==◌, if◌then◌else◌, assertion, Result, ok, fault, ◌>>=◌, ◌>>◌, assert, signed_overflow,
}
use lib_net_toy.Prelude.Int.{ℤ, pos, negsuc}
use lib_net_toy.Base.EventLoop.{EventLoop, assert_in_loop_thread, run_in_loop}

pub record Connection : Type 0 where
  pub name : List ℕ
  pub io_loop : EventLoop

pub data Request : Type 0 where
  establish destroy : Connection → Request

-- An entry of the map.
pub record Entry : Type 0 where
  pub key : List ℕ
  pub conn : Connection

-- `accepts` has the loops of the sockets for which an accept was started, in their order.
pub record Acceptor : Type 0 where
  pub loop : EventLoop
  pub listenning : Bool
  pub new_sock_binded_loop : Option EventLoop
  pub accepts : List EventLoop
  pub listens_posted : ℕ

pub record TcpServer : Type 0 where
  pub loop : EventLoop
  pub ip_port : List ℕ
  pub name : List ℕ
  pub thread_pool : EventLoopThreadPool
  pub acceptor : Acceptor
  pub has_init_callback : Bool
  pub next_conn_id : ℕ
  pub connections : List Entry
  pub requests : List Request
  pub removals : List Connection

-- The constructor.
abbrev pub new_server : EventLoop → List ℕ → List ℕ → TcpServer
new_server loop ip_port name = record {
  loop = loop;
  ip_port = ip_port;
  name = name;
  thread_pool = EventLoopThreadPool.init loop name;
  acceptor = record {
    loop = loop;
    listenning = false;
    new_sock_binded_loop = none;
    accepts = [];
    listens_posted = 0;
  };
  has_init_callback = false;
  next_conn_id = 1;
  connections = [];
  requests = [];
  removals = [];
}

-- Whether two keys are equal, and whether the first comes first, as `std::string` compares them.
unfoldable pub same_key : List ℕ → List ℕ → Bool
same_key [] [] = true
same_key [] (y ∷ ys) = false
same_key (x ∷ xs) [] = false
same_key (x ∷ xs) (y ∷ ys) = x == y && same_key xs ys

unfoldable pub key_before : List ℕ → List ℕ → Bool
key_before xs [] = false
key_before [] (y ∷ ys) = true
key_before (x ∷ xs) (y ∷ ys) = ltb x y || (x == y && key_before xs ys)

unfoldable pub find : List ℕ → List Entry → Option Connection
find k [] = none
find k (e ∷ es) = if same_key e.key k then some e.conn else find k es

-- `connections_[k] = c`, which keeps the keys in order.
unfoldable pub put : List ℕ → Connection → List Entry → List Entry
put k c [] = record { key = k; conn = c } ∷ []
put k c (e ∷ es) =
    if same_key e.key k
    then record { key = k; conn = c } ∷ es
    else if key_before k e.key
    then record { key = k; conn = c } ∷ e ∷ es
    else e ∷ put k c es

-- `erase(k)`: the map, and how many entries were erased.
unfoldable pub erase : List ℕ → List Entry → List Entry × ℕ
erase k [] = ([], 0)
erase k (e ∷ es) =
    let rest = erase k es in if same_key e.key k then (es, 1) else (e ∷ rest.0, rest.1)

-- `name_ ipPort_ # id`
abbrev pub conn_name : List ℕ → List ℕ → ℕ → List ℕ
conn_name name ip_port id = name ++ (ip_port ++ (35 ∷ decimal id))

unfoldable pub set_thread_num : ℤ → TcpServer → Result TcpServer
set_thread_num n s = do
  assert (elim n [ pos k ↦ true | negsuc k ↦ false ])
  ok (record s { thread_pool = EventLoopThreadPool.set_thread_num s.thread_pool n })

-- `Acceptor::listenInLoop`, on an acceptor with a pool.
unfoldable pub listen_in_loop : ℕ → TcpServer → Result TcpServer
listen_in_loop thread s = do
  (io_loop, pool) ← get_next_loop thread s.thread_pool
  ok (record s {
    thread_pool = pool;
    acceptor = record s.acceptor {
      listenning = true;
      new_sock_binded_loop = some io_loop;
      accepts = s.acceptor.accepts ++ io_loop ∷ [];
    };
  })

abbrev pub post_listen : TcpServer → TcpServer
post_listen s = record s {
  acceptor = record s.acceptor { listens_posted = s.acceptor.listens_posted + 1 };
}

unfoldable pub listen : ℕ → TcpServer → Result TcpServer
listen thread s =
    run_in_loop (λ (u : Unit {0}) t. listen_in_loop thread t) (λ u t. post_listen t) s.acceptor.loop
      thread tt s

-- `start`, where `supply` has the loops that the pool's threads start; the loops that the user's
-- callback is called with are returned.
unfoldable pub start : (ℕ → EventLoop) → ℕ → TcpServer → Result (List EventLoop × TcpServer)
start supply thread s = do
  (pool, called) ← EventLoopThreadPool.start supply thread s.has_init_callback s.thread_pool
  let s₁ : TcpServer = record s { thread_pool = pool }
  assert (not s₁.acceptor.listenning)
  s₂ ← run_in_loop (λ (u : Unit {0}) t. listen thread t) (λ u t. post_listen t) s₁.loop thread tt s₁
  ok (called, s₂)

module _ (exec : Request → TcpServer → Result TcpServer) (thread : ℕ) where
  abbrev pub post_request : Request → TcpServer → TcpServer
  post_request r s = record s { requests = s.requests ++ r ∷ [] }

  unfoldable pub new_connection : Option EventLoop → TcpServer → Result TcpServer
  new_connection none s = do assert_in_loop_thread s.loop thread; fault assertion
  new_connection (some io_loop) s = do
    assert_in_loop_thread s.loop thread
    let conn_name₁ = conn_name s.name s.ip_port s.next_conn_id
    s₁ ←
        if ltb s.next_conn_id (2 ^ 31 - 1)
        then ok (record s { next_conn_id = s.next_conn_id + 1 })
        else fault signed_overflow
    let conn : Connection = record { name = conn_name₁; io_loop = io_loop }
    let s₂ : TcpServer = record s₁ { connections = put conn_name₁ conn s₁.connections }
    run_in_loop exec post_request io_loop thread (establish conn) s₂

  unfoldable pub remove_connection_in_loop : Connection → TcpServer → Result TcpServer
  remove_connection_in_loop conn s = do
    assert_in_loop_thread s.loop thread
    let erased = erase conn.name s.connections
    assert (erased.1 == 1)
    run_in_loop exec post_request conn.io_loop thread (destroy conn)
        (record s { connections = erased.0 })

  abbrev pub post_removal : Connection → TcpServer → TcpServer
  post_removal conn s = record s { removals = s.removals ++ conn ∷ [] }

  -- The close callback of every connection.
  unfoldable pub remove_connection : Connection → TcpServer → Result TcpServer
  remove_connection conn s = run_in_loop remove_connection_in_loop post_removal s.loop thread conn s

  -- The loop of the destructor over the map.
  unfoldable pub destroy_all : List Entry → TcpServer → Result TcpServer
  destroy_all [] s = ok s
  destroy_all (e ∷ es) s = do
    s' ← run_in_loop exec post_request e.conn.io_loop thread (destroy e.conn) s
    destroy_all es s'

  -- The destructor, up to the loop's `quit`.
  unfoldable pub destroy_server : TcpServer → Result TcpServer
  destroy_server s = do assert_in_loop_thread s.loop thread; destroy_all s.connections s

  -- `Acceptor::acceptHandler`; its callback is `newConnection`.
  unfoldable pub accept_handler : Bool → TcpServer → Result TcpServer
  accept_handler true s = ok s
  accept_handler false s = do
    s₁ ← new_connection s.acceptor.new_sock_binded_loop s
    listen thread s₁
