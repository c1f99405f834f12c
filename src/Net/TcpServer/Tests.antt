-- ===== src/Net/TcpServer/Tests.antt =====
-- A server, and the theorems applied to it.
use lib_net_toy.Net.TcpServer.Reentrant.{next_name_is_new, ClosesOnly, Closes, quiet, closes}
use lib_net_toy.Net.TcpServer.Dealing.{accepts_in_turn, accept_many}
use lib_net_toy.Net.TcpServer.Accepting.{IsListening}
use lib_net_toy.Net.TcpServer.{
  erase, destroy, same_key, conn_name, remove_connection_in_loop, new_server, TcpServer, Connection,
  EventLoop, Request, find, new_connection, establish, put,
}
use lib_net_toy.Net.TcpServer.Connections.{
  remove-new_connection, SameServer, LeavesServer, comes, begin,
}
use lib_net_toy.Base.EventLoopThreadPool
use lib_net_toy.Prelude.Decimal.{decimal, decimal_fuel}
use lib_net_toy.Prelude.Int.{pos}
use lib_net_toy.Prelude.{
  ok-injective, ℕ, ◌+◌, ◌%◌, ◌<◌, ◌≡◌, refl, true, none, some, List, [], ◌∷◌, arith, assertion,
  Result, ok, fault, ◌>>=◌, length, get_elem?,
}

abbrev base : EventLoop
base = record { this = 1; thread_id = 7 }

abbrev other : EventLoop
other = record { this = 2; thread_id = 8 }

-- Callbacks that do nothing.
abbrev exec : Request → TcpServer → Result TcpServer
exec r s = ok s

exec-LeavesServer : LeavesServer exec
exec-LeavesServer r s = (
  s,
  refl,
  record {
    loop_same = refl;
    ip_port_same = refl;
    name_same = refl;
    pool_same = refl;
    acceptor_same = refl;
    next_same = refl;
    connections_same = refl;
  },
)

-- The server `s` at `:`.
abbrev fresh : TcpServer
fresh = new_server base (58 ∷ []) (115 ∷ [])

abbrev first : Connection
first = record { name = 115 ∷ 58 ∷ 35 ∷ 49 ∷ []; io_loop = other }

-- With one connection, in another thread.
abbrev serving : TcpServer
serving = record fresh {
  next_conn_id = 2;
  connections = record { key = 115 ∷ 58 ∷ 35 ∷ 49 ∷ []; conn = first } ∷ [];
  requests = establish first ∷ [];
}

serving_test : new_connection exec 7 (some other) fresh ≡ ok serving
unfolding new_connection put decimal decimal_fuel lib_net_toy.Base.EventLoopThreadPool.init
serving_test = refl

remove-new_connection_example :
    (conn : Connection) × (s : TcpServer) × ((new_connection exec 7 (some other) fresh
        >>= remove_connection_in_loop exec 7 conn)
      ≡ ok s)
    × (s.connections ≡ [])
    × (find conn.name s.connections ≡ none)
    × (remove_connection_in_loop exec 7 conn s ≡ fault assertion)
remove-new_connection_example =
    remove-new_connection exec exec-LeavesServer 7 other fresh refl (ground arith) tt

-- The first connection is closed as soon as it is established, and then `second` comes.
abbrev closing_exec : Request → TcpServer → Result TcpServer
closing_exec (establish conn) s = ok (record s { connections = (erase conn.name s.connections).0 })
closing_exec (destroy conn) s = ok s

same-SameServer : (s : TcpServer) → SameServer s s
same-SameServer s = record {
  loop_same = refl;
  ip_port_same = refl;
  name_same = refl;
  pool_same = refl;
  acceptor_same = refl;
  next_same = refl;
  connections_same = refl;
}

closing_exec-ClosesOnly : ClosesOnly closing_exec
closing_exec-ClosesOnly (establish conn) s s' e =
    coe 0 1 (i. Closes s (ok-injective e i))
      (closes conn.name (quiet (same-SameServer s)) (same-SameServer _))
closing_exec-ClosesOnly (destroy conn) s s' e =
    coe 0 1 (i. Closes s (ok-injective e i)) (quiet (same-SameServer s))

abbrev second : Connection
second = record { name = 115 ∷ 58 ∷ 35 ∷ 50 ∷ []; io_loop = other }

abbrev closed_one : TcpServer
closed_one = record fresh { next_conn_id = 2 }

abbrev with_second : TcpServer
with_second = record fresh {
  next_conn_id = 3;
  connections = record { key = 115 ∷ 58 ∷ 35 ∷ 50 ∷ []; conn = second } ∷ [];
  requests = establish second ∷ [];
}

closed_one_test : new_connection closing_exec 7 (some base) fresh ≡ ok closed_one
unfolding new_connection put decimal decimal_fuel erase same_key
    lib_net_toy.Base.EventLoopThreadPool.init
closed_one_test = refl

with_second_test : new_connection closing_exec 7 (some other) closed_one ≡ ok with_second
unfolding new_connection put decimal decimal_fuel lib_net_toy.Base.EventLoopThreadPool.init
with_second_test = refl

next_name_is_new_example : find (conn_name (115 ∷ []) (58 ∷ []) 3) with_second.connections ≡ none
next_name_is_new_example =
    next_name_is_new closing_exec closing_exec-ClosesOnly 7 base (58 ∷ []) (115 ∷ []) with_second
      (comes other (comes base begin closed_one_test) with_second_test)

-- A server with a pool of two loops that has begun to listen, on the first of them.
abbrev listening : TcpServer
listening = record fresh {
  thread_pool = record {
    base_loop = base;
    name = 115 ∷ [];
    started = true;
    num_threads = pos 2;
    next = 1;
    threads = [];
    loops = other ∷ base ∷ [];
  };
  acceptor = record {
    loop = base;
    listenning = true;
    new_sock_binded_loop = some other;
    accepts = other ∷ [];
    listens_posted = 0;
  };
}

listening-IsListening : IsListening 7 other listening
listening-IsListening = record {
  own_thread = refl;
  acceptor_thread = refl;
  pool_thread = refl;
  pool_started = refl;
  pool_turn = ground arith;
  named = tt;
  bound = refl;
}

accepts_in_turn_example :
    (xs : List EventLoop) × (s : TcpServer) × (last : EventLoop) × (accept_many exec 7 3 listening
      ≡ ok s)
    × (length xs ≡ 3)
    × (s.acceptor.accepts ≡ other ∷ xs)
    × ((k : ℕ)
        → k < 3
        → get_elem? xs k
          ≡ get_elem? listening.thread_pool.loops
              ((listening.thread_pool.next + k) % length listening.thread_pool.loops))
    × (s.next_conn_id ≡ 4)
    × IsListening 7 last s
accepts_in_turn_example =
    accepts_in_turn exec exec-LeavesServer 7 3 other listening listening-IsListening (omega arith)
