-- ===== src/Net/TcpServer/System/Balance.antt =====
-- What the server has of each connection: its name is in the map until `removeConnectionInLoop` runs,
-- which is posted when the close callback is called.
use lib_net_toy.Net.TcpServer.{
  TcpServer, Connection, erase, conn_name, establish, destroy, Request, remove_connection,
  remove_connection_in_loop, same_key,
}
use lib_net_toy.Net.TcpServer.System.{System, Living, refused}
use lib_net_toy.Net.TcpServer.System.Counting.{
  entries_of, removals_of, establishes_of, establishes_of-append, entries_of-erase, erase_one,
  removals_of-append,
}
use lib_net_toy.Net.TcpConnection.Types.{closes}
use lib_net_toy.Net.TcpConnection.Lifecycle.{IsOrderly, rank}
use lib_net_toy.Base.EventLoop.{is_in_loop_thread, is_in_loop_thread-true}
use lib_net_toy.Prelude.{
  All, All-append, min, ℕ, ◌+◌, ◌≤◌, ◌<◌, ◌≡◌, refl, sym, ◌∙◌, ◌≢◌, inl, inr, some, List, [], ◌∷◌,
  ◌++◌, arith, if◌then◌else◌, Bool-cases, ok, length, get_elem?,
}

-- The connection is one of those that were made.
abbrev pub Known : List Living → Connection → Type 0
Known living c = (k : ℕ) × (l : Living) × (get_elem? living k ≡ some l) × (l.conn ≡ c)

-- It has called its close callback.
abbrev pub Ended : List Living → Connection → Type 0
Ended living c =
    (k : ℕ) × (l : Living) × (get_elem? living k ≡ some l) × (l.conn ≡ c) × (closes l.tcp.calls ≡ 1)

abbrev pub IsDue : List Living → Request → Type 0
IsDue living (establish c) = Known living c
IsDue living (destroy c) = Ended living c

pub record Inv (thread : ℕ) (name ip_port : List ℕ) (s : System) : Type 0 where
  pub own : s.server.loop.thread_id ≡ thread
  pub its_name : s.server.name ≡ name
  pub its_port : s.server.ip_port ≡ ip_port
  pub numbered : s.server.next_conn_id ≡ length s.living + 1
  pub named :
      (k : ℕ) (l : Living)
      → get_elem? s.living k ≡ some l
      → l.conn.name ≡ conn_name name ip_port (k + 1)
  pub orderly : (k : ℕ) (l : Living) → get_elem? s.living k ≡ some l → IsOrderly l.tcp
  pub apart :
      (k : ℕ) (l : Living) → get_elem? s.living k ≡ some l → l.conn.io_loop.thread_id ≢ thread
  pub balanced :
      (k : ℕ) (l : Living)
      → get_elem? s.living k ≡ some l
      → removals_of l.conn.name s.server.removals + 1
        ≡ closes l.tcp.calls + entries_of l.conn.name s.server.connections
  pub once :
      (k : ℕ) (l : Living)
      → get_elem? s.living k ≡ some l
      → entries_of l.conn.name s.server.connections ≤ 1
  pub asked :
      (k : ℕ) (l : Living)
      → get_elem? s.living k ≡ some l
      → establishes_of l.conn.name s.server.requests + min 1 (rank l.tcp.state) ≤ 1
  pub known : All (Known s.living) s.server.removals
  pub due : All (IsDue s.living) s.server.requests
  pub fresh :
      (j : ℕ)
      → length s.living < j
      → (entries_of (conn_name name ip_port j) s.server.connections ≡ 0)
        × (removals_of (conn_name name ip_port j) s.server.removals ≡ 0)
        × (establishes_of (conn_name name ip_port j) s.server.requests ≡ 0)

-- What `d` removals, posted or made, do to the server.
pub record Removes (d : ℕ) (conn : Connection) (s s' : TcpServer) : Type 0 where
  pub same_loop : s'.loop ≡ s.loop
  pub same_name : s'.name ≡ s.name
  pub same_port : s'.ip_port ≡ s.ip_port
  pub same_next : s'.next_conn_id ≡ s.next_conn_id
  pub counts :
      (n : List ℕ)
      → removals_of n s'.removals + entries_of n s.connections
        ≡ removals_of n s.removals
          + entries_of n s'.connections
          + (if same_key conn.name n then d else 0)
  pub fewer : (n : List ℕ) → entries_of n s'.connections ≤ entries_of n s.connections
  pub listed :
      (living : List Living)
      → Known living conn
      → All (Known living) s.removals
      → All (Known living) s'.removals
  pub asks : (n : List ℕ) → establishes_of n s'.requests ≡ establishes_of n s.requests
  pub dues :
      (living : List Living)
      → (1 ≤ d → Ended living conn)
      → All (IsDue living) s.requests
      → All (IsDue living) s'.requests

-- In the server's thread: the map loses the name, and `connectDestroyed` is posted.
pub remove_in_loop_lem :
    (thread : ℕ) (conn : Connection) (s : TcpServer)
    → s.loop.thread_id ≡ thread
    → conn.io_loop.thread_id ≢ thread
    → 1 ≤ entries_of conn.name s.connections
    → remove_connection_in_loop refused thread conn s
      ≡ ok (record s {
        connections = (erase conn.name s.connections).0;
        requests = s.requests ++ destroy conn ∷ [];
      })
unfolding remove_connection_in_loop
remove_in_loop_lem thread conn s own apart there =
    ground
      (arith, is_in_loop_thread-true s.loop thread own, erase_one conn.name s.connections there)

-- `removeConnection` in any thread does not fail.
pub remove_connection_lem :
    (thread t : ℕ) (conn : Connection) (s : TcpServer)
    → s.loop.thread_id ≡ thread
    → conn.io_loop.thread_id ≢ thread
    → 1 ≤ entries_of conn.name s.connections
    → (s' : TcpServer) × (remove_connection refused t conn s ≡ ok s') × Removes 1 conn s s'
unfolding remove_connection
remove_connection_lem thread t conn s own apart there =
    elim (Bool-cases (is_in_loop_thread s.loop t)) [
      | inl here ↦
          let same : s.loop.thread_id ≡ t = ground arith in
          (
            record s {
              connections = (erase conn.name s.connections).0;
              requests = s.requests ++ destroy conn ∷ [];
            },
            rw here (remove_in_loop_lem t conn s same (λ e. apart (e ∙ sym same ∙ own)) there),
            record {
              same_loop = refl;
              same_name = refl;
              same_port = refl;
              same_next = refl;
              counts = λ n. omega (arith, entries_of-erase n conn.name s.connections there);
              fewer = λ n. omega (arith, entries_of-erase n conn.name s.connections there);
              listed = λ living k h. h;
              asks = λ n. omega (arith, establishes_of-append n s.requests (destroy conn ∷ []));
              dues = λ living k h.
                  All-append (IsDue living) s.requests (destroy conn ∷ []) h (k (omega arith), tt);
            },
          )
      | inr away ↦ (
        record s { removals = s.removals ++ conn ∷ [] },
        rw away refl,
        record {
          same_loop = refl;
          same_name = refl;
          same_port = refl;
          same_next = refl;
          counts = λ n. ground (arith, removals_of-append n s.removals (conn ∷ []));
          fewer = λ n. omega arith;
          listed = λ living k h. All-append (Known living) s.removals (conn ∷ []) h (k, tt);
          asks = λ n. refl;
          dues = λ living k h. h;
        },
      )
    ]

-- None at all.
pub Removes-none : (conn : Connection) (s : TcpServer) → Removes 0 conn s s
Removes-none conn s = record {
  same_loop = refl;
  same_name = refl;
  same_port = refl;
  same_next = refl;
  counts = λ n. ground arith;
  fewer = λ n. omega arith;
  listed = λ living k h. h;
  asks = λ n. refl;
  dues = λ living k h. h;
}
