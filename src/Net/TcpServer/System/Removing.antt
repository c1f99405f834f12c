-- ===== src/Net/TcpServer/System/Removing.antt =====
-- A posted removal finds its connection in the map.
use lib_net_toy.Net.TcpServer.{TcpServer, Connection, erase, destroy, same_key, conn_name}
use lib_net_toy.Net.TcpServer.Names.{same_key_refl}
use lib_net_toy.Net.TcpServer.System.{System, remove, with_removals}
use lib_net_toy.Net.TcpServer.System.Balance.{Inv, Known, Ended, IsDue, remove_in_loop_lem}
use lib_net_toy.Net.TcpServer.System.Counting.{
  establishes_of, establishes_of-append, entries_of, removals_of, removals_of_middle,
  entries_of-erase,
}
use lib_net_toy.Net.TcpConnection.Lifecycle.Moves.{IsOrderly-closes}
use lib_net_toy.Prelude.{
  All-middle, All-append, ℕ, ◌+◌, ◌≤◌, ◌≡◌, refl, sym, ap, ◌≢◌, List, [], ◌∷◌, ◌++◌, arith, ok,
  if◌then◌else◌,
}

module _ (thread : ℕ) (name ip_port : List ℕ) (s : System) (v : Inv thread name ip_port s)
    (conn : Connection) (before after : List Connection)
    (pending : s.server.removals ≡ before ++ conn ∷ after) where
  -- The connection of a pending removal is one that was made.
  pub removed_is_Known : Known s.living conn
  removed_is_Known = (All-middle (Known s.living) before after conn (rw pending at v.known)).0

  removals-count :
      (n : List ℕ)
      → removals_of n s.server.removals
        ≡ removals_of n (before ++ after) + (if same_key conn.name n then 1 else 0)
  removals-count n = rw pending (removals_of_middle n before after conn)

  -- It is in the map.
  pub removed_is_there : 1 ≤ entries_of conn.name s.server.connections
  removed_is_there =
      let (k, l, here, same) = removed_is_Known in
      let balance = v.balanced k l here in
      let once = IsOrderly-closes l.tcp (v.orderly k l here) in
      rw (ap (λ (c : Connection). c.name) (sym same)) (
        ground (
          arith,
          balance,
          once,
          ap (λ (c : Connection). c.name) same,
          removals-count l.conn.name,
          same_key_refl l.conn.name,
        ))

  -- Its connection has called its close callback.
  removed_is_Ended : Ended s.living conn
  removed_is_Ended =
      let (k, l, here, same) = removed_is_Known in
      (
        k,
        l,
        here,
        same,
        ground (
          arith,
          v.once k l here,
          v.balanced k l here,
          IsOrderly-closes l.tcp (v.orderly k l here),
          ap (λ (c : Connection). c.name) same,
          removals-count l.conn.name,
          same_key_refl l.conn.name,
        ),
      )

  abbrev removed_server : TcpServer
  removed_server = record s.server {
    removals = before ++ after;
    connections = (erase conn.name s.server.connections).0;
    requests = s.server.requests ++ destroy conn ∷ [];
  }

  entries-count :
      (n : List ℕ)
      → entries_of n removed_server.connections + (if same_key conn.name n then 1 else 0)
        ≡ entries_of n s.server.connections
  entries-count n = entries_of-erase n conn.name s.server.connections removed_is_there

  establishes-count :
      (n : List ℕ) → establishes_of n removed_server.requests ≡ establishes_of n s.server.requests
  establishes-count n = omega (arith, establishes_of-append n s.server.requests (destroy conn ∷ []))

  removed-Inv : Inv thread name ip_port (record s { server = removed_server })
  removed-Inv = record {
    own = v.own;
    its_name = v.its_name;
    its_port = v.its_port;
    numbered = v.numbered;
    named = v.named;
    orderly = v.orderly;
    apart = v.apart;
    balanced = λ k l e.
        omega (arith, v.balanced k l e, removals-count l.conn.name, entries-count l.conn.name);
    once = λ k l e. omega (arith, v.once k l e, entries-count l.conn.name);
    asked = λ k l e. omega (arith, v.asked k l e, establishes-count l.conn.name);
    due =
        All-append (IsDue s.living) s.server.requests (destroy conn ∷ []) v.due
          (removed_is_Ended, tt);
    known = (All-middle (Known s.living) before after conn (rw pending at v.known)).1;
    fresh = λ j lt. omega (
      arith,
      v.fresh j lt,
      removals-count (conn_name name ip_port j),
      entries-count (conn_name name ip_port j),
      establishes-count (conn_name name ip_port j),
    );
  }

  -- So its assertion holds, and the account is kept.
  pub remove_lem :
      (remove thread conn (with_removals (before ++ after) s)
        ≡ ok (record s { server = removed_server }))
      × Inv thread name ip_port (record s { server = removed_server })
  unfolding remove
  remove_lem =
      let (k, l, here, same) = removed_is_Known in
      let away : conn.io_loop.thread_id ≢ thread = rw same at (v.apart k l here) in
      (
        rw
            (remove_in_loop_lem thread conn (record s.server { removals = before ++ after }) v.own
              away removed_is_there)
            refl,
        removed-Inv,
      )
