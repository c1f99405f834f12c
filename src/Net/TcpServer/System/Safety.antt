-- ===== src/Net/TcpServer/System/Safety.antt =====
-- What the calls that a server posts rely on, in every state of the server and its connections.
use lib_net_toy.Net.TcpServer.{false, Connection, Request, establish, destroy}
use lib_net_toy.Prelude.{
  false, All-middle, get_elem?, ℕ, ◌+◌, ◌≤◌, ◌≡◌, refl, sym, some, List, [], ◌∷◌, ◌++◌, arith, ok,
}
use lib_net_toy.Net.TcpServer.Names.{same_key_refl}
use lib_net_toy.Net.TcpServer.System.{System, Living, remove, with_removals, Reach, new_system}
use lib_net_toy.Net.TcpServer.System.Balance.{Inv, IsDue}
use lib_net_toy.Net.TcpServer.System.Steps.{Reach-Inv, establish_lem}
use lib_net_toy.Net.TcpServer.System.Removing.{remove_lem, removed_is_there, removed_is_Known}
use lib_net_toy.Net.TcpServer.System.Counting.{entries_of, removals_of, entries_of-erase}
use lib_net_toy.Net.TcpConnection.Types.{Handlers, closes, connecting, disconnected}
use lib_net_toy.Net.TcpConnection.Lifecycle.Later.{RespectsAll}
use lib_net_toy.Net.TcpConnection.Lifecycle.Moves.{rank_top, IsOrderly-closes}
use lib_net_toy.Base.EventLoop.{EventLoop}

-- The connection of a posted call is in the state that the call is for.
abbrev pub IsReady : List Living → Request → Type 0
IsReady living (establish conn) =
    (k : ℕ) × (l : Living) × (get_elem? living k ≡ some l)
    × (l.conn ≡ conn)
    × (l.tcp.state ≡ connecting)
IsReady living (destroy conn) =
    (k : ℕ) × (l : Living) × (get_elem? living k ≡ some l)
    × (l.conn ≡ conn)
    × (l.tcp.state ≡ disconnected)
    × (closes l.tcp.calls ≡ 1)

module _ (callbacks : Handlers) (loop : EventLoop) (ip_port name : List ℕ) (s : System)
    (respects : RespectsAll false callbacks)
    (reach : Reach callbacks loop.thread_id (new_system loop ip_port name) s) where
  account : Inv loop.thread_id name ip_port s
  account = Reach-Inv callbacks loop ip_port name respects reach

  -- With user callbacks that do what the code lets them do, `connectEstablished` apart, and with all
  -- connections on threads of the pool: whatever the loops of all threads have done, in any order, a
  -- posted `removeConnectionInLoop` finds its connection in the map, so that its assertion holds; it
  -- takes the name out and posts `connectDestroyed`.
  pub removal_succeeds :
      (conn : Connection) (before after : List Connection)
      → s.server.removals ≡ before ++ conn ∷ after
      → (s' : System) × (remove loop.thread_id conn (with_removals (before ++ after) s) ≡ ok s')
        × (s'.server.requests ≡ s.server.requests ++ destroy conn ∷ [])
        × (entries_of conn.name s'.server.connections ≡ 0)
  removal_succeeds conn before after pending =
      let (e, _) = remove_lem loop.thread_id name ip_port s account conn before after pending in
      let there =
        removed_is_there loop.thread_id name ip_port s account conn before after pending in
      let (k, l, here, same) =
        removed_is_Known loop.thread_id name ip_port s account conn before after pending in
      let once : entries_of conn.name s.server.connections ≤ 1 =
        rw same at (account.once k l here) in
      let gone = entries_of-erase conn.name conn.name s.server.connections there in
      (_, e, refl, ground (arith, gone, once, same_key_refl conn.name))

  -- With user callbacks that do what the code lets them do, `connectEstablished` apart, and with all
  -- connections on threads of the pool: whatever the loops of all threads have done, in any order, the
  -- map has each connection that was made at most once, and a connection is missing from it exactly
  -- if its close callback was called and the removal that this posted has run. The entry and the
  -- close callback's calls are one more than the pending removals.
  pub map_is_accounted :
      (k : ℕ) (l : Living)
      → get_elem? s.living k ≡ some l
      → (entries_of l.conn.name s.server.connections ≤ 1)
        × (closes l.tcp.calls ≤ 1)
        × (closes l.tcp.calls + entries_of l.conn.name s.server.connections
            ≡ removals_of l.conn.name s.server.removals + 1)
  map_is_accounted k l here = (
    account.once k l here,
    IsOrderly-closes l.tcp (account.orderly k l here),
    sym (account.balanced k l here),
  )

  -- With user callbacks that do what the code lets them do, `connectEstablished` apart, and with all
  -- connections on threads of the pool: whatever the loops of all threads have done, in any order,
  -- each posted call is of a connection that was made: one that is still `kConnecting` for
  -- `connectEstablished`, which is what it asserts, and one that is `kDisconnected` and has called its
  -- close callback once for `connectDestroyed`, which has no second DOWN to report.
  pub posted-IsReady :
      (r : Request) (before after : List Request)
      → s.server.requests ≡ before ++ r ∷ after
      → IsReady s.living r
  posted-IsReady (establish conn) before after posted =
      let (k, l, here, same) =
        (All-middle (IsDue s.living) before after (establish conn) (rw posted at account.due)).0 in
      (
        k,
        l,
        here,
        same,
        (establish_lem loop.thread_id name ip_port s before after k l account here
            (rw same posted)).0,
      )
  posted-IsReady (destroy conn) before after posted =
      let (k, l, here, same, ended) =
        (All-middle (IsDue s.living) before after (destroy conn) (rw posted at account.due)).0 in
      let orderly = account.orderly k l here in
      (k, l, here, same, rank_top l.tcp.state (omega (arith, orderly.closed, ended)), ended)
