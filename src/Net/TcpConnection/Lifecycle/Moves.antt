-- ===== src/Net/TcpConnection/Lifecycle/Moves.antt =====
-- What follows of every sequence of such changes.
use lib_net_toy.Net.TcpConnection.Lifecycle.Later.{
  Follows, stays, after, reports, establishes, shuts, destroys, disconnects, logged, IsOther,
  is_connected-eq,
}
use lib_net_toy.Net.TcpConnection.Lifecycle.{
  ups-append, downs-append, closes-append, connected, connecting, State, disconnecting, rank, ups,
  downs, IsOrderly,
}
use lib_net_toy.Net.TcpConnection.Handlers.{begin_first_read, async_read}
use lib_net_toy.Net.TcpConnection.Types.{
  closes, disconnected, Call, connection_changed, message_arrived, write_completed,
  connection_closed, TcpConnection, is_open,
}
use lib_net_toy.Prelude.{◌+◌, ◌≤◌, ◌≡◌, refl, ap, ◌∙◌, Bool, true, false, [], ◌∷◌, arith}

open_rank :
    (s : State)
    → elim s [ connected ↦ true | disconnecting ↦ true | _ ↦ false ] ≡ true
    → (1 ≤ rank s) × (rank s ≤ 2)
open_rank disconnected o = cc
open_rank connecting o = cc
open_rank connected o = omega arith
open_rank disconnecting o = omega arith

other_calls :
    (call : Call)
    → IsOther call
    → (ups (call ∷ []) ≡ 0) × (downs (call ∷ []) ≡ 0) × (closes (call ∷ []) ≡ 0)
other_calls (connection_changed up) o = absurd o
other_calls message_arrived o = (refl, refl, refl)
other_calls write_completed o = (refl, refl, refl)
other_calls connection_closed o = absurd o

-- The state never turns back.
pub Follows-rank :
    {rises : Bool} {c c' : TcpConnection} → Follows rises c c' → rank c.state ≤ rank c'.state
unfolding begin_first_read async_read
Follows-rank (stays s e) = rw s (omega arith)
Follows-rank (after p q) = omega (arith, Follows-rank p, Follows-rank q)
Follows-rank (reports call o) = omega arith
Follows-rank (establishes r s) = omega (arith, ap rank s)
Follows-rank (shuts {c} o p q) = omega (arith, open_rank c.state o, Follows-rank p, Follows-rank q)
Follows-rank (destroys {c} o) = omega (arith, ap rank (is_connected-eq c.state o))
Follows-rank (disconnects {c} o) = omega (arith, open_rank c.state o)

rank_le : (s : State) → rank s ≤ 3
rank_le disconnected = omega arith
rank_le connecting = omega arith
rank_le connected = omega arith
rank_le disconnecting = omega arith

pub rank_top : (s : State) → 3 ≤ rank s → s ≡ disconnected
rank_top disconnected h = refl
rank_top connecting h = absurd (omega arith)
rank_top connected h = absurd (omega arith)
rank_top disconnecting h = absurd (omega arith)

-- A connection that is disconnected closes no more.
pub Follows-closes :
    {rises : Bool} {c c' : TcpConnection}
    → Follows rises c c'
    → c.state ≡ disconnected
    → closes c'.calls ≡ closes c.calls
Follows-closes (stays s e) d = ap closes e
Follows-closes {c} (after {b = b} p q) d =
    Follows-closes q (rank_top b.state (omega (arith, Follows-rank p, ap rank d)))
    ∙ Follows-closes p d
Follows-closes {c} (reports call o) d =
    omega (arith, closes-append c.calls (call ∷ []), other_calls call o)
Follows-closes (establishes r s) d = cc
Follows-closes {c} (shuts o p q) d = absurd (omega (arith, open_rank c.state o, ap rank d))
Follows-closes {c} (destroys o) d =
    absurd (omega (arith, ap rank (is_connected-eq c.state o), ap rank d))
Follows-closes {c} (disconnects o) d = absurd (omega (arith, open_rank c.state o, ap rank d))

-- One more callback.
logged_counts :
    (call : Call) (c : TcpConnection)
    → (ups (logged call c).calls ≡ ups c.calls + ups (call ∷ []))
      × (downs (logged call c).calls ≡ downs c.calls + downs (call ∷ []))
      × (closes (logged call c).calls ≡ closes c.calls + closes (call ∷ []))
logged_counts call c = (
  ups-append c.calls (call ∷ []),
  downs-append c.calls (call ∷ []),
  closes-append c.calls (call ∷ []),
)

shutting-IsOrderly :
    (c : TcpConnection)
    → is_open c ≡ true
    → IsOrderly c
    → IsOrderly
        (logged (connection_changed false) (record c { state = disconnected; reading = false }))
shutting-IsOrderly c o p =
    omega (arith, open_rank c.state o, logged_counts (connection_changed false) c)

-- The close callback, the first of a connection that is disconnected.
closed-IsOrderly :
    (c : TcpConnection)
    → c.state ≡ disconnected
    → closes c.calls ≡ 0
    → IsOrderly c
    → IsOrderly (logged connection_closed c)
closed-IsOrderly c d zero_closes p = omega (arith, ap rank d, logged_counts connection_closed c)

-- Orderly connections stay orderly.
pub Follows-IsOrderly :
    {rises : Bool} {c c' : TcpConnection} → Follows rises c c' → IsOrderly c → IsOrderly c'
unfolding begin_first_read async_read
Follows-IsOrderly (stays s e) p = record {
  up = rw (s, e) p.up;
  down = rw (s, e) p.down;
  closed = rw (s, e) p.closed;
}
Follows-IsOrderly (after f g) p = Follows-IsOrderly g (Follows-IsOrderly f p)
Follows-IsOrderly {c} (reports call o) p = omega (arith, logged_counts call c, other_calls call o)
Follows-IsOrderly {c} (establishes r s) p =
    omega (arith, ap rank s, logged_counts (connection_changed true) c)
Follows-IsOrderly {c} (shuts {c₂ = c₂} o f g) p =
    let first = shutting-IsOrderly c o p in
    let done : c₂.state ≡ disconnected = rank_top c₂.state (Follows-rank f) in
    let zero_closes : closes c₂.calls ≡ 0 = omega (
      arith,
      Follows-closes f refl,
      open_rank c.state o,
      logged_counts (connection_changed false) c,
    ) in
    Follows-IsOrderly g (closed-IsOrderly c₂ done zero_closes (Follows-IsOrderly f first))
Follows-IsOrderly {c} (destroys o) p =
    omega (arith, ap rank (is_connected-eq c.state o), logged_counts (connection_changed false) c)
Follows-IsOrderly {c} (disconnects o) p = omega (arith, open_rank c.state o)

-- Once it is disconnected, and not before, the close callback may have been called, once.
pub IsOrderly-closes : (c : TcpConnection) → IsOrderly c → closes c.calls ≤ 1
IsOrderly-closes c p = omega (arith, p.closed, rank_le c.state)

pub IsOrderly-downs : (c : TcpConnection) → IsOrderly c → downs c.calls ≤ 1
IsOrderly-downs c p = omega (arith, p.down, rank_le c.state)

pub closes-le :
    {rises : Bool} {c c' : TcpConnection} → Follows rises c c' → closes c.calls ≤ closes c'.calls
unfolding begin_first_read async_read
closes-le (stays s e) = rw e (omega arith)
closes-le (after f g) = omega (arith, closes-le f, closes-le g)
closes-le {c} (reports call o) = omega (arith, logged_counts call c)
closes-le {c} (establishes r s) = omega (arith, logged_counts (connection_changed true) c)
closes-le {c} (shuts {c₂ = c₂} o f g) = omega (
  arith,
  logged_counts (connection_changed false) c,
  logged_counts connection_closed c₂,
  closes-le f,
  closes-le g,
)
closes-le {c} (destroys o) = omega (arith, logged_counts (connection_changed false) c)
closes-le (disconnects o) = omega arith

pub rank_bottom : (s : State) → rank s ≡ 0 → s ≡ connecting
rank_bottom connecting h = refl
rank_bottom disconnected h = absurd (omega arith)
rank_bottom connected h = absurd (omega arith)
rank_bottom disconnecting h = absurd (omega arith)

-- A connection that waits for `connectEstablished` goes on waiting.
pub Follows-connecting :
    {c c' : TcpConnection} → Follows false c c' → c.state ≡ connecting → c'.state ≡ connecting
unfolding begin_first_read async_read
Follows-connecting (stays s e) w = s ∙ w
Follows-connecting (after f g) w = Follows-connecting g (Follows-connecting f w)
Follows-connecting (reports call o) w = w
Follows-connecting (establishes r s) w = cc
Follows-connecting {c} (shuts o f g) w = absurd (omega (arith, open_rank c.state o, ap rank w))
Follows-connecting {c} (destroys o) w =
    absurd (omega (arith, ap rank (is_connected-eq c.state o), ap rank w))
Follows-connecting {c} (disconnects o) w = absurd (omega (arith, open_rank c.state o, ap rank w))
