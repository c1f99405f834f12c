-- ===== src/Net/TcpServer/System/Calls.antt =====
-- A call of a connection keeps the server's account of it.
use lib_net_toy.Net.TcpServer.System.Updating.{update-Inv}
use lib_net_toy.Net.TcpServer.System.{System, Living, its_handlers, call}
use lib_net_toy.Net.TcpServer.System.Balance.{Inv, Removes-none, remove_connection_lem}
use lib_net_toy.Net.TcpServer.System.Counting.{entries_of, establishes_of}
use lib_net_toy.Net.TcpConnection.Types.{TcpConnection, closes, Handlers}
use lib_net_toy.Net.TcpConnection.Lifecycle.{rank, Event, apply}
use lib_net_toy.Net.TcpConnection.Lifecycle.Later.{stays, RespectsAll, RespectsAll-weaken, Follows}
use lib_net_toy.Net.TcpConnection.Lifecycle.Moves.{
  closes-le, Follows-connecting, rank_bottom, Follows-IsOrderly, IsOrderly-closes,
}
use lib_net_toy.Net.TcpConnection.Lifecycle.Events.{apply-Follows, Allows}
use lib_net_toy.Base.EventLoopThreadPool.{at-eq-ok}
use lib_net_toy.Prelude.{
  min, true, Bool, ℕ, ◌+◌, ◌≤◌, ◌≡◌, refl, sym, ap, inl, inr, false, some, List, arith, ℕ_discrete,
  ltb, Bool-cases, ok, get_elem?, set, ok-injective,
}

-- The connections' part of a call.
its-RespectsAll :
    (callbacks : Handlers)
    → RespectsAll false callbacks
    → RespectsAll false (its_handlers callbacks)
its-RespectsAll callbacks r = record {
  on_connection = r.on_connection;
  on_message = r.on_message;
  on_write_complete = r.on_write_complete;
  on_close = λ c c' e.
      stays (ap (λ (d : TcpConnection). d.state) (sym (ok-injective e)))
        (ap (λ (d : TcpConnection). d.calls) (sym (ok-injective e)));
}

its-RespectsAll_any :
    (rises : Bool) (callbacks : Handlers)
    → RespectsAll false callbacks
    → RespectsAll rises (its_handlers callbacks)
its-RespectsAll_any false callbacks r = its-RespectsAll callbacks r
its-RespectsAll_any true callbacks r =
    RespectsAll-weaken (its_handlers callbacks) (its-RespectsAll callbacks r)

-- A posted `connectEstablished` still finds its connection connecting.
asked_after :
    (rises : Bool) {c c' : TcpConnection} (n : ℕ)
    → Follows rises c c'
    → (rises ≡ true → n ≡ 0)
    → n + min 1 (rank c.state) ≤ 1
    → n + min 1 (rank c'.state) ≤ 1
asked_after true n f none h = omega (arith, none refl)
asked_after false {c} {c'} n f none h = elim (ℕ_discrete (rank c.state) 0) [
  | yes waits ↦
      let still = ap rank (Follows-connecting f (rank_bottom c.state waits)) in omega arith
  | no later ↦ omega arith
]

module _ (callbacks : Handlers) (respects : RespectsAll false callbacks) (thread : ℕ)
    (name ip_port : List ℕ) where
  -- A call that the connection survives does not fail in the server either, and keeps the account.
  pub call_lem :
      (rises : Bool) (t k : ℕ) (event : Event) (l : Living) (tcp : TcpConnection) (s : System)
      → Inv thread name ip_port s
      → get_elem? s.living k ≡ some l
      → Allows rises event
      → (rises ≡ true → establishes_of l.conn.name s.server.requests ≡ 0)
      → apply (its_handlers callbacks) t event l.tcp ≡ ok tcp
      → (s' : System) × (call callbacks t k event s ≡ ok s') × Inv thread name ip_port s'
  unfolding call
  call_lem rises t k event l tcp s v here allowed ready e =
      let f : Follows rises l.tcp tcp =
        apply-Follows (its_handlers callbacks) t (its-RespectsAll_any rises callbacks respects)
          event l.tcp tcp allowed e in
      let o = Follows-IsOrderly f (v.orderly k l here) in
      let asks =
        asked_after rises (establishes_of l.conn.name s.server.requests) f ready
          (v.asked k l here) in
      elim (Bool-cases (ltb (closes l.tcp.calls) (closes tcp.calls))) [
        | inl more ↦
            let once : closes tcp.calls ≡ closes l.tcp.calls + 1 =
              ground (arith, IsOrderly-closes tcp o) in
            let there : 1 ≤ entries_of l.conn.name s.server.connections =
              omega (arith, once, IsOrderly-closes tcp o, v.balanced k l here) in
            let (server, e', changes) =
              remove_connection_lem thread t l.conn s.server v.own (v.apart k l here) there in
            (
              record { server = server; living = set s.living k (record l { tcp = tcp }) },
              rw (at-eq-ok s.living k l here, e, more, e') refl,
              update-Inv thread name ip_port s v k l here tcp 1 server changes o once
                  (λ one. omega (arith, once, IsOrderly-closes tcp o)) asks,
            )
        | inr same ↦
            let none : closes tcp.calls ≡ closes l.tcp.calls + 0 = ground (arith, closes-le f) in
            (
              record s { living = set s.living k (record l { tcp = tcp }) },
              rw (at-eq-ok s.living k l here, e, same) refl,
              update-Inv thread name ip_port s v k l here tcp 0 s.server
                  (Removes-none l.conn s.server) o none (λ one. absurd (omega arith)) asks,
            )
      ]
