-- ===== src/Net/TcpServer/System/Steps.antt =====
-- Every step keeps the account, so that it holds in every state that can be reached.
use mathlib.Core.Option.{some-injective}
use lib_net_toy.Prelude.{
  Bool, All-middle, get_elem?, ok-injective, >>=-eq-ok, ℕ, ◌+◌, ◌≡◌, refl, sym, ap, ◌∙◌, true,
  false, some, List, [], ◌∷◌, ◌++◌, arith, ok,
}
use lib_net_toy.Net.TcpServer.{Request, establish, destroy, conn_name}
use lib_net_toy.Net.TcpServer.Names.{same_key_refl}
use lib_net_toy.Net.TcpServer.System.{
  Step, accepts, establishes, destroys, happens, removes, Reach, begins, later, new_system, System,
  Living, call, its_handlers, with_requests, IsOutside,
}
use lib_net_toy.Net.TcpServer.System.Calls.{call_lem}
use lib_net_toy.Net.TcpServer.System.Growing.{accept-Inv}
use lib_net_toy.Net.TcpServer.System.Removing.{remove_lem}
use lib_net_toy.Net.TcpServer.System.Balance.{Inv, IsDue}
use lib_net_toy.Net.TcpServer.System.Counting.{establishes_of, establishes_of_middle}
use lib_net_toy.Net.TcpConnection.Types.{TcpConnection, Handlers, connecting}
use lib_net_toy.Net.TcpConnection.Lifecycle.{
  Event, apply, established, destroyed, read_done, write_done, task_runs, shut_down,
  closed_by_force, reading_started, reading_stopped, sent, rank,
}
use lib_net_toy.Net.TcpConnection.Lifecycle.Later.{RespectsAll}
use lib_net_toy.Net.TcpConnection.Lifecycle.Events.{Allows}
use lib_net_toy.Net.TcpConnection.Lifecycle.Moves.{rank_bottom}
use lib_net_toy.Base.EventLoop.{EventLoop}
use lib_net_toy.Base.EventLoopThreadPool.{at, get_elem?-at}

outside-Allows : (e : Event) → IsOutside e → Allows false e
outside-Allows (read_done error n) o = tt
outside-Allows (write_done error n) o = tt
outside-Allows (task_runs task) o = tt
outside-Allows established o = absurd o
outside-Allows destroyed o = tt
outside-Allows shut_down o = tt
outside-Allows closed_by_force o = tt
outside-Allows reading_started o = tt
outside-Allows reading_stopped o = tt
outside-Allows (sent message) o = tt

-- A call that does not fail is of a connection that was made, and survives it.
call-eq-ok :
    (callbacks : Handlers) (t k : ℕ) (event : Event) (s s' : System)
    → call callbacks t k event s ≡ ok s'
    → (l : Living) × (tcp : TcpConnection) × (get_elem? s.living k ≡ some l)
      × (apply (its_handlers callbacks) t event l.tcp ≡ ok tcp)
unfolding call
call-eq-ok callbacks t k event s s' e =
    let (l, e₁, rest) = >>=-eq-ok (at s.living k) _ e in
    let (tcp, e₂, rest₂) = >>=-eq-ok (apply (its_handlers callbacks) t event l.tcp) _ rest in
    (l, tcp, get_elem?-at s.living k l e₁, e₂)

-- A posted call is taken out.
taken-Inv :
    (thread : ℕ) (name ip_port : List ℕ) (s : System) (before after : List Request) (r : Request)
    → Inv thread name ip_port s
    → s.server.requests ≡ before ++ r ∷ after
    → Inv thread name ip_port (with_requests (before ++ after) s)
taken-Inv thread name ip_port s before after r v posted =
    let count : (n : List ℕ)
        → establishes_of n s.server.requests
          ≡ establishes_of n (before ++ after) + establishes_of n (r ∷ []) =
      λ n. rw posted (establishes_of_middle n before after r) in
    record {
      own = v.own;
      its_name = v.its_name;
      its_port = v.its_port;
      numbered = v.numbered;
      named = v.named;
      orderly = v.orderly;
      apart = v.apart;
      balanced = v.balanced;
      once = v.once;
      asked = λ k l e. omega (arith, v.asked k l e, count l.conn.name);
      known = v.known;
      due = (All-middle (IsDue s.living) before after r (rw posted at v.due)).1;
      fresh = λ j lt. omega (arith, v.fresh j lt, count (conn_name name ip_port j));
    }

-- A posted `connectEstablished` is the only one of its connection, which waits for it.
pub establish_lem :
    (thread : ℕ) (name ip_port : List ℕ) (s : System) (before after : List Request) (k : ℕ)
    (l : Living)
    → Inv thread name ip_port s
    → get_elem? s.living k ≡ some l
    → s.server.requests ≡ before ++ establish l.conn ∷ after
    → (l.tcp.state ≡ connecting) × (establishes_of l.conn.name (before ++ after) ≡ 0)
establish_lem thread name ip_port s before after k l v here posted =
    let count = establishes_of_middle l.conn.name before after (establish l.conn) in
    let one : establishes_of l.conn.name (establish l.conn ∷ []) ≡ 1 =
      rw (same_key_refl l.conn.name) refl in
    let total = ap (establishes_of l.conn.name) posted in
    let waits : rank l.tcp.state ≡ 0 = omega (arith, v.asked k l here, count, one, total) in
    (rank_bottom l.tcp.state waits, omega (arith, v.asked k l here, count, one, total))

-- Where a call was made, it is the one that keeps the account.
call-Inv :
    (callbacks : Handlers) (rises : Bool) (thread t k : ℕ) (name ip_port : List ℕ) (event : Event)
    (s s' : System)
    → RespectsAll false callbacks
    → Inv thread name ip_port s
    → Allows rises event
    → (rises ≡ true
        → (l : Living) → get_elem? s.living k ≡ some l
        → establishes_of l.conn.name s.server.requests ≡ 0)
    → call callbacks t k event s ≡ ok s'
    → Inv thread name ip_port s'
call-Inv callbacks rises thread t k name ip_port event s s' r v allowed ready e =
    let (l, tcp, here, e₁) = call-eq-ok callbacks t k event s s' e in
    let (s₂, e₂, v₂) =
      call_lem callbacks r thread name ip_port rises t k event l tcp s v here allowed
        (λ up. ready up l here) e₁ in
    rw (ok-injective (sym e ∙ e₂)) v₂

Step-Inv :
    (callbacks : Handlers) (thread : ℕ) (name ip_port : List ℕ) {s s' : System}
    → RespectsAll false callbacks
    → Step callbacks thread s s'
    → Inv thread name ip_port s
    → Inv thread name ip_port s'
Step-Inv callbacks thread name ip_port {s} {s'} r (accepts io_loop away e) v =
    accept-Inv thread name ip_port io_loop s s' v away e
Step-Inv callbacks thread name ip_port {s} {s'} r (establishes k l before after here posted e) v =
    let ready = (establish_lem thread name ip_port s before after k l v here posted).1 in
    call-Inv callbacks true thread l.conn.io_loop.thread_id k name ip_port established
      (with_requests (before ++ after) s) s' r
      (taken-Inv thread name ip_port s before after (establish l.conn) v posted) refl
      (λ up m there. rw (some-injective m l (sym there ∙ here)) ready) e
Step-Inv callbacks thread name ip_port {s} {s'} r (destroys k l before after here posted e) v =
    call-Inv callbacks false thread l.conn.io_loop.thread_id k name ip_port destroyed
      (with_requests (before ++ after) s) s' r
      (taken-Inv thread name ip_port s before after (destroy l.conn) v posted) tt (λ up. cc) e
Step-Inv callbacks thread name ip_port {s} {s'} r (happens t k event outside e) v =
    call-Inv callbacks false thread t k name ip_port event s s' r v (outside-Allows event outside)
      (λ up. cc) e
Step-Inv callbacks thread name ip_port {s} {s'} r (removes conn before after pending e) v =
    let (e₂, v₂) = remove_lem thread name ip_port s v conn before after pending in
    rw (ok-injective (sym e ∙ e₂)) v₂

new_system-Inv :
    (loop : EventLoop) (ip_port name : List ℕ)
    → Inv loop.thread_id name ip_port (new_system loop ip_port name)
new_system-Inv loop ip_port name = record {
  own = refl;
  its_name = refl;
  its_port = refl;
  numbered = refl;
  named = λ k l e. cc;
  orderly = λ k l e. cc;
  apart = λ k l e. cc;
  balanced = λ k l e. cc;
  once = λ k l e. cc;
  asked = λ k l e. cc;
  known = tt;
  due = tt;
  fresh = λ j lt. (refl, refl, refl);
}

pub Reach-Inv :
    (callbacks : Handlers) (loop : EventLoop) (ip_port name : List ℕ) {s : System}
    → RespectsAll false callbacks
    → Reach callbacks loop.thread_id (new_system loop ip_port name) s
    → Inv loop.thread_id name ip_port s
Reach-Inv callbacks loop ip_port name r begins = new_system-Inv loop ip_port name
Reach-Inv callbacks loop ip_port name r (later p q) =
    Step-Inv callbacks loop.thread_id name ip_port r q (Reach-Inv callbacks loop ip_port name r p)
