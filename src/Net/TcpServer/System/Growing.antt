-- ===== src/Net/TcpServer/System/Growing.antt =====
-- An accepted connection is in the map, and no removal of it is pending.
use lib_net_toy.Net.TcpServer.System.Accepted.{with_new, accept-eq-ok}
use lib_net_toy.Net.TcpServer.System.Balance.{IsDue, Inv, Known}
use lib_net_toy.Net.TcpServer.System.{get_elem?, Living, System, accept}
use lib_net_toy.Prelude.{
  All-mono, All-append, get_elem?-append_last, refl, ◌∙◌, get_elem?-append, get_elem?-append-cases,
  get_elem?-lt, length-append, if◌then◌else◌, length, inl, inr, false, ℕ, ◌+◌, ◌≡◌, sym, ◌≢◌, some,
  List, [], ◌∷◌, ◌++◌, arith, ok,
}
use lib_net_toy.Net.TcpServer.{Request, destroy, same_key, Connection, establish, conn_name}
use lib_net_toy.Net.TcpServer.Names.{conn_name-injective, same_key_refl}
use lib_net_toy.Net.TcpServer.System.Counting.{
  establishes_of, establishes_of-append, entries_of, removals_of, entries_of-put, same_key_ne,
}
use lib_net_toy.Net.TcpConnection.Types.{TcpConnection, closes}
use lib_net_toy.Net.TcpConnection.Lifecycle.{IsOrderly, rank}
use lib_net_toy.Base.EventLoop.{EventLoop}

module _ (thread : ℕ) (name ip_port : List ℕ) (s : System) (v : Inv thread name ip_port s)
    (io_loop : EventLoop) (tcp : TcpConnection) where
  abbrev new : Living
  new = record {
    conn = record {
      name = conn_name s.server.name s.server.ip_port s.server.next_conn_id;
      io_loop = io_loop;
    };
    tcp = tcp;
  }

  abbrev grown : List Living
  grown = s.living ++ new ∷ []

  -- The next number names the new connection.
  new_name : new.conn.name ≡ conn_name name ip_port (length s.living + 1)
  new_name = rw (v.its_name, v.its_port, v.numbered) refl

  new_is_fresh :
      (entries_of new.conn.name s.server.connections ≡ 0)
      × (removals_of new.conn.name s.server.removals ≡ 0)
      × (establishes_of new.conn.name s.server.requests ≡ 0)
  new_is_fresh = rw new_name (v.fresh (length s.living + 1) (omega arith))

  grown-entries :
      (n : List ℕ)
      → entries_of n (with_new io_loop s.server).connections
        ≡ entries_of n s.server.connections + (if same_key new.conn.name n then 1 else 0)
  grown-entries n = entries_of-put n new.conn.name new.conn s.server.connections new_is_fresh.0

  grown-establishes :
      (n : List ℕ)
      → establishes_of n (with_new io_loop s.server).requests
        ≡ establishes_of n s.server.requests + (if same_key new.conn.name n then 1 else 0)
  grown-establishes n =
      ground (arith, establishes_of-append n s.server.requests (establish new.conn ∷ []))

  stays_Known : (c : Connection) → Known s.living c → Known grown c
  stays_Known c (k, l, e, same) = (k, l, get_elem?-append s.living (new ∷ []) k l e, same)

  stays_Due : (r : Request) → IsDue s.living r → IsDue grown r
  stays_Due (establish c) due = stays_Known c due
  stays_Due (destroy c) (k, l, e, same, ended) =
      (k, l, get_elem?-append s.living (new ∷ []) k l e, same, ended)

  now_Known : Known grown new.conn
  now_Known =
      (length s.living, new, get_elem?-append_last s.living new (length s.living) refl, refl)

  -- A number from elsewhere is another key.
  grown_other :
      (n : List ℕ) (i : ℕ)
      → n ≡ conn_name name ip_port i
      → i ≢ length s.living + 1
      → (entries_of n (with_new io_loop s.server).connections ≡ entries_of n s.server.connections)
        × (establishes_of n (with_new io_loop s.server).requests
            ≡ establishes_of n s.server.requests)
  grown_other n i same ne =
      let other : same_key new.conn.name n ≡ false = same_key_ne new.conn.name n (λ e. ne (
        omega (
          arith,
          conn_name-injective name ip_port (length s.living + 1) i (sym new_name ∙ e ∙ same),
        ))) in
      ground (arith, other, grown-entries n, grown-establishes n)

  elsewhere :
      (k : ℕ) (l : Living)
      → get_elem? s.living k ≡ some l
      → (entries_of l.conn.name (with_new io_loop s.server).connections
          ≡ entries_of l.conn.name s.server.connections)
        × (establishes_of l.conn.name (with_new io_loop s.server).requests
            ≡ establishes_of l.conn.name s.server.requests)
  elsewhere k l there =
      grown_other l.conn.name (k + 1) (v.named k l there)
        (λ same. absurd (omega (arith, same, get_elem?-lt s.living k l there)))

  grow-Inv :
      IsOrderly tcp
      → closes tcp.calls ≡ 0
      → rank tcp.state ≡ 0
      → io_loop.thread_id ≢ thread
      → Inv thread name ip_port (record { server = with_new io_loop s.server; living = grown })
  grow-Inv orderly none_closed waits away = record {
    own = v.own;
    its_name = v.its_name;
    its_port = v.its_port;
    numbered = omega (arith, v.numbered, length-append s.living (new ∷ []));
    named = λ k l e. elim (get_elem?-append-cases s.living new k l e) [
      | inl there ↦ v.named k l there
      | inr (last, same) ↦ rw (same, last) new_name
    ];
    orderly = λ k l e. elim (get_elem?-append-cases s.living new k l e) [
      | inl there ↦ v.orderly k l there
      | inr (last, same) ↦ rw same orderly
    ];
    apart = λ k l e. elim (get_elem?-append-cases s.living new k l e) [
      | inl there ↦ v.apart k l there
      | inr (last, same) ↦ rw same away
    ];
    balanced = λ k l e. elim (get_elem?-append-cases s.living new k l e) [
      | inl there ↦ omega (arith, v.balanced k l there, elsewhere k l there)
      | inr (last, same) ↦ rw same (
          ground (
            arith,
            none_closed,
            new_is_fresh,
            grown-entries new.conn.name,
            same_key_refl new.conn.name,
          ))
    ];
    once = λ k l e. elim (get_elem?-append-cases s.living new k l e) [
      | inl there ↦ omega (arith, v.once k l there, elsewhere k l there)
      | inr (last, same) ↦
          rw same
            (ground (arith, new_is_fresh, grown-entries new.conn.name, same_key_refl new.conn.name))
    ];
    asked = λ k l e. elim (get_elem?-append-cases s.living new k l e) [
      | inl there ↦ omega (arith, v.asked k l there, elsewhere k l there)
      | inr (last, same) ↦ rw same (
          ground (
            arith,
            waits,
            new_is_fresh,
            grown-establishes new.conn.name,
            same_key_refl new.conn.name,
          ))
    ];
    known = All-mono (Known s.living) (Known grown) s.server.removals stays_Known v.known;
    due =
        All-append (IsDue grown) s.server.requests (establish new.conn ∷ [])
          (All-mono (IsDue s.living) (IsDue grown) s.server.requests stays_Due v.due)
          (now_Known, tt);
    fresh = λ j lt.
        let longer = length-append s.living (new ∷ []) in
        let old = v.fresh j (omega (arith, longer)) in
        let same =
          grown_other (conn_name name ip_port j) j refl (λ e. absurd (omega (arith, e, longer))) in
        (same.0 ∙ old.0, old.1, same.1 ∙ old.2);
  }

pub accept-Inv :
    (thread : ℕ) (name ip_port : List ℕ) (io_loop : EventLoop) (s s' : System)
    → Inv thread name ip_port s
    → io_loop.thread_id ≢ thread
    → accept thread io_loop s ≡ ok s'
    → Inv thread name ip_port s'
accept-Inv thread name ip_port io_loop s s' v away e =
    let (tcp, orderly, none_closed, waits, made) = accept-eq-ok thread io_loop s s' away e in
    rw made (grow-Inv thread name ip_port s v io_loop tcp orderly none_closed waits away)
