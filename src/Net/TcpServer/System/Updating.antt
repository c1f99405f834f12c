-- ===== src/Net/TcpServer/System/Updating.antt =====
-- One connection changes, and the server with it: the account of all is kept.
use lib_net_toy.Net.TcpServer.{
  Request, establish, destroy, TcpServer, Connection, conn_name, same_key,
}
use lib_net_toy.Net.TcpServer.Names.{conn_name-injective, same_key_refl}
use lib_net_toy.Net.TcpServer.System.{System, Living}
use lib_net_toy.Net.TcpServer.System.Balance.{Inv, Ended, IsDue, Removes, Known}
use lib_net_toy.Net.TcpServer.System.Counting.{entries_of, establishes_of, removals_of, same_key_ne}
use lib_net_toy.Net.TcpConnection.Types.{TcpConnection, closes}
use lib_net_toy.Net.TcpConnection.Lifecycle.{IsOrderly, rank}
use lib_net_toy.Net.TcpConnection.Lifecycle.Moves.{IsOrderly-closes}
use lib_net_toy.Base.EventLoop.{EventLoop}
use lib_net_toy.Prelude.{
  All-mono, min, ℕ, ◌+◌, ◌≤◌, ◌<◌, ◌≡◌, refl, sym, ap, ◌∙◌, ◌≢◌, inl, inr, false, some, List, arith,
  ℕ_discrete, length, get_elem?, set, get_elem?-set_self, get_elem?-set_ne, get_elem?-set-cases,
  length-set, get_elem?-lt,
}

module _ (thread : ℕ) (name ip_port : List ℕ) (s : System) (v : Inv thread name ip_port s) where
  -- Two connections have different keys.
  other_key :
      (j k : ℕ) (l m : Living)
      → get_elem? s.living j ≡ some l
      → get_elem? s.living k ≡ some m
      → j ≢ k
      → same_key m.conn.name l.conn.name ≡ false
  other_key j k l m e f ne = same_key_ne m.conn.name l.conn.name (λ same. ne (
      omega (
        arith,
        conn_name-injective name ip_port (j + 1) (k + 1)
            (sym (v.named j l e) ∙ sym same ∙ v.named k m f),
      )))

  module _ (k : ℕ) (l : Living) (here : get_elem? s.living k ≡ some l) (tcp : TcpConnection) (d : ℕ)
      (server : TcpServer) (changes : Removes d l.conn s.server server) where
    abbrev changed : List Living
    changed = set s.living k (record l { tcp = tcp })

    stays_Known : (c : Connection) → Known s.living c → Known changed c
    stays_Known c (j, m, e, same) = elim (ℕ_discrete j k) [
      | yes at_k ↦
          let one : l ≡ m = cc in
          (
            k,
            record l { tcp = tcp },
            get_elem?-set_self s.living k l (record l { tcp = tcp }) here,
            ap (λ (x : Living). x.conn) one ∙ same,
          )
      | no away ↦ (j, m, get_elem?-set_ne s.living k j _ (λ x. away (sym x)) ∙ e, same)
    ]

    stays_Due :
        IsOrderly tcp
        → closes tcp.calls ≡ closes l.tcp.calls + d
        → (r : Request) → IsDue s.living r
        → IsDue changed r
    stays_Due o more (establish c) due = stays_Known c due
    stays_Due o more (destroy c) (j, m, e, same, ended) = elim (ℕ_discrete j k) [
      | yes at_k ↦
          let one : m ≡ l = cc in
          (
            k,
            record l { tcp = tcp },
            get_elem?-set_self s.living k l (record l { tcp = tcp }) here,
            ap (λ (x : Living). x.conn) (sym one) ∙ same,
            omega (arith, more, IsOrderly-closes tcp o, rw one at ended),
          )
      | no away ↦ (j, m, get_elem?-set_ne s.living k j _ (λ x. away (sym x)) ∙ e, same, ended)
    ]

    now_Known : Known changed l.conn
    now_Known = (
      k,
      record l { tcp = tcp },
      get_elem?-set_self s.living k l (record l { tcp = tcp }) here,
      refl,
    )

    now_Ended : closes tcp.calls ≡ 1 → Ended changed l.conn
    now_Ended ended = (
      k,
      record l { tcp = tcp },
      get_elem?-set_self s.living k l (record l { tcp = tcp }) here,
      refl,
      ended,
    )

    balanced_self :
        closes tcp.calls ≡ closes l.tcp.calls + d
        → removals_of l.conn.name server.removals + 1
          ≡ closes tcp.calls + entries_of l.conn.name server.connections
    balanced_self more =
        ground
          (arith, more, changes.counts l.conn.name, same_key_refl l.conn.name, v.balanced k l here)

    balanced_other :
        (j : ℕ) (m : Living)
        → get_elem? s.living j ≡ some m
        → j ≢ k
        → removals_of m.conn.name server.removals + 1
          ≡ closes m.tcp.calls + entries_of m.conn.name server.connections
    balanced_other j m e ne =
        ground (arith, changes.counts m.conn.name, other_key j k m l e here ne, v.balanced j m e)

    fresh_after :
        (j : ℕ)
        → length s.living < j
        → (entries_of (conn_name name ip_port j) server.connections ≡ 0)
          × (removals_of (conn_name name ip_port j) server.removals ≡ 0)
          × (establishes_of (conn_name name ip_port j) server.requests ≡ 0)
    fresh_after j lt =
        let new : same_key l.conn.name (conn_name name ip_port j) ≡ false =
          same_key_ne l.conn.name (conn_name name ip_port j) (λ same. absurd (
            omega (
              arith,
              get_elem?-lt s.living k l here,
              conn_name-injective name ip_port (k + 1) j (sym (v.named k l here) ∙ same),
            ))) in
        ground (
          arith,
          new,
          v.fresh j lt,
          changes.counts (conn_name name ip_port j),
          changes.fewer (conn_name name ip_port j),
          changes.asks (conn_name name ip_port j),
        )

    -- The account after `d` removals of the connection, whose close callback was called `d` times.
    pub update-Inv :
        IsOrderly tcp
        → closes tcp.calls ≡ closes l.tcp.calls + d
        → (1 ≤ d → closes tcp.calls ≡ 1)
        → establishes_of l.conn.name s.server.requests + min 1 (rank tcp.state) ≤ 1
        → Inv thread name ip_port (record { server = server; living = changed })
    update-Inv orderly more ends asks = record {
      own = ap (λ (x : EventLoop). x.thread_id) changes.same_loop ∙ v.own;
      its_name = changes.same_name ∙ v.its_name;
      its_port = changes.same_port ∙ v.its_port;
      numbered =
          omega
            (arith, changes.same_next, v.numbered, length-set s.living k (record l { tcp = tcp }));
      named = λ j m e. elim (get_elem?-set-cases s.living k j m _ e) [
        | inl (at_k, same) ↦ rw (at_k, same) (v.named k l here)
        | inr (away, there) ↦ v.named j m there
      ];
      orderly = λ j m e. elim (get_elem?-set-cases s.living k j m _ e) [
        | inl (at_k, same) ↦ rw same orderly
        | inr (away, there) ↦ v.orderly j m there
      ];
      apart = λ j m e. elim (get_elem?-set-cases s.living k j m _ e) [
        | inl (at_k, same) ↦ rw same (v.apart k l here)
        | inr (away, there) ↦ v.apart j m there
      ];
      balanced = λ j m e. elim (get_elem?-set-cases s.living k j m _ e) [
        | inl (at_k, same) ↦ rw same (balanced_self more)
        | inr (away, there) ↦ balanced_other j m there away
      ];
      once = λ j m e. elim (get_elem?-set-cases s.living k j m _ e) [
        | inl (at_k, same) ↦ rw same (omega (arith, changes.fewer l.conn.name, v.once k l here))
        | inr (away, there) ↦ omega (arith, changes.fewer m.conn.name, v.once j m there)
      ];
      asked = λ j m e. elim (get_elem?-set-cases s.living k j m _ e) [
        | inl (at_k, same) ↦ rw same (omega (arith, changes.asks l.conn.name, asks))
        | inr (away, there) ↦ omega (arith, changes.asks m.conn.name, v.asked j m there)
      ];
      known =
          changes.listed changed now_Known
            (All-mono (Known s.living) (Known changed) s.server.removals stays_Known v.known);
      due =
          changes.dues changed (λ more_closes. now_Ended (ends more_closes))
            (All-mono (IsDue s.living) (IsDue changed) s.server.requests (stays_Due orderly more)
              v.due);
      fresh = λ j lt. fresh_after j (omega (arith, length-set s.living k (record l { tcp = tcp })));
    }
