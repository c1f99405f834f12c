-- ===== src/Net/TcpServer/Dealing.antt =====
-- Many sockets, one after the other.
use lib_net_toy.Net.TcpServer.{TcpServer, Request, accept_handler}
use lib_net_toy.Net.TcpServer.Connections.{LeavesServer}
use lib_net_toy.Net.TcpServer.Accepting.{IsListening, accept_handler_lem}
use lib_net_toy.Base.EventLoopThreadPool.Turns.{deal_turns}
use lib_net_toy.Base.EventLoop.{EventLoop}
use lib_net_toy.Base.EventLoopThreadPool.{EventLoopThreadPool}
use lib_net_toy.Prelude.{
  ℕ, zero, suc, ◌+◌, ◌%◌, ◌^◌, ◌<◌, ◌≡◌, refl, sym, ap, ◌∙◌, false, List, [], ◌∷◌, ◌++◌, append-nil,
  append_assoc, arith, Result, ok, ◌>>=◌, length, get_elem?,
}

module _ (exec : Request → TcpServer → Result TcpServer) (thread : ℕ) where
  -- `n` accepts that succeed.
  abbrev pub accept_many : ℕ → TcpServer → Result TcpServer
  accept_many zero s = ok s
  accept_many (suc n) s = accept_handler exec thread false s >>= accept_many n

module _ (exec : Request → TcpServer → Result TcpServer) (leaves : LeavesServer exec)
    (thread : ℕ) where
  -- After `n` accepts the sockets that were made for the next ones stand on the loops of the pool in
  -- turn: socket `k` on the loop at `(next + k) % size`. The server goes on listening.
  pub accepts_in_turn :
      (n : ℕ) (current : EventLoop) (s : TcpServer)
      → IsListening thread current s
      → s.next_conn_id + n < 2 ^ 31
      → (xs : List EventLoop) × (s' : TcpServer) × (last : EventLoop) × (accept_many exec thread n s
          ≡ ok s')
        × (length xs ≡ n)
        × (s'.acceptor.accepts ≡ s.acceptor.accepts ++ xs)
        × ((k : ℕ)
            → k < n
            → get_elem? xs k
              ≡ get_elem? s.thread_pool.loops
                  ((s.thread_pool.next + k) % length s.thread_pool.loops))
        × (s'.next_conn_id ≡ s.next_conn_id + n)
        × IsListening thread last s'
  accepts_in_turn zero current s v small = (
    [],
    s,
    current,
    refl,
    refl,
    sym (append-nil s.acceptor.accepts),
    λ k lt. absurd (omega arith),
    omega arith,
    v,
  )
  accepts_in_turn (suc n) current s v small =
      let (conn, next, s₁, e, on, fresh, there, turn, accepts, pool, count, v₁) =
        accept_handler_lem exec leaves thread current s v (omega arith) in
      let (xs, s', last, e', l, accepts', turns, count', v') =
        accepts_in_turn n next s₁ v₁ (omega (arith, count)) in
      (
        next ∷ xs,
        s',
        last,
        rw e e',
        omega (arith, l),
        accepts' ∙ ap (λ ys. ys ++ xs) accepts ∙ append_assoc s.acceptor.accepts (next ∷ []) xs,
        deal_turns s.thread_pool.loops xs s.thread_pool.next n next v.pool_turn turn (λ k lt.
            turns k lt
            ∙ ap (λ (p : EventLoopThreadPool). get_elem? p.loops ((p.next + k) % length p.loops))
                pool),
        omega (arith, count, count'),
        v',
      )
