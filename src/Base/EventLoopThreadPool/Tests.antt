-- ===== src/Base/EventLoopThreadPool/Tests.antt =====
-- A pool of two loops, and the theorems applied to it.
use lib_net_toy.Prelude.{ℕ, ◌+◌, ◌≡◌, refl, true, some, List, [], ◌∷◌, arith, ok, length, get_elem?}
use lib_net_toy.Base.EventLoopThreadPool.Turns.{deal_turn, deal}
use lib_net_toy.Base.EventLoopThreadPool.{
  pos, EventLoopThreadPool, start, EventLoop, init, start_threads, set_thread_num,
}
use lib_net_toy.Prelude.Decimal.{decimal, decimal_fuel}

-- The loop that the `k`th thread starts.
abbrev supply : ℕ → EventLoop
supply k = record { this = 100 + k; thread_id = 10 + k }

abbrev base : EventLoop
base = record { this = 1; thread_id = 7 }

abbrev two_loops : EventLoopThreadPool
two_loops = record {
  base_loop = base;
  name = 112 ∷ [];
  started = true;
  num_threads = pos 2;
  next = 1;
  threads =
      record { name = 112 ∷ 48 ∷ []; loop = supply 0 }
      ∷ record { name = 112 ∷ 49 ∷ []; loop = supply 1 }
      ∷ [];
  loops = supply 0 ∷ supply 1 ∷ [];
}

deal_turn_example :
    (xs : List EventLoop) × (deal 7 5 two_loops ≡ ok (xs, record two_loops { next = 0 }))
    × (length xs ≡ 5)
    × (get_elem? xs 3 ≡ some (supply 0))
deal_turn_example = deal_turn 7 5 3 two_loops refl refl (ground arith) (ground arith)

-- The pool of two threads, started.
abbrev fresh : EventLoopThreadPool
fresh = set_thread_num (init base (112 ∷ [])) (pos 2)

start_test : start supply 7 true fresh ≡ ok (record two_loops { next = 0 }, [])
unfolding start start_threads init set_thread_num decimal decimal_fuel
start_test = refl
