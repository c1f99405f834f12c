-- ===== src/Net/Connector/Backoff.antt =====
-- How long the connector waits between attempts.
use lib_net_toy.Base.EventLoop.{is_in_loop_thread-true}
use native.Mathlib.Nat.{pow-suc, mul-le-mul_right}
use lib_net_toy.Net.Connector.{
  schedule, retry, drop_socket, handle_connect, connect_socket, k_max_retry_delay_ms, cancel,
  EventLoop, Connector, start_in_loop, k_disconnected,
}
use lib_net_toy.Net.TcpConnection.Types.{with_loop}
use lib_net_toy.Prelude.{
  ℕ, zero, suc, ◌+◌, ◌*◌, ◌^◌, ◌≤◌, min, ◌≡◌, refl, sym, ap, ◌∙◌, Bool, true, Option, none, some,
  [], ◌∷◌, ◌++◌, arith, dec_lt, Result, ok, ◌>>=◌,
}

-- The attempt that the timer starts, or the first one, and its failure.
pub fail_once :
    (ℕ → Bool) → Option (ℕ → Connector → Result Connector) → ℕ → Connector → Result Connector
fail_once owned cb thread c = do
  c₁ ← start_in_loop thread (record c { timers = cancel c.re_connect_timer c.timers })
  elim c₁.socket [
    | none ↦ ok c₁
    | some s ↦ handle_connect owned cb s true (record c₁ { connects = drop_socket s c₁.connects })
  ]

-- One failed attempt after the other.
pub fail_times :
    (ℕ → Bool) → Option (ℕ → Connector → Result Connector) → ℕ → ℕ → Connector → Result Connector
fail_times owned cb thread zero c = ok c
fail_times owned cb thread (suc n) c = do
  c' ← fail_once owned cb thread c
  fail_times owned cb thread n c'

-- A connector between two attempts: nothing is in flight but the timer that it knows.
pub record IsWaiting (loop : EventLoop) (c : Connector) : Type 0 where
  pub its_loop : c.loop ≡ some loop
  pub wanted : c.connect ≡ true
  pub idle : c.state ≡ k_disconnected
  pub none_in_flight : c.connects ≡ []
  pub one_timer : cancel c.re_connect_timer c.timers ≡ []

-- The connector after a failure.
abbrev after : Connector → Connector
after c = record c {
  retry_delay_ms = min (c.retry_delay_ms * 2) k_max_retry_delay_ms;
  socket = some c.next_id;
  re_connect_timer = some (c.next_id + 1);
  next_id = c.next_id + 2;
  connects = [];
  closed = c.closed ++ c.next_id ∷ [];
  timers = record { id = c.next_id + 1; delay = c.retry_delay_ms } ∷ [];
}

after-IsWaiting : (loop : EventLoop) (c : Connector) → IsWaiting loop c → IsWaiting loop (after c)
after-IsWaiting loop c w = record {
  its_loop = w.its_loop;
  wanted = w.wanted;
  idle = w.idle;
  none_in_flight = refl;
  one_timer = ground arith;
}

fail_once_lem :
    (owned : ℕ → Bool) (cb : Option (ℕ → Connector → Result Connector)) (thread : ℕ)
    (loop : EventLoop) (c : Connector)
    → loop.thread_id ≡ thread
    → IsWaiting loop c
    → fail_once owned cb thread c ≡ ok (after c)
unfolding fail_once start_in_loop connect_socket handle_connect retry schedule with_loop
fail_once_lem owned cb thread loop c t w = ground (
  arith,
  w.its_loop,
  w.wanted,
  w.idle,
  w.none_in_flight,
  w.one_timer,
  is_in_loop_thread-true loop thread t,
)

double_min : (d p : ℕ) → 1 ≤ p → min (min (d * 2) 30000 * p) 30000 ≡ min (d * (p * 2)) 30000
double_min d p h = elim (dec_lt 30000 (d * 2)) [
  | yes long ↦
      let most : 30000 * p ≤ d * 2 * p = mul-le-mul_right p (omega arith) in
      ap (λ x. min (x * p) 30000) (let e : min (d * 2) 30000 ≡ 30000 = omega arith in e)
      ∙ omega (arith, most, twice)
  | no short ↦
      ap (λ x. min x 30000)
        (ap (λ x. x * p) (let e : min (d * 2) 30000 ≡ d * 2 = omega arith in e) ∙ twice)
]
  where
    twice : d * 2 * p ≡ d * (p * 2)
    twice = grind arith

one-le-pow : (n : ℕ) → 1 ≤ 2 ^ n
one-le-pow zero = omega arith
one-le-pow (suc n) = omega (arith, pow-suc 2 n, one-le-pow n)

-- After `n + 1` failed attempts in a row exactly one timer is set, and its delay is the first one
-- doubled `n` times, but half a minute at most.
pub backoff :
    (owned : ℕ → Bool) (cb : Option (ℕ → Connector → Result Connector)) (thread n : ℕ)
    (loop : EventLoop) (c : Connector)
    → loop.thread_id ≡ thread
    → IsWaiting loop c
    → c.retry_delay_ms ≤ 30000
    → (c' : Connector) × (id : ℕ) × (fail_times owned cb thread (suc n) c ≡ ok c')
      × (c'.timers ≡ record { id = id; delay = min (c.retry_delay_ms * 2 ^ n) 30000 } ∷ [])
      × (c'.re_connect_timer ≡ some id)
      × (c'.state ≡ k_disconnected)
unfolding fail_times
backoff owned cb thread zero loop c t w le = (
  after c,
  c.next_id + 1,
  rw (fail_once_lem owned cb thread loop c t w),
  ap (λ d. record { id = c.next_id + 1; delay = d } ∷ []) (omega arith),
  refl,
  w.idle,
)
backoff owned cb thread (suc n) loop c t w le =
    let (c', id, e, ts, r, s) =
      backoff owned cb thread n loop (after c) t (after-IsWaiting loop c w) (omega arith) in
    (
      c',
      id,
      rw (fail_once_lem owned cb thread loop c t w) e,
      ts
          ∙ ap (λ d. record { id = id; delay = d } ∷ [])
              (double_min c.retry_delay_ms (2 ^ n) (one-le-pow n)
                ∙ ap (λ x. min (c.retry_delay_ms * x) 30000) (sym (pow-suc 2 n))),
      r,
      s,
    )
