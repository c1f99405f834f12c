-- ===== src/Net/Connector/Delays.antt =====
-- The delays of a connector stay within their limits.
use lib_net_toy.Net.Connector.{
  new_connector, drop_socket, handle_connect, stop, restart, stop_in_loop, start, drop_timer,
  cancel, k_max_retry_delay_ms, k_init_retry_delay_ms, start_in_loop, Connector, schedule, retry,
  Timer, k_disconnected, k_connected, connect_socket, exec_functor, start_functor, stop_functor,
  is_alive, is_connecting,
}
use lib_net_toy.Net.Connector.Steps.{
  Reach, Event, LeavesConnector, Request, connect_ends, timer_fires, functor_runs, stops, starts,
  restarts, here, after_event, after_request,
}
use lib_net_toy.Net.TcpConnection.Types.{with_loop}
use lib_net_toy.Base.EventLoop.{EventLoop, is_in_loop_thread}
use lib_net_toy.Prelude.{
  ℕ, ◌≤◌, ◌≡◌, ◌⊎◌, inl, inr, Bool, true, false, ◌&&◌, Option, none, some, List, [], ◌∷◌, ◌++◌,
  arith, ◌==◌, Bool-cases, Option-cases, Result, ok,
}

abbrev InRange : ℕ → Type 0
InRange d = (k_init_retry_delay_ms ≤ d) × (d ≤ k_max_retry_delay_ms)

abbrev AllInRange : List Timer → Type 0
AllInRange [] = Unit {0}
AllInRange (t ∷ ts) = InRange t.delay × AllInRange ts

-- The next delay, and that of every timer that is set.
abbrev pub HasDelaysInRange : Connector → Type 0
HasDelaysInRange c = InRange c.retry_delay_ms × AllInRange c.timers

AllInRange-append :
    (ts : List Timer) (t : Timer) → AllInRange ts → InRange t.delay → AllInRange (ts ++ t ∷ [])
AllInRange-append [] t a r = (r, tt)
AllInRange-append (u ∷ ts) t a r = (a.0, AllInRange-append ts t a.1 r)

drop_timer-AllInRange : (id : ℕ) (ts : List Timer) → AllInRange ts → AllInRange (drop_timer id ts)
drop_timer-AllInRange id [] a = tt
drop_timer-AllInRange id (t ∷ ts) a = elim (Bool-cases (t.id == id)) [
  | inl hit ↦ rw hit a.1
  | inr miss ↦ rw miss (a.0, drop_timer-AllInRange id ts a.1)
]

cancel-AllInRange :
    (timer : Option ℕ) (ts : List Timer) → AllInRange ts → AllInRange (cancel timer ts)
cancel-AllInRange none ts a = a
cancel-AllInRange (some id) ts a = drop_timer-AllInRange id ts a

schedule-HasDelaysInRange : (c : Connector) → HasDelaysInRange c → HasDelaysInRange (schedule c)
unfolding schedule
schedule-HasDelaysInRange c (r, a) = (omega arith, AllInRange-append c.timers _ a r)

-- These calls leave the delays alone.
abbrev SameDelays : Connector → Connector → Type 0
SameDelays c c' = (c'.retry_delay_ms ≡ c.retry_delay_ms) × (c'.timers ≡ c.timers)

start_in_loop-SameDelays :
    (thread : ℕ) (c c' : Connector) → start_in_loop thread c ≡ ok c' → SameDelays c c'
unfolding start_in_loop connect_socket with_loop
start_in_loop-SameDelays thread c c' e = ground arith

retry_cases :
    (owned : ℕ → Bool) (holders : List ℕ) (c c' : Connector)
    → retry owned holders c ≡ ok c'
    → SameDelays c c' ⊎ ((s : ℕ) × (c' ≡ schedule (record c { closed = c.closed ++ s ∷ [] })))
unfolding retry with_loop
retry_cases owned holders c c' e = elim (Option-cases c.socket) [
  | inl gone ↦ inl (ground (arith, gone))
  | inr (s, held) ↦ elim (Bool-cases (is_alive owned holders c s && c.connect)) [
    | inl on ↦ elim (Option-cases c.loop) [
      | inl gone ↦ inl (ground (arith, held, gone))
      | inr (loop, its) ↦ inr (s, ground (arith, held, its))
    ]
    | inr off ↦ inl (ground (arith, held))
  ]
]

kept : (c c' : Connector) → SameDelays c c' → HasDelaysInRange c → HasDelaysInRange c'
kept c c' (d, t) r = rw (d, t) r

retry-HasDelaysInRange :
    (owned : ℕ → Bool) (holders : List ℕ) (c c' : Connector)
    → retry owned holders c ≡ ok c'
    → HasDelaysInRange c
    → HasDelaysInRange c'
retry-HasDelaysInRange owned holders c c' e r = elim (retry_cases owned holders c c' e) [
  | inl same ↦ kept c c' same r
  | inr (s, new) ↦ rw new (schedule-HasDelaysInRange (record c { closed = c.closed ++ s ∷ [] }) r)
]

start_in_loop-HasDelaysInRange :
    (thread : ℕ) (c c' : Connector)
    → start_in_loop thread c ≡ ok c'
    → HasDelaysInRange c
    → HasDelaysInRange c'
start_in_loop-HasDelaysInRange thread c c' e r =
    kept c c' (start_in_loop-SameDelays thread c c' e) r

stop_in_loop-HasDelaysInRange :
    (owned : ℕ → Bool) (thread : ℕ) (c c' : Connector)
    → stop_in_loop owned thread c ≡ ok c'
    → HasDelaysInRange c
    → HasDelaysInRange c'
unfolding stop_in_loop with_loop
stop_in_loop-HasDelaysInRange owned thread c c' e r = elim (Option-cases c.loop) [
  | inl gone ↦ kept c c' (ground (arith, gone)) r
  | inr (loop, its) ↦ elim (Bool-cases (is_connecting c.state)) [
    | inl on ↦
        retry-HasDelaysInRange owned [] (record c { state = k_disconnected }) c'
          (ground (arith, its)) r
    | inr off ↦ kept c c' (ground (arith, its)) r
  ]
]

handle_connect-HasDelaysInRange :
    (owned : ℕ → Bool) (cb : Option (ℕ → Connector → Result Connector)) (s : ℕ) (error : Bool)
    (c c' : Connector)
    → LeavesConnector cb
    → handle_connect owned cb s error c ≡ ok c'
    → HasDelaysInRange c
    → HasDelaysInRange c'
unfolding handle_connect
handle_connect-HasDelaysInRange owned cb s true c c' l e r =
    retry-HasDelaysInRange owned (s ∷ []) (record c { state = k_disconnected }) c' e r
handle_connect-HasDelaysInRange owned none s false c c' l e r = kept c c' (ground arith) r
handle_connect-HasDelaysInRange owned (some f) s false c c' l e r =
    kept c c' (ground (arith, l s (record c { state = k_connected }))) r

start-HasDelaysInRange :
    (owned : ℕ → Bool) (thread : ℕ) (c c' : Connector)
    → start owned thread c ≡ ok c'
    → HasDelaysInRange c
    → HasDelaysInRange c'
unfolding start with_loop exec_functor
start-HasDelaysInRange owned thread c c' e r = elim (Option-cases c.loop) [
  | inl gone ↦ kept c c' (ground (arith, gone)) r
  | inr (loop, its) ↦ elim (Bool-cases (is_in_loop_thread loop thread)) [
    | inl same ↦
        start_in_loop-HasDelaysInRange thread (record c { connect = true }) c' (ground (arith, its))
          r
    | inr other ↦ kept c c' (ground (arith, its)) r
  ]
]

restart-HasDelaysInRange :
    (owned : ℕ → Bool) (thread : ℕ) (c c' : Connector)
    → restart owned thread c ≡ ok c'
    → HasDelaysInRange c
    → HasDelaysInRange c'
unfolding restart with_loop
restart-HasDelaysInRange owned thread c c' e r = elim (Option-cases c.loop) [
  | inl gone ↦ kept c c' (ground (arith, gone)) r
  | inr (loop, its) ↦
      start_in_loop-HasDelaysInRange thread
        (record c {
          state = k_disconnected;
          retry_delay_ms = k_init_retry_delay_ms;
          connect = true;
        })
        c' (ground (arith, its)) (ground arith, r.1)
]

stop-HasDelaysInRange :
    (owned : ℕ → Bool) (c : Connector) → HasDelaysInRange c → HasDelaysInRange (stop owned c)
unfolding stop with_loop
stop-HasDelaysInRange owned c r = elim (Option-cases c.loop) [
  | inl gone ↦ rw gone r
  | inr (loop, its) ↦ rw its (r.0, cancel-AllInRange c.re_connect_timer c.timers r.1)
]

event-HasDelaysInRange :
    {owned : ℕ → Bool} {cb : Option (ℕ → Connector → Result Connector)} {c c' : Connector}
    → LeavesConnector cb
    → Event owned cb c c'
    → HasDelaysInRange c
    → HasDelaysInRange c'
unfolding exec_functor
event-HasDelaysInRange {owned} {cb} l (connect_ends s error c h e) r =
    handle_connect-HasDelaysInRange owned cb s error
      (record c { connects = drop_socket s c.connects }) _ l e r
event-HasDelaysInRange l (timer_fires thread t c e) r =
    start_in_loop-HasDelaysInRange thread (record c { timers = drop_timer t.id c.timers }) _ e
      (r.0, drop_timer-AllInRange t.id c.timers r.1)
event-HasDelaysInRange l (functor_runs thread start_functor rest c h e) r =
    start_in_loop-HasDelaysInRange thread (record c { posted = rest }) _ e r
event-HasDelaysInRange {owned} l (functor_runs thread stop_functor rest c h e) r =
    stop_in_loop-HasDelaysInRange owned thread (record c { posted = rest }) _ e r
event-HasDelaysInRange {owned} l (stops c e) r = rw (← e) (stop-HasDelaysInRange owned c r)

request-HasDelaysInRange :
    {owned : ℕ → Bool} {cb : Option (ℕ → Connector → Result Connector)} {c c' : Connector}
    → Request owned cb c c'
    → HasDelaysInRange c
    → HasDelaysInRange c'
request-HasDelaysInRange {owned} (starts thread c e) r = start-HasDelaysInRange owned thread c _ e r
request-HasDelaysInRange {owned} (restarts thread c e) r =
    restart-HasDelaysInRange owned thread c _ e r

Reach-HasDelaysInRange :
    {owned : ℕ → Bool} {cb : Option (ℕ → Connector → Result Connector)} {c c' : Connector}
    → LeavesConnector cb
    → HasDelaysInRange c
    → Reach owned cb c c'
    → HasDelaysInRange c'
Reach-HasDelaysInRange l r here = r
Reach-HasDelaysInRange l r (after_event p e) =
    event-HasDelaysInRange l e (Reach-HasDelaysInRange l r p)
Reach-HasDelaysInRange l r (after_request p e) =
    request-HasDelaysInRange e (Reach-HasDelaysInRange l r p)

-- In whatever order a connector's calls and its connects, timers and functors come, it never waits
-- for less than half a second before an attempt, and never for more than half a minute.
pub delays_in_range :
    (owned : ℕ → Bool) (cb : Option (ℕ → Connector → Result Connector)) (loop : Option EventLoop)
    (c : Connector)
    → LeavesConnector cb
    → Reach owned cb (new_connector loop) c
    → HasDelaysInRange c
delays_in_range owned cb loop c l p = Reach-HasDelaysInRange l (ground arith) p
