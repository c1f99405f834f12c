-- ===== src/Net/Connector.antt =====
-- src/net/Connector.h and Connector.cpp: connecting to a server, over and over until it works. A
-- socket is a number; a handler of an `async_connect` in flight holds its socket, and `owned` says
-- which sockets something else holds, which keeps a weak pointer to them alive. What the connector
-- asks of its loop is kept beside its fields: the connects in flight, the timers with their
-- delays, and the functors posted. The callback is the client's code.
pub mod Backoff
pub mod Misuse
pub mod Tests
pub mod Delays
pub mod Steps
use lib_net_toy.Net.TcpConnection.Types.{with_loop}
use lib_net_toy.Base.EventLoop.{EventLoop, assert_in_loop_thread, run_in_loop, queue_in_loop}
use lib_net_toy.Prelude.{
  ℕ, ◌+◌, ◌*◌, min, Bool, true, false, ◌||◌, Option, none, some, List, [], ◌∷◌, ◌++◌, ◌==◌,
  if◌then◌else◌, Result, ok, ◌>>=◌, ◌>>◌, assert,
}

-- `States`
pub data States : Type 0 where
  k_disconnected k_connecting k_connected : States

pub data Functor : Type 0 where
  start_functor stop_functor : Functor

pub record Timer : Type 0 where
  pub id : ℕ
  pub delay : ℕ

pub record Connector : Type 0 where
  pub loop : Option EventLoop
  pub connect : Bool
  pub state : States
  pub retry_delay_ms : ℕ
  pub socket : Option ℕ
  pub re_connect_timer : Option ℕ
  pub next_id : ℕ
  pub connects : List ℕ
  pub closed : List ℕ
  pub timers : List Timer
  pub posted : List Functor

abbrev pub k_max_retry_delay_ms : ℕ
k_max_retry_delay_ms = 30 * 1000

abbrev pub k_init_retry_delay_ms : ℕ
k_init_retry_delay_ms = 500

-- The constructor.
abbrev pub new_connector : Option EventLoop → Connector
new_connector loop = record {
  loop = loop;
  connect = false;
  state = k_disconnected;
  retry_delay_ms = k_init_retry_delay_ms;
  socket = none;
  re_connect_timer = none;
  next_id = 0;
  connects = [];
  closed = [];
  timers = [];
  posted = [];
}

abbrev pub is_disconnected : States → Bool
is_disconnected k_disconnected = true
is_disconnected _ = false

abbrev pub is_connecting : States → Bool
is_connecting k_connecting = true
is_connecting _ = false

-- Whether a list of sockets has this one.
abbrev pub has : List ℕ → ℕ → Bool
has [] s = false
has (x ∷ xs) s = x == s || has xs s

abbrev pub drop_socket : ℕ → List ℕ → List ℕ
drop_socket s [] = []
drop_socket s (x ∷ xs) = if x == s then xs else x ∷ drop_socket s xs

abbrev pub drop_timer : ℕ → List Timer → List Timer
drop_timer id [] = []
drop_timer id (t ∷ ts) = if t.id == id then ts else t ∷ drop_timer id ts

-- `loop_->cancel(reConnectTimer_)`: a timer that is gone is not found.
abbrev pub cancel : Option ℕ → List Timer → List Timer
cancel none ts = ts
cancel (some id) ts = drop_timer id ts

-- A new socket, and the connect on it.
unfoldable pub connect_socket : Connector → Connector
connect_socket c = record c {
  socket = some c.next_id;
  state = k_connecting;
  connects = c.connects ++ c.next_id ∷ [];
  next_id = c.next_id + 1;
}

unfoldable pub start_in_loop : ℕ → Connector → Result Connector
start_in_loop thread c = do
  assert (is_disconnected c.state)
  if c.connect
      then with_loop c.loop (ok c)
          (λ loop. do assert_in_loop_thread loop thread; ok (connect_socket c))
      else ok c

-- `runAfter`, and twice the delay for the next time.
unfoldable pub schedule : Connector → Connector
schedule c = record c {
  re_connect_timer = some c.next_id;
  timers = c.timers ++ record { id = c.next_id; delay = c.retry_delay_ms } ∷ [];
  next_id = c.next_id + 1;
  retry_delay_ms = min (c.retry_delay_ms * 2) k_max_retry_delay_ms;
}

module _ (owned : ℕ → Bool) where
  -- `socketWeakPtr_.lock()`, where the caller holds `holders`.
  abbrev pub is_alive : List ℕ → Connector → ℕ → Bool
  is_alive holders c s = has holders s || has c.connects s || owned s

  unfoldable pub retry : List ℕ → Connector → Result Connector
  retry holders c = elim c.socket [
    | none ↦ ok c
    | some s ↦
        if is_alive holders c s
        then (do
          let c₁ : Connector = record c { closed = c.closed ++ s ∷ [] }
          assert (is_disconnected c₁.state)
          if c₁.connect then with_loop c₁.loop (ok c₁) (λ loop. ok (schedule c₁)) else ok c₁)
        else ok c
  ]

  -- The callback may be empty.
  abbrev pub call_back :
      Option (ℕ → Connector → Result Connector) → ℕ → Connector → Result Connector
  call_back none s c = ok c
  call_back (some f) s c = f s c

  unfoldable pub handle_connect :
      Option (ℕ → Connector → Result Connector) → ℕ → Bool → Connector → Result Connector
  handle_connect cb s error c =
      if error
      then retry (s ∷ []) (record c { state = k_disconnected })
      else call_back cb s (record c { state = k_connected })

  unfoldable pub restart : ℕ → Connector → Result Connector
  restart thread c = with_loop c.loop (ok c) λ loop. do
    assert_in_loop_thread loop thread
    start_in_loop thread (record c {
      state = k_disconnected;
      retry_delay_ms = k_init_retry_delay_ms;
      connect = true;
    })

  unfoldable pub stop_in_loop : ℕ → Connector → Result Connector
  stop_in_loop thread c = with_loop c.loop (ok c) λ loop. do
    assert_in_loop_thread loop thread
    if is_connecting c.state then retry [] (record c { state = k_disconnected }) else ok c

  unfoldable pub exec_functor : ℕ → Functor → Connector → Result Connector
  exec_functor thread start_functor c = start_in_loop thread c
  exec_functor thread stop_functor c = stop_in_loop thread c

  abbrev pub post_functor : Functor → Connector → Connector
  post_functor f c = record c { posted = c.posted ++ f ∷ [] }

  unfoldable pub start : ℕ → Connector → Result Connector
  start thread c =
      let c₁ : Connector = record c { connect = true } in
      with_loop c.loop (ok c₁)
        λ loop. run_in_loop (exec_functor thread) post_functor loop thread start_functor c₁

  unfoldable pub stop : Connector → Connector
  stop c =
      let c₁ : Connector = record c { connect = false } in
      with_loop c.loop c₁ λ loop.
        let c₂ = queue_in_loop (exec_functor 0) post_functor stop_functor c₁ in
        record c₂ { timers = cancel c₂.re_connect_timer c₂.timers }
