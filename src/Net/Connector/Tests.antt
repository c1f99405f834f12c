-- ===== src/Net/Connector/Tests.antt =====
-- A connector, and the theorems applied to it.
use lib_net_toy.Net.Connector.Misuse.{connected_after_stop, start_while_waiting}
use lib_net_toy.Net.Connector.Steps.{
  Events, Reach, stopped_begins_nothing, LeavesConnector, here, after_event, after_request, starts,
  connect_ends, quiet, then_event,
}
use lib_net_toy.Net.Connector.Backoff.{backoff, fail_times, IsWaiting}
use lib_net_toy.Net.Connector.{
  call_back, stop, new_connector, drop_timer, stop_in_loop, Connector, EventLoop, start,
  handle_connect, k_connected, k_connecting, k_disconnected, connect_socket, start_in_loop, retry,
  exec_functor, schedule, stop_functor,
}
use lib_net_toy.Net.Connector.Delays.{delays_in_range, HasDelaysInRange}
use lib_net_toy.Net.TcpConnection.Types.{with_loop}
use lib_net_toy.Prelude.{
  ℕ, ◌≡◌, refl, Bool, true, false, Option, some, [], ◌∷◌, arith, assertion, Result, ok, fault,
  ◌>>=◌,
}

abbrev loop : EventLoop
loop = record { this = 1; thread_id = 7 }

-- Nothing but the connector holds a socket.
abbrev nobody : ℕ → Bool
nobody s = false

abbrev ignore : Option (ℕ → Connector → Result Connector)
ignore = some λ s c. ok c

ignore-LeavesConnector : LeavesConnector ignore
ignore-LeavesConnector s c = refl

-- Before the first attempt, with `start` called.
abbrev wanted : Connector
wanted = record (new_connector (some loop)) { connect = true }

wanted-IsWaiting : IsWaiting loop wanted
wanted-IsWaiting = record {
  its_loop = refl;
  wanted = refl;
  idle = refl;
  none_in_flight = refl;
  one_timer = refl;
}

-- After the first attempt has failed.
abbrev retrying : Connector
retrying = record wanted {
  retry_delay_ms = 1000;
  socket = some 0;
  re_connect_timer = some 1;
  next_id = 2;
  closed = 0 ∷ [];
  timers = record { id = 1; delay = 500 } ∷ [];
}

retrying-IsWaiting : IsWaiting loop retrying
retrying-IsWaiting = record {
  its_loop = refl;
  wanted = refl;
  idle = refl;
  none_in_flight = refl;
  one_timer = refl;
}

-- During the first attempt.
abbrev trying : Connector
trying = record wanted { state = k_connecting; socket = some 0; next_id = 1; connects = 0 ∷ [] }

start_test : start nobody 7 (new_connector (some loop)) ≡ ok trying
unfolding start exec_functor start_in_loop connect_socket with_loop
start_test = refl

failed_test : handle_connect nobody ignore 0 true (record trying { connects = [] }) ≡ ok retrying
unfolding handle_connect retry schedule with_loop
failed_test = refl

backoff_example :
    (c : Connector) × (id : ℕ) × (fail_times nobody ignore 7 8 wanted ≡ ok c)
    × (c.timers ≡ record { id = id; delay = 30000 } ∷ [])
    × (c.re_connect_timer ≡ some id)
    × (c.state ≡ k_disconnected)
backoff_example = backoff nobody ignore 7 7 loop wanted refl wanted-IsWaiting (ground arith)

-- `stop` while the first attempt is under way, which then fails.
abbrev stopped : Connector
stopped = record trying {
  connect = false;
  state = k_disconnected;
  connects = [];
  closed = 0 ∷ [];
  posted = stop_functor ∷ [];
}

stopped-Events : Events nobody ignore (stop nobody trying) stopped
unfolding handle_connect retry stop with_loop
stopped-Events = then_event quiet (connect_ends 0 true (stop nobody trying) refl refl)

stopped_begins_nothing_example : (stopped.connect ≡ false) × (stopped.next_id ≡ trying.next_id)
stopped_begins_nothing_example =
    stopped_begins_nothing nobody ignore trying stopped ignore-LeavesConnector stopped-Events

retrying-Reach : Reach nobody ignore (new_connector (some loop)) retrying
retrying-Reach =
    after_event (after_request here (starts 7 (new_connector (some loop)) start_test))
      (connect_ends 0 true trying refl failed_test)

delays_in_range_example : HasDelaysInRange retrying
delays_in_range_example =
    delays_in_range nobody ignore (some loop) retrying ignore-LeavesConnector retrying-Reach

start_while_waiting_example :
    (c : Connector) × (start nobody 7 retrying ≡ ok c)
    × (c.timers ≡ record { id = 1; delay = 500 } ∷ [])
    × (start_in_loop 7 (record c { timers = drop_timer 1 c.timers }) ≡ fault assertion)
start_while_waiting_example =
    start_while_waiting nobody ignore 7 loop refl retrying (record { id = 1; delay = 500 })
      retrying-IsWaiting refl

connected_after_stop_example :
    (c : Connector) × ((stop_in_loop nobody 7 (stop nobody trying)
        >>= handle_connect nobody ignore 0 false)
      ≡ call_back nobody ignore 0 c)
    × (c.state ≡ k_connected)
    × (c.connect ≡ false)
connected_after_stop_example =
    connected_after_stop nobody ignore 7 loop refl trying 0 refl refl refl
