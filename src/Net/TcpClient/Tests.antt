-- ===== src/Net/TcpClient/Tests.antt =====
-- A client with an open connection, and the theorems applied to it.
use lib_net_toy.Net.Connector.{k_connected, k_connecting, start_in_loop, connect_socket}
use lib_net_toy.Net.TcpClient.{
  Made, TcpClient, call_connection, connect, new_client, conn_name, disconnect, enable_retry,
}
use lib_net_toy.Net.TcpClient.Names.{long_names_agree}
use lib_net_toy.Net.TcpClient.Closing.{IsServing, restarted}
use lib_net_toy.Net.TcpClient.Cycle.{
  IsRetrying, lose_and_connect, lose_and_connect_lem, turns, stays_connected,
}
use lib_net_toy.Net.TcpClient.Disconnecting.{disconnect_stays, connect_after_close}
use lib_net_toy.Net.TcpConnection.Types.{
  with_loop, leave_close, connection_closed, connection_changed, TcpConnection, disconnected,
  connected,
}
use lib_net_toy.Net.TcpConnection.Handlers.{read_handler, eof}
use lib_net_toy.Base.Buffer.{Buffer}
use lib_net_toy.Base.EventLoop.{EventLoop}
use lib_net_toy.Prelude.{
  assertion, fault, ℕ, ◌*◌, ◌≡◌, refl, Bool, true, false, none, some, List, [], ◌∷◌, arith, ok,
  ◌>>=◌, length, drop,
}

abbrev loop : EventLoop
loop = record { this = 1; thread_id = 7 }

abbrev none_owned : ℕ → Bool
none_owned s = false

abbrev small_buffer : Buffer
small_buffer = record {
  buffer = 0 ∷ 0 ∷ 0 ∷ 0 ∷ 0 ∷ 0 ∷ 0 ∷ 0 ∷ 0 ∷ 0 ∷ [];
  reader_index = 8;
  writer_index = 8;
}

-- The client `c`, to retry.
abbrev fresh : TcpClient
fresh = enable_retry (new_client loop (99 ∷ []))

-- A connection that is up, with the client's callbacks.
abbrev up : Made
up = record {
  conn = record {
    loop = some loop;
    name = 99 ∷ 58 ∷ 112 ∷ 35 ∷ 49 ∷ [];
    state = connected;
    reading = true;
    high_water_mark = 64 * 1024 * 1024;
    input_buffer = small_buffer;
    output_buffer = small_buffer;
    reads = record { offset = 8; capacity = 2 } ∷ [];
    sends = [];
    write_shut = false;
    posted = [];
    calls = connection_changed true ∷ [];
  };
  handlers = record fresh.callbacks { close_callback = leave_close };
}

abbrev serving : TcpClient
serving = record fresh {
  connector = record fresh.connector {
    connect = true;
    state = k_connected;
    socket = some 0;
    next_id = 1;
  };
  next_conn_id = 2;
  connection = some 0;
  made = up ∷ [];
}

serving-IsServing : IsServing 7 0 up serving
serving-IsServing = record {
  own_thread = refl;
  current = refl;
  its_place = refl;
  its_loop = refl;
  is_up = refl;
  on_connection = λ c. (c, refl, refl, refl, refl);
  on_close = λ c. (c, refl, refl, refl, refl);
  connector_loop = refl;
}

serving-IsRetrying : IsRetrying serving
serving-IsRetrying = record {
  retries = refl;
  connects = refl;
  none_posted = refl;
  on_connection = λ c. (c, refl, refl, refl, refl);
}

-- The connection of `p` is lost, and then that of `q`.
stays_connected_example :
    (j : ℕ) × (m' : Made) × (s' : TcpClient) × (turns none_owned 7
        ((112 ∷ []) ∷ (113 ∷ []) ∷ [])
        serving
      ≡ ok s')
    × IsServing 7 j m' s'
    × IsRetrying s'
    × (length s'.made ≡ 3)
stays_connected_example =
    stays_connected none_owned 7 ((112 ∷ []) ∷ (113 ∷ []) ∷ []) 0 up serving serving-IsServing
      serving-IsRetrying (omega arith)

lose_and_connect_lem_example :
    (c : TcpConnection) × (m' : Made) × (lose_and_connect none_owned 7 0 (112 ∷ []) serving
      ≡ ok (record serving {
        made = record up { conn = c } ∷ m' ∷ [];
        connection = some 1;
        next_conn_id = 3;
        connector = record (restarted serving.connector) {
          state = k_connected;
          connects = drop 1 (restarted serving.connector).connects;
        };
        destroys_posted = [];
      }))
    × (c.state ≡ disconnected)
    × (c.calls ≡ connection_changed true ∷ connection_changed false ∷ connection_closed ∷ [])
    × (m'.conn.state ≡ connected)
    × (m'.conn.loop ≡ some loop)
    × (m'.conn.calls ≡ connection_changed true ∷ [])
    × (m'.handlers.connection_callback ≡ fresh.callbacks.connection_callback)
    × (m'.handlers.close_callback ≡ leave_close)
lose_and_connect_lem_example =
    lose_and_connect_lem none_owned 7 0 (112 ∷ []) up serving serving-IsServing serving-IsRetrying
      (omega arith)

disconnect_stays_example :
    (c : TcpConnection) × ((disconnect none_owned 7 serving
        >>= call_connection none_owned 7 (λ h. read_handler h 7 eof 0) 0)
      ≡ ok (record serving {
        connect = false;
        connection = none;
        made = record up { conn = c } ∷ [];
        destroys_posted = 0 ∷ [];
      }))
    × (c.state ≡ disconnected)
    × (c.calls ≡ connection_changed true ∷ connection_changed false ∷ connection_closed ∷ [])
disconnect_stays_example = disconnect_stays none_owned 7 0 0 up serving serving-IsServing

-- The same client, not to retry.
abbrev once : TcpClient
once = record serving { retry = false }

once-IsServing : IsServing 7 0 up once
once-IsServing = record {
  own_thread = refl;
  current = refl;
  its_place = refl;
  its_loop = refl;
  is_up = refl;
  on_connection = λ c. (c, refl, refl, refl, refl);
  on_close = λ c. (c, refl, refl, refl, refl);
  connector_loop = refl;
}

connect_after_close_example :
    (call_connection none_owned 7 (λ h. read_handler h 7 eof 0) 0 once >>= connect none_owned 7)
    ≡ fault assertion
connect_after_close_example = connect_after_close none_owned 7 0 0 up once once-IsServing refl refl

-- While a retry is due: `disconnect` leaves its timer, which then begins a connect.
abbrev waiting : TcpClient
waiting = record fresh {
  connector = record fresh.connector {
    connect = true;
    socket = some 0;
    re_connect_timer = some 1;
    next_id = 2;
    retry_delay_ms = 1000;
    closed = 0 ∷ [];
    timers = record { id = 1; delay = 500 } ∷ [];
  };
}

disconnect_test : disconnect none_owned 7 waiting ≡ ok (record waiting { connect = false })
unfolding disconnect
disconnect_test = refl

timer_test :
    start_in_loop 7 (record waiting.connector { timers = [] })
    ≡ ok (record waiting.connector {
      timers = [];
      state = k_connecting;
      socket = some 2;
      connects = 2 ∷ [];
      next_id = 3;
    })
unfolding start_in_loop connect_socket with_loop
timer_test = refl

-- The client `c` connects to `1.2.3.4:80`, of which `.` is 46 and `:` is 58.
abbrev short_peer : List ℕ
short_peer = 49 ∷ 46 ∷ 50 ∷ 46 ∷ 51 ∷ 46 ∷ 52 ∷ 58 ∷ 56 ∷ 48 ∷ []

-- `[2001:db8:1:2:3:4:5:6]:65535`, and one more digit.
abbrev long_peer : List ℕ
long_peer =
    91 ∷ 50 ∷ 48 ∷ 48 ∷ 49 ∷ 58 ∷ 100 ∷ 98 ∷ 56 ∷ 58 ∷ 49 ∷ 58 ∷ 50 ∷ 58 ∷ 51 ∷ 58 ∷ 52 ∷ 58 ∷ 53
    ∷ 58 ∷ 54 ∷ 48 ∷ 93 ∷ 58 ∷ 54 ∷ 53 ∷ 53 ∷ 51 ∷ 53 ∷ []

long_names_agree_example : conn_name (99 ∷ []) long_peer 1 ≡ conn_name (99 ∷ []) long_peer 2
long_names_agree_example = long_names_agree (99 ∷ []) long_peer 1 2 (omega arith)
