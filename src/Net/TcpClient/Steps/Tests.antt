-- ===== src/Net/TcpClient/Steps/Tests.antt =====
-- A client that connects, and whose peer closes the connection.
use lib_net_toy.Net.Connector
use lib_net_toy.Net.Connector.{
  Connector, k_disconnected, k_connecting, k_connected, start_in_loop, connect_socket,
  handle_connect, exec_functor, start_functor,
}
use lib_net_toy.Net.TcpClient.{
  Made, TcpClient, connect, connect_done, new_connection, call_connection,
}
use lib_net_toy.Net.TcpClient.Steps.{Reach, begins, later, connects, connect_ends, ready_client}
use lib_net_toy.Net.TcpClient.Steps.Safety.{closing_is_current}
use lib_net_toy.Net.TcpConnection.Types
use lib_net_toy.Net.TcpConnection.Types.{
  TcpConnection, Handlers, closes, leave_close, with_loop, connected, disconnected,
  connection_changed, connection_closed,
}
use lib_net_toy.Net.TcpConnection.Handlers.{
  eof, connect_established, begin_first_read, async_read, read_handler, handle_close,
}
use lib_net_toy.Net.TcpConnection.Lifecycle.{apply, read_done}
use lib_net_toy.Net.TcpConnection.Lifecycle.Later.{Respects, RespectsAll, stays}
use lib_net_toy.Base.Buffer
use lib_net_toy.Base.Buffer.{Buffer}
use lib_net_toy.Base.EventLoop.{EventLoop}
use lib_net_toy.Prelude.Decimal.{decimal}
use lib_net_toy.Prelude.{
  resize, resized, ℕ, ◌*◌, ◌≡◌, ◌≢◌, refl, sym, ap, Bool, true, false, none, some, [], ◌∷◌, arith,
  ok, ok-injective, get_elem?,
}

abbrev loop : EventLoop
loop = record { this = 1; thread_id = 7 }

abbrev quiet : Handlers
quiet = record {
  connection_callback = some (λ c. ok c);
  message_callback = some (λ c. ok c);
  write_complete_callback = none;
  close_callback = none;
}

quiet-Respects : Respects true quiet.connection_callback
quiet-Respects c c' e =
    stays (ap (λ (d : TcpConnection). d.state) (sym (ok-injective e)))
      (ap (λ (d : TcpConnection). d.calls) (sym (ok-injective e)))

quiet-RespectsAll : RespectsAll true quiet
quiet-RespectsAll = record {
  on_connection = quiet-Respects;
  on_message = quiet-Respects;
  on_write_complete = tt;
  on_close = tt;
}

abbrev none_owned : ℕ → Bool
none_owned socket = false

abbrev ready : TcpClient
ready = ready_client loop (99 ∷ []) quiet

abbrev connecting_client : TcpClient
connecting_client = record ready {
  connector = record ready.connector {
    connect = true;
    state = k_connecting;
    socket = some 0;
    connects = 0 ∷ [];
    next_id = 1;
  };
}

connect_test : connect none_owned 7 ready ≡ ok connecting_client
unfolding connect Connector.start exec_functor start_in_loop connect_socket with_loop
connect_test = refl

abbrev empty_buffer : Buffer
empty_buffer = record { buffer = resized [] 4104; reader_index = 8; writer_index = 8 }

-- Its name is `c:p#1`, for the peer `p`.
abbrev up : TcpConnection
up = record {
  loop = some loop;
  name = 99 ∷ 58 ∷ 112 ∷ 35 ∷ 49 ∷ [];
  state = connected;
  reading = true;
  high_water_mark = 64 * 1024 * 1024;
  input_buffer = empty_buffer;
  output_buffer = empty_buffer;
  reads = record { offset = 8; capacity = 4096 } ∷ [];
  sends = [];
  write_shut = false;
  posted = [];
  calls = connection_changed true ∷ [];
}

abbrev its_handlers : Handlers
its_handlers = record quiet { close_callback = leave_close }

abbrev connected_client : TcpClient
connected_client = record connecting_client {
  connector = record connecting_client.connector { state = k_connected; connects = [] };
  next_conn_id = 2;
  connection = some 0;
  made = record { conn = up; handlers = its_handlers } ∷ [];
}

connect_done_test :
    connect_done none_owned 7 0 false (112 ∷ []) (record connecting_client {
      connector = record connecting_client.connector { connects = [] };
    })
    ≡ ok connected_client
unfolding connect_done handle_connect new_connection call_connection Types.new_connection
    Buffer.init resize resized decimal connect_established begin_first_read async_read with_loop
connect_done_test = refl

connected-Reach : Reach none_owned ready connected_client
connected-Reach =
    later (later begins (connects 7 connect_test))
      (connect_ends 7 0 false (112 ∷ []) refl connect_done_test)

abbrev closed : TcpConnection
closed = record up {
  state = disconnected;
  reading = false;
  calls = connection_changed true ∷ connection_changed false ∷ connection_closed ∷ [];
}

close_test : apply its_handlers 7 (read_done eof 0) up ≡ ok closed
unfolding apply read_handler handle_close with_loop
close_test = refl

closing_is_current_example :
    (connected_client.connection ≡ some 0)
    × ((k : ℕ) (other : Made)
        → get_elem? connected_client.made k ≡ some other
        → k ≢ 0
        → (other.conn.state ≡ disconnected) × (closes other.conn.calls ≡ 1))
closing_is_current_example =
    closing_is_current none_owned loop (99 ∷ []) quiet connected_client 7 0
      (record { conn = up; handlers = its_handlers }) (read_done eof 0) closed quiet-RespectsAll
      connected-Reach refl close_test (omega arith)
