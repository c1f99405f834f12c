-- ===== src/Net/TcpServer/System/Tests.antt =====
-- One connection of a server: accepted, established, closed by its peer, removed and let go of.
use lib_net_toy.Prelude.Decimal.{decimal}
use lib_net_toy.Net.TcpServer.{
  Connection, establish, destroy, new_connection, put, same_key, remove_connection,
  remove_connection_in_loop, erase,
}
use lib_net_toy.Net.TcpServer.System.{
  System, new_system, accept, call, remove, with_requests, with_removals, accepts, establishes,
  happens, removes, Reach, begins, later,
}
use lib_net_toy.Net.TcpServer.System.Counting.{entries_of, removals_of}
use lib_net_toy.Net.TcpServer.System.Safety.{
  removal_succeeds, map_is_accounted, posted-IsReady, IsReady,
}
use lib_net_toy.Net.TcpConnection.Types
use lib_net_toy.Net.TcpConnection.Types.{
  TcpConnection, Handlers, closes, with_loop, connecting, connected, disconnected,
  connection_changed, connection_closed,
}
use lib_net_toy.Net.TcpConnection.Lifecycle.{apply, established, read_done}
use lib_net_toy.Net.TcpConnection.Lifecycle.Later.{Respects, RespectsAll, stays}
use lib_net_toy.Net.TcpConnection.Handlers.{
  eof, connect_established, begin_first_read, async_read, read_handler, handle_close,
}
use lib_net_toy.Base.Buffer
use lib_net_toy.Base.Buffer.{Buffer}
use lib_net_toy.Base.EventLoop.{EventLoop}
use lib_net_toy.Prelude.{
  resize, resized, ◌+◌, ◌*◌, ◌≤◌, ◌≡◌, refl, sym, ap, true, false, some, none, [], ◌∷◌, arith, ok,
  ok-injective,
}

abbrev main_loop : EventLoop
main_loop = record { this = 1; thread_id = 1 }

abbrev pool_loop : EventLoop
pool_loop = record { this = 2; thread_id = 7 }

-- Callbacks that return what they get.
abbrev quiet : Handlers
quiet = record {
  connection_callback = some (λ c. ok c);
  message_callback = some (λ c. ok c);
  write_complete_callback = none;
  close_callback = none;
}

quiet-Respects : Respects false quiet.connection_callback
quiet-Respects c c' e =
    stays (ap (λ (d : TcpConnection). d.state) (sym (ok-injective e)))
      (ap (λ (d : TcpConnection). d.calls) (sym (ok-injective e)))

quiet-RespectsAll : RespectsAll false quiet
quiet-RespectsAll = record {
  on_connection = quiet-Respects;
  on_message = quiet-Respects;
  on_write_complete = tt;
  on_close = tt;
}

-- The name is `s`, `1`, `#`, `1`.
abbrev conn : Connection
conn = record { name = 115 ∷ 49 ∷ 35 ∷ 49 ∷ []; io_loop = pool_loop }

abbrev empty_buffer : Buffer
empty_buffer = record { buffer = resized [] 4104; reader_index = 8; writer_index = 8 }

abbrev made : TcpConnection
made = record {
  loop = some pool_loop;
  name = conn.name;
  state = connecting;
  reading = true;
  high_water_mark = 64 * 1024 * 1024;
  input_buffer = empty_buffer;
  output_buffer = empty_buffer;
  reads = [];
  sends = [];
  write_shut = false;
  posted = [];
  calls = [];
}

abbrev up : TcpConnection
up = record made {
  state = connected;
  reads = record { offset = 8; capacity = 4096 } ∷ [];
  calls = connection_changed true ∷ [];
}

abbrev closed : TcpConnection
closed = record up {
  state = disconnected;
  reading = false;
  calls = connection_changed true ∷ connection_changed false ∷ connection_closed ∷ [];
}

abbrev start : System
start = new_system main_loop (49 ∷ []) (115 ∷ [])

abbrev accepted : System
accepted = record {
  server = record start.server {
    next_conn_id = 2;
    connections = record { key = conn.name; conn = conn } ∷ [];
    requests = establish conn ∷ [];
  };
  living = record { conn = conn; tcp = made } ∷ [];
}

accept_test : accept 1 pool_loop start ≡ ok accepted
unfolding accept Types.new_connection Buffer.init resize resized new_connection put decimal
accept_test = refl

abbrev running : System
running = record {
  server = record accepted.server { requests = [] };
  living = record { conn = conn; tcp = up } ∷ [];
}

establish_test : call quiet 7 0 established (with_requests [] accepted) ≡ ok running
unfolding call apply connect_established begin_first_read async_read with_loop resized
establish_test = refl

-- The peer has closed, and the removal is posted.
abbrev losing : System
losing = record {
  server = record running.server { removals = conn ∷ [] };
  living = record { conn = conn; tcp = closed } ∷ [];
}

close_test : call quiet 7 0 (read_done eof 0) running ≡ ok losing
unfolding call apply read_handler handle_close with_loop remove_connection
close_test = refl

abbrev lost : System
lost = record losing {
  server = record losing.server { connections = []; requests = destroy conn ∷ []; removals = [] };
}

remove_test : remove 1 conn (with_removals [] losing) ≡ ok lost
unfolding remove remove_connection_in_loop erase same_key
remove_test = refl

losing-Reach : Reach quiet 1 start losing
losing-Reach =
    later
      (later (later begins (accepts pool_loop (λ e. absurd (omega (arith, e))) accept_test))
        (establishes 0 (record { conn = conn; tcp = made }) [] [] refl refl establish_test))
      (happens 7 0 (read_done eof 0) tt close_test)

lost-Reach : Reach quiet 1 start lost
lost-Reach = later losing-Reach (removes conn [] [] refl remove_test)

removal_succeeds_example :
    (s' : System) × (remove 1 conn (with_removals [] losing) ≡ ok s')
    × (s'.server.requests ≡ destroy conn ∷ [])
    × (entries_of conn.name s'.server.connections ≡ 0)
removal_succeeds_example =
    removal_succeeds quiet main_loop (49 ∷ []) (115 ∷ []) losing quiet-RespectsAll losing-Reach conn
      [] [] refl

map_is_accounted_example :
    (entries_of conn.name losing.server.connections ≤ 1)
    × (closes closed.calls ≤ 1)
    × (closes closed.calls + entries_of conn.name losing.server.connections
        ≡ removals_of conn.name losing.server.removals + 1)
map_is_accounted_example =
    map_is_accounted quiet main_loop (49 ∷ []) (115 ∷ []) losing quiet-RespectsAll losing-Reach 0
      (record { conn = conn; tcp = closed }) refl

posted-IsReady_example : IsReady lost.living (destroy conn)
posted-IsReady_example =
    posted-IsReady quiet main_loop (49 ∷ []) (115 ∷ []) lost quiet-RespectsAll lost-Reach
      (destroy conn) [] [] refl
