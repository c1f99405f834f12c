-- ===== src/Net/TcpConnection/Tests.antt =====
-- A connection with small buffers, and the theorems applied to it.
use lib_net_toy.Prelude.{
  length, length_error, ℕ, ◌-◌, ◌*◌, ◌≤◌, ◌≡◌, refl, sym, ap, true, false, none, some, List, [],
  ◌∷◌, ◌++◌, arith, assertion, ok, fault, ◌>>=◌, resize, resized, ok-injective, drop_all, ◌∙◌,
}
use lib_net_toy.Net.TcpConnection.Lifecycle.{
  rank, downs, ups, apply, run, established, destroyed, read_done, reading_started,
}
use lib_net_toy.Prelude.Int.{negsuc}
use lib_net_toy.Net.TcpConnection.Handlers.{
  send_range, post_task, handle_close, exec, start_read, async_read, connect_destroyed, stop_read,
  write_handler, begin_first_read, read_handler, connect_established, send, force_close, eof,
  success,
}
use lib_net_toy.Base.Buffer
use lib_net_toy.Net.TcpConnection.Closing.{life, force_close_then_error, Watches}
use lib_net_toy.Net.TcpConnection.Reading.{restart_overlaps, next_read}
use lib_net_toy.Net.TcpConnection.Reading.Stream.{
  Eats, IsReading, receive_stream, receive_stream_lem, concat, pending,
}
use lib_net_toy.Net.TcpConnection.Reading.Spinning.{KeepsInput, spin, full_read_spins}
use lib_net_toy.Base.Buffer.IsValid.{retrieve_all_lem, content, IsValid}
use lib_net_toy.Base.Buffer.{retrieve_all, Buffer}
use lib_net_toy.Net.TcpConnection.Types.{
  default_message_callback, closes, destroy_connection, with_loop, Handlers, TcpConnection,
  new_connection, connecting, connected, disconnected, connection_closed, connection_changed,
  start_read_task,
}
use lib_net_toy.Net.TcpConnection.Sending.{
  send_each_lem, partial_send_waits, send_twice_faults, send_twice_repeats, send_each, KeepsOutput,
}
use lib_net_toy.Net.TcpConnection.Lifecycle.Later.{stays, RespectsAll, Respects}
use lib_net_toy.Net.TcpConnection.Lifecycle.Order.{disconnected_forever, callbacks_once}
use lib_net_toy.Base.EventLoop.{EventLoop}

abbrev loop : EventLoop
loop = record { this = 1; thread_id = 7 }

-- Nothing readable, and `free` bytes to write into.
abbrev small_buffer : Buffer
small_buffer = record {
  buffer = 0 ∷ 0 ∷ 0 ∷ 0 ∷ 0 ∷ 0 ∷ 0 ∷ 0 ∷ 0 ∷ 0 ∷ 0 ∷ 0 ∷ 0 ∷ 0 ∷ 0 ∷ 0 ∷ [];
  reader_index = 8;
  writer_index = 8;
}

small_buffer-IsValid : IsValid small_buffer
small_buffer-IsValid = ground arith

-- A connection as its constructor leaves it, up to the size of the buffers.
abbrev fresh : TcpConnection
fresh = record {
  loop = some loop;
  name = 99 ∷ [];
  state = connecting;
  reading = true;
  high_water_mark = 64 * 1024 * 1024;
  input_buffer = small_buffer;
  output_buffer = small_buffer;
  reads = [];
  sends = [];
  write_shut = false;
  posted = [];
  calls = [];
}

-- The same connection once it is established: one read is under way.
abbrev established_connection : TcpConnection
established_connection = record fresh {
  state = connected;
  reads = record { offset = 8; capacity = 8 } ∷ [];
  calls = connection_changed true ∷ [];
}

-- Callbacks that return what they get.
abbrev quiet : Handlers
quiet = record {
  connection_callback = some (λ c. ok c);
  message_callback = some (λ c. ok c);
  write_complete_callback = none;
  close_callback = some (λ c. ok c);
}

quiet-KeepsOutput : KeepsOutput quiet.write_complete_callback
quiet-KeepsOutput = tt

quiet-KeepsInput : KeepsInput quiet.message_callback
quiet-KeepsInput c = (c, refl, refl, refl, refl)

quiet-Watches : Watches quiet.connection_callback
quiet-Watches c = (c, refl, refl, refl, refl)

quiet-Respects : Respects true quiet.connection_callback
quiet-Respects c c' e =
    stays (ap (λ (d : TcpConnection). d.state) (sym (ok-injective e)))
      (ap (λ (d : TcpConnection). d.calls) (sym (ok-injective e)))

quiet-RespectsAll : RespectsAll true quiet
quiet-RespectsAll = record {
  on_connection = quiet-Respects;
  on_message = quiet-Respects;
  on_write_complete = tt;
  on_close = quiet-Respects;
}

established_test : connect_established quiet 7 fresh ≡ ok established_connection
unfolding connect_established begin_first_read async_read with_loop
established_test = refl

send_each_lem_example :
    (c : TcpConnection) × (send_each quiet 7 ((1 ∷ 2 ∷ []) ∷ (3 ∷ []) ∷ []) established_connection
      ≡ ok c)
    × (c.sends ≡ (1 ∷ 2 ∷ []) ∷ (3 ∷ []) ∷ [])
    × (content c.output_buffer ≡ [])
send_each_lem_example =
    send_each_lem quiet 7 ((1 ∷ 2 ∷ []) ∷ (3 ∷ []) ∷ []) established_connection quiet-KeepsOutput
      (small_buffer-IsValid, ground arith) refl

send_twice_repeats_example :
    (c : TcpConnection) × ((send (1 ∷ 2 ∷ []) established_connection >>= send (3 ∷ [])) ≡ ok c)
    × (c.sends ≡ (1 ∷ 2 ∷ []) ∷ (1 ∷ 2 ∷ 3 ∷ []) ∷ [])
    × (content c.output_buffer ≡ 1 ∷ 2 ∷ 3 ∷ [])
    × IsValid c.output_buffer
send_twice_repeats_example =
    send_twice_repeats (1 ∷ 2 ∷ []) (3 ∷ []) established_connection
      (small_buffer-IsValid, ground arith) refl

send_twice_faults_example :
    (send (1 ∷ 2 ∷ []) established_connection
      >>= send (3 ∷ [])
      >>= write_handler quiet 7 success 2
      >>= write_handler quiet 7 success 3)
    ≡ fault assertion
send_twice_faults_example =
    send_twice_faults quiet 7 (1 ∷ 2 ∷ []) (3 ∷ []) established_connection quiet-KeepsOutput
      (small_buffer-IsValid, ground arith) refl (ground arith)

partial_send_waits_example :
    (c : TcpConnection) × ((send (1 ∷ 2 ∷ 3 ∷ []) established_connection
        >>= write_handler quiet 7 success 1)
      ≡ ok c)
    × (c.sends ≡ (1 ∷ 2 ∷ 3 ∷ []) ∷ [])
    × (content c.output_buffer ≡ 2 ∷ 3 ∷ [])
partial_send_waits_example =
    partial_send_waits quiet 7 1 (1 ∷ 2 ∷ 3 ∷ []) established_connection quiet-KeepsOutput
      (small_buffer-IsValid, ground arith) refl (ground arith)

-- The default callback takes all that waits, and all other callbacks are as before.
abbrev by_default : Handlers
by_default = record quiet { message_callback = default_message_callback }

by_default-Eats : Eats length by_default.message_callback
unfolding retrieve_all
by_default-Eats c v = (
  record c { input_buffer = retrieve_all c.input_buffer },
  refl,
  (retrieve_all_lem v).0,
  (retrieve_all_lem v).1 ∙ sym (drop_all _ (content c.input_buffer) (omega arith)),
  ground arith,
  refl,
  refl,
)

established-IsReading : IsReading established_connection
established-IsReading = record { on = refl; valid = small_buffer-IsValid; under_way = refl }

receive_stream_lem_example :
    (chunks : List (List ℕ)) × (rest : List ℕ) × (c : TcpConnection) × (receive_stream by_default 7
        (2 ∷ 9 ∷ [])
        (1 ∷ 2 ∷ 3 ∷ 4 ∷ 5 ∷ [])
        established_connection
      ≡ ok (chunks, rest, c))
    × (concat chunks ++ rest ≡ 1 ∷ 2 ∷ 3 ∷ 4 ∷ 5 ∷ [])
    × (content c.input_buffer ≡ pending length [] chunks)
    × IsReading c
receive_stream_lem_example =
    receive_stream_lem by_default 7 length (2 ∷ 9 ∷ []) (1 ∷ 2 ∷ 3 ∷ 4 ∷ 5 ∷ [])
      established_connection by_default-Eats established-IsReading (ground arith)

restart_overlaps_example :
    (c : TcpConnection) × ((stop_read quiet 7 established_connection >>= start_read quiet 7) ≡ ok c)
    × (c.reads ≡ next_read c ∷ next_read c ∷ [])
    × (c.reading ≡ true)
restart_overlaps_example = restart_overlaps quiet 7 loop established_connection refl refl refl refl

-- The input buffer is full of bytes that the user leaves there.
abbrev full_connection : TcpConnection
full_connection = record established_connection {
  input_buffer = record small_buffer { writer_index = 16 };
  reads = record { offset = 16; capacity = 0 } ∷ [];
}

full-IsReading : IsReading full_connection
full-IsReading = record { on = refl; valid = ground arith; under_way = refl }

full_read_spins_example :
    (c : TcpConnection) × (spin quiet 7 3 full_connection ≡ ok c)
    × (content c.input_buffer ≡ 0 ∷ 0 ∷ 0 ∷ 0 ∷ 0 ∷ 0 ∷ 0 ∷ 0 ∷ [])
    × ((next_read c).capacity ≡ 0)
    × IsReading c
full_read_spins_example =
    full_read_spins quiet 7 3 full_connection quiet-KeepsInput full-IsReading refl

life_example :
    (c : TcpConnection) × ((connect_established quiet 7 fresh
        >>= read_handler quiet 7 eof 0
        >>= connect_destroyed quiet 7)
      ≡ ok c)
    × (c.state ≡ disconnected)
    × (destroy_connection c ≡ ok tt)
    × (c.calls ≡ connection_changed true ∷ connection_changed false ∷ connection_closed ∷ [])
life_example = life quiet 7 loop refl quiet-Watches quiet-Watches fresh 0 refl refl

force_close_then_error_example :
    (force_close quiet 7 established_connection >>= read_handler quiet 7 eof 0) ≡ fault assertion
force_close_then_error_example =
    force_close_then_error quiet 7 loop refl quiet-Watches quiet-Watches eof established_connection
      0 (λ e. cc) refl refl

-- A connection as the constructor makes it, with buffers of 4096 bytes.
abbrev made : TcpConnection
made = record fresh {
  input_buffer = record { buffer = resized [] 4104; reader_index = 8; writer_index = 8 };
  output_buffer = record { buffer = resized [] 4104; reader_index = 8; writer_index = 8 };
}

made_test : new_connection (some loop) (99 ∷ []) ≡ ok made
unfolding new_connection lib_net_toy.Base.Buffer.init resize resized
made_test = refl

-- That connection established, closed by its peer and let go of.
abbrev closed : TcpConnection
closed = record made {
  state = disconnected;
  reading = false;
  reads = record { offset = 8; capacity = 4096 } ∷ [];
  calls = connection_changed true ∷ connection_changed false ∷ connection_closed ∷ [];
}

closed_test :
    run quiet ((7, established) ∷ (7, read_done eof 0) ∷ (7, destroyed) ∷ []) made ≡ ok closed
unfolding run apply connect_established begin_first_read async_read with_loop read_handler
    handle_close connect_destroyed resized
closed_test = refl

callbacks_once_example :
    (ups closed.calls ≤ 1)
    × (downs closed.calls ≤ 1)
    × (closes closed.calls ≤ 1)
    × (downs closed.calls ≤ rank closed.state - 2)
    × (closes closed.calls ≤ rank closed.state - 2)
callbacks_once_example =
    callbacks_once quiet (some loop) (99 ∷ [])
      ((7, established) ∷ (7, read_done eof 0) ∷ (7, destroyed) ∷ []) made closed quiet-RespectsAll
      made_test closed_test

-- A functor posted to it afterwards.
abbrev late : TcpConnection
late = record closed { posted = start_read_task ∷ [] }

late_test : run quiet ((7, destroyed) ∷ (8, reading_started) ∷ []) closed ≡ ok late
unfolding run apply connect_destroyed start_read exec with_loop post_task
late_test = refl

disconnected_forever_example :
    (late.state ≡ disconnected) × (closes late.calls ≡ closes closed.calls)
disconnected_forever_example =
    disconnected_forever quiet ((7, destroyed) ∷ (8, reading_started) ∷ []) closed late
      quiet-RespectsAll late_test refl

-- `send(const void*, int)` with a negative length.
send_range_test :
    send_range (1 ∷ 2 ∷ 3 ∷ []) 0 (negsuc 0) established_connection ≡ fault length_error
unfolding send_range
send_range_test = refl
