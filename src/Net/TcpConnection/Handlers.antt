-- ===== src/Net/TcpConnection/Handlers.antt =====
-- The operations of a connection. `thread` is the thread that makes the call.
use lib_net_toy.Net.TcpConnection.Types.{
  with_loop, disconnected, connecting, connected, disconnecting, Task, start_read_task,
  stop_read_task, shutdown_task, force_close_task, Read, connection_changed, message_arrived,
  write_completed, connection_closed, TcpConnection, Handlers, invoke, invoke_if_set, is_connected,
  is_open,
}
use lib_net_toy.Prelude.Int.{ℤ, size_of_int}
use lib_net_toy.Prelude.{
  max_size, length_error, leb, if◌then◌else◌, write_range, read_range, ℕ, true, false, List, [],
  ◌∷◌, ◌++◌, Result, ok, fault, null_pointer, assertion, ◌>>=◌, ◌>>◌, assert,
}
use lib_net_toy.Base.EventLoop.{assert_in_loop_thread, run_in_loop}
use lib_net_toy.Base.Buffer.{
  Buffer, begin_write, writable_bytes, readable_bytes, peek, has_written, ensure_writable_bytes,
  append, retrieve, retrieve_all_as_string,
}

-- `error_code`: none, end of file, or any other.
pub data ErrorCode : Type 0 where
  success eof other_error : ErrorCode

-- `async_read_some` into the free part of the input buffer.
unfoldable pub async_read : TcpConnection → TcpConnection
async_read c = record c {
  reads =
      c.reads
      ++ record { offset = begin_write c.input_buffer; capacity = writable_bytes c.input_buffer }
        ∷ [];
}

unfoldable pub begin_first_read : TcpConnection → TcpConnection
unfolding async_read
begin_first_read c = async_read c

module _ (h : Handlers) (thread : ℕ) where
  unfoldable pub handle_close : TcpConnection → Result TcpConnection
  handle_close c = with_loop c.loop (ok c) λ loop. do
    assert_in_loop_thread loop thread
    assert (is_open c)
    let c₁ : TcpConnection = record c { state = disconnected; reading = false }
    c₂ ← invoke h.connection_callback (connection_changed (is_connected c₁)) c₁
    invoke h.close_callback connection_closed c₂

  unfoldable pub handle_error : TcpConnection → Result TcpConnection
  handle_error c = handle_close c

-- `if(reading_)`: room for as much again, and the next read.
unfoldable pub read_on : TcpConnection → ℕ → Result TcpConnection
unfolding async_read
read_on c bytes_transferred = elim c.reading [
  | true ↦ do
    b ← ensure_writable_bytes c.input_buffer bytes_transferred
    ok (async_read (record c { input_buffer = b }))
  | false ↦ ok c
]

unfoldable pub start_read_in_loop : TcpConnection → TcpConnection
unfolding async_read
start_read_in_loop c = if c.reading then c else async_read (record c { reading = true })

unfoldable pub stop_read_in_loop : TcpConnection → TcpConnection
stop_read_in_loop c = if c.reading then record c { reading = false } else c

unfoldable pub shutdown_in_loop : ℕ → TcpConnection → Result TcpConnection
shutdown_in_loop thread c =
    with_loop c.loop (fault assertion)
      λ loop. do assert_in_loop_thread loop thread; ok (record c { write_shut = true })

-- A functor posted to the connection's loop.
unfoldable pub post_task : Task → TcpConnection → TcpConnection
post_task task c = record c { posted = c.posted ++ task ∷ [] }

module _ (h : Handlers) (thread : ℕ) where
  unfoldable pub read_handler : ErrorCode → ℕ → TcpConnection → Result TcpConnection
  read_handler success bytes_transferred c = do
    b ← has_written c.input_buffer bytes_transferred
    c₁ ← invoke_if_set h.message_callback message_arrived (record c { input_buffer = b })
    read_on c₁ bytes_transferred
  read_handler eof bytes_transferred c = handle_close h thread c
  read_handler other_error bytes_transferred c = do
    c₁ ← handle_error h thread c
    read_on c₁ bytes_transferred

  unfoldable pub write_handler : ErrorCode → ℕ → TcpConnection → Result TcpConnection
  write_handler success bytes_transferred c = do
    b ← retrieve c.output_buffer bytes_transferred
    invoke_if_set h.write_complete_callback write_completed (record c { output_buffer = b })
  write_handler eof bytes_transferred c = ok c
  write_handler other_error bytes_transferred c = ok c

  -- `forceCloseInLoop` dereferences `loop_` unchecked.
  unfoldable pub force_close_in_loop : TcpConnection → Result TcpConnection
  force_close_in_loop c = with_loop c.loop (fault null_pointer) λ loop. do
    assert_in_loop_thread loop thread
    if is_open c then handle_close h thread c else ok c

  -- A call of a posted functor.
  unfoldable pub exec : Task → TcpConnection → Result TcpConnection
  exec start_read_task c = ok (start_read_in_loop c)
  exec stop_read_task c = ok (stop_read_in_loop c)
  exec shutdown_task c = shutdown_in_loop thread c
  exec force_close_task c = force_close_in_loop c

  unfoldable pub start_read : TcpConnection → Result TcpConnection
  start_read c =
      with_loop c.loop (ok c) λ loop. run_in_loop exec post_task loop thread start_read_task c

  unfoldable pub stop_read : TcpConnection → Result TcpConnection
  stop_read c =
      with_loop c.loop (ok c) λ loop. run_in_loop exec post_task loop thread stop_read_task c

  -- Called when the server or the client has set the callbacks.
  unfoldable pub connect_established : TcpConnection → Result TcpConnection
  unfolding begin_first_read
  connect_established c = with_loop c.loop (ok c) λ loop. do
    assert_in_loop_thread loop thread
    assert (elim c.state [ connecting ↦ true | _ ↦ false ])
    let c₁ = begin_first_read (record c { state = connected })
    invoke h.connection_callback (connection_changed (is_connected c₁)) c₁

  -- The change of state of `connectDestroyed`.
  unfoldable pub destroy : TcpConnection → Result TcpConnection
  destroy c =
      let c₁ : TcpConnection = record c { state = disconnected } in
      invoke h.connection_callback (connection_changed (is_connected c₁)) c₁

  -- Called when the server or the client has let go of the connection.
  unfoldable pub connect_destroyed : TcpConnection → Result TcpConnection
  connect_destroyed c =
      with_loop c.loop (ok c)
        λ loop. do assert_in_loop_thread loop thread; if is_connected c then destroy c else ok c

  unfoldable pub shutdown : TcpConnection → Result TcpConnection
  shutdown c =
      if is_connected c
      then with_loop c.loop (ok c) (λ loop.
        run_in_loop exec post_task loop thread shutdown_task (record c { state = disconnecting }))
      else ok c

  -- `forceClose` sets the state first and then dereferences `loop_` unchecked.
  unfoldable pub force_close : TcpConnection → Result TcpConnection
  force_close c =
      if is_open c
      then with_loop c.loop (fault null_pointer) (λ loop.
        run_in_loop exec post_task loop thread force_close_task
          (record c { state = disconnecting }))
      else ok c

-- `send(const std::string&)`, which the other overloads call: the bytes join the output buffer,
-- and everything readable there is handed to the socket.
unfoldable pub send : List ℕ → TcpConnection → Result TcpConnection
send message c = do
  b ← append c.output_buffer message
  bytes ← read_range b.buffer (peek b) (readable_bytes b)
  ok (record c { output_buffer = b; sends = c.sends ++ bytes ∷ [] })

-- `send(const void*, int)`: a negative length is a size past the longest string, and throws.
unfoldable pub send_range : List ℕ → ℕ → ℤ → TcpConnection → Result TcpConnection
unfolding send
send_range block message len c = do
  bytes ←
      if leb (size_of_int len) max_size
      then read_range block message (size_of_int len)
      else fault length_error
  send bytes c

-- `send(Buffer*)` empties the buffer that it is given.
unfoldable pub send_buffer : Buffer → TcpConnection → Result (Buffer × TcpConnection)
send_buffer buf c = do
  (message, buf') ← retrieve_all_as_string buf
  c' ← send message c
  ok (buf', c')

-- asio fills the memory of the oldest read with `bytes` and reports it to `read_handler`.
unfoldable pub fill : Read → List ℕ → TcpConnection → Result TcpConnection
fill r bytes c = do
  filled ← write_range c.input_buffer.buffer r.offset bytes
  ok (record c { input_buffer = record c.input_buffer { buffer = filled } })
