-- ===== src/Net/TcpConnection/Reading.antt =====
-- The bytes that a connection receives: where a read may write, and what reaches the user.
pub mod Stream
pub mod Spinning
use lib_net_toy.Base.Buffer.Room.{ensure_writable_bytes_lem}
use lib_net_toy.Prelude.{
  ℕ, ◌+◌, ◌≤◌, ◌≡◌, refl, ap, true, some, [], ◌∷◌, ◌++◌, arith, max_size, ok, ◌>>=◌, length,
}
use lib_net_toy.Net.TcpConnection.Types.{Read, TcpConnection, Handlers, with_loop}
use lib_net_toy.Net.TcpConnection.Handlers.{
  async_read, read_on, start_read_in_loop, stop_read_in_loop, exec, start_read, stop_read,
}
use lib_net_toy.Base.EventLoop.{EventLoop, is_in_loop_thread-true}
use lib_net_toy.Base.Buffer.{writable_bytes, begin_write}
use lib_net_toy.Base.Buffer.IsValid.{IsValid, content, readable_bytes_lem}

-- The read that `async_read_some` would start now: all of the free part of the input buffer.
abbrev pub next_read : TcpConnection → Read
next_read c = record {
  offset = begin_write c.input_buffer;
  capacity = writable_bytes c.input_buffer;
}

-- While reading goes on, room is made for as many bytes as came, and the next read is started on
-- exactly the free part of the buffer: it can write neither over a readable byte nor past the end.
pub read_on_lem :
    (n : ℕ) (c : TcpConnection)
    → c.reading ≡ true
    → IsValid c.input_buffer
    → length c.input_buffer.buffer + n ≤ max_size
    → (c' : TcpConnection) × (read_on c n ≡ ok c')
      × IsValid c'.input_buffer
      × (content c'.input_buffer ≡ content c.input_buffer)
      × (c'.reads ≡ c.reads ++ next_read c' ∷ [])
      × (n ≤ (next_read c').capacity)
      × ((next_read c').offset + (next_read c').capacity ≡ length c'.input_buffer.buffer)
      × (length c'.input_buffer.buffer ≤ length c.input_buffer.buffer + n)
      × (c'.reading ≡ true)
unfolding read_on async_read
read_on_lem n c on v small =
    let (b, e, r) = ensure_writable_bytes_lem n v small in
    (
      async_read (record c { input_buffer = b }),
      ground (arith, on, e),
      r.valid,
      r.same,
      refl,
      r.room,
      omega (arith, readable_bytes_lem r.valid),
      r.bounded,
      on,
    )

-- The flaw: a stop and a start of reading while a read is under way leaves two reads that write to
-- the same place of the buffer.
pub restart_overlaps :
    (h : Handlers) (thread : ℕ) (loop : EventLoop) (c : TcpConnection)
    → c.loop ≡ some loop
    → loop.thread_id ≡ thread
    → c.reading ≡ true
    → c.reads ≡ next_read c ∷ []
    → (c' : TcpConnection) × ((stop_read h thread c >>= start_read h thread) ≡ ok c')
      × (c'.reads ≡ next_read c' ∷ next_read c' ∷ [])
      × (c'.reading ≡ true)
unfolding stop_read start_read exec stop_read_in_loop start_read_in_loop async_read with_loop
restart_overlaps h thread loop c l t on one = (
  record c { reading = true; reads = c.reads ++ next_read c ∷ [] },
  ground (arith, is_in_loop_thread-true loop thread t),
  rw one refl,
  refl,
)
