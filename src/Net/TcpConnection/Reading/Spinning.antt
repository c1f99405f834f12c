-- ===== src/Net/TcpConnection/Reading/Spinning.antt =====
-- Reads into a full buffer.
use lib_net_toy.Net.TcpConnection.Reading.Stream.{fill_lem, receive, IsReading}
use lib_net_toy.Net.TcpConnection.Reading.{next_read}
use lib_net_toy.Base.Buffer.Room.{ensure_writable_bytes_zero, write_at_end_lem}
use lib_net_toy.Prelude.{
  zero, suc, ℕ, ◌≡◌, refl, ap, ◌∙◌, true, none, some, [], ◌∷◌, ◌++◌, arith, Result, ok, ◌>>=◌,
}
use lib_net_toy.Prelude.Size.{add_size}
use lib_net_toy.Net.TcpConnection.Types.{
  Call, message_arrived, TcpConnection, Handlers, Callback, invoke_if_set,
}
use lib_net_toy.Net.TcpConnection.Handlers.{async_read, read_on, read_handler}
use lib_net_toy.Base.Buffer.{Buffer, writable_bytes, has_written}
use lib_net_toy.Base.Buffer.IsValid.{IsValid, content}

-- A message callback that returns, and leaves the input buffer, the reads and the reading flag.
abbrev pub KeepsInput : Callback → Type 0
KeepsInput none = Unit {0}
KeepsInput (some f) =
    (c : TcpConnection)
    → (c' : TcpConnection) × (f c ≡ ok c')
      × (c'.input_buffer ≡ c.input_buffer)
      × (c'.reads ≡ c.reads)
      × (c'.reading ≡ c.reading)

invoke-KeepsInput :
    (cb : Callback) (call : Call) (c : TcpConnection)
    → KeepsInput cb
    → (c' : TcpConnection) × (invoke_if_set cb call c ≡ ok c')
      × (c'.input_buffer ≡ c.input_buffer)
      × (c'.reads ≡ c.reads)
      × (c'.reading ≡ c.reading)
invoke-KeepsInput none call c k = (c, refl, refl, refl, refl)
invoke-KeepsInput (some f) call c k = k (record c { calls = c.calls ++ call ∷ [] })

has_written_zero : (b : Buffer) → IsValid b → (b' : Buffer) × (has_written b 0 ≡ ok b') × (b' ≡ b)
unfolding has_written
has_written_zero b v =
    (record b { writer_index = add_size b.writer_index 0 }, ground arith, ground arith)

read_on_zero : (c : TcpConnection) → c.reading ≡ true → read_on c 0 ≡ ok (async_read c)
unfolding read_on async_read
read_on_zero c on = ground (arith, on, ensure_writable_bytes_zero c.input_buffer)

-- One such read.
spin_once :
    (h : Handlers) (thread : ℕ) (c : TcpConnection)
    → KeepsInput h.message_callback
    → IsReading c
    → (next_read c).capacity ≡ 0
    → (c' : TcpConnection) × (receive h thread [] c ≡ ok c')
      × (content c'.input_buffer ≡ content c.input_buffer)
      × ((next_read c').capacity ≡ 0)
      × IsReading c'
unfolding receive read_handler async_read
spin_once h thread c k v full =
    let c₀ : TcpConnection = record c { reads = [] } in
    let (b₁, e₁, v₁, k₁, s₁, f₁) = write_at_end_lem [] v.valid (omega arith) in
    let (b₂, e₂, same) = has_written_zero b₁ v₁ in
    let (c₃, e₃, i₃, r₃, o₃) =
      invoke-KeepsInput h.message_callback message_arrived (record c₀ { input_buffer = b₂ }) k in
    let b₃ = i₃ ∙ same in
    (
      async_read c₃,
      rw (v.under_way, fill_lem [] c₀ e₁, e₂, e₃) (read_on_zero c₃ (o₃ ∙ v.on)),
      ap content b₃ ∙ k₁,
      ap writable_bytes b₃ ∙ f₁ ∙ full,
      record { on = o₃ ∙ v.on; valid = rw b₃ v₁; under_way = rw r₃ refl },
    )

-- `n` completions, each of the read that is under way then, that bring nothing.
unfoldable pub spin : Handlers → ℕ → ℕ → TcpConnection → Result TcpConnection
spin h thread zero c = ok c
spin h thread (suc n) c = receive h thread [] c >>= spin h thread n

-- The flaw: with a message callback that takes nothing out and one read under way, into a full
-- buffer, the read brings nothing, makes no room and is started again, over and over: after any
-- number of completions the buffer has the same bytes and no room, and a read of no bytes is under
-- way.
pub full_read_spins :
    (h : Handlers) (thread n : ℕ) (c : TcpConnection)
    → KeepsInput h.message_callback
    → IsReading c
    → (next_read c).capacity ≡ 0
    → (c' : TcpConnection) × (spin h thread n c ≡ ok c')
      × (content c'.input_buffer ≡ content c.input_buffer)
      × ((next_read c').capacity ≡ 0)
      × IsReading c'
unfolding spin
full_read_spins h thread zero c k v full = (c, refl, refl, full, v)
full_read_spins h thread (suc n) c k v full =
    let (c₁, e₁, k₁, f₁, v₁) = spin_once h thread c k v full in
    let (c₂, e₂, k₂, f₂, v₂) = full_read_spins h thread n c₁ k v₁ f₁ in
    (c₂, rw e₁ e₂, k₂ ∙ k₁, f₂, v₂)
