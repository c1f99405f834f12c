-- ===== src/Net/TcpConnection/Reading/Stream.antt =====
-- The reads that a connection starts, completed one after the other: what reaches the user.
use lib_net_toy.Net.TcpConnection.Reading.{next_read, read_on_lem}
use lib_net_toy.Base.Buffer.Room.{write_at_end_lem}
use lib_net_toy.Base.EventLoopThreadPool.{at}
use lib_net_toy.Prelude.{
  sym, take-append-drop, length-drop, length-take, >>=-eq-ok, ok-injective, ℕ, ◌+◌, ◌≤◌, min, ◌≡◌,
  refl, ap, ap₂, ◌∙◌, true, none, some, List, [], ◌∷◌, ◌++◌, append_assoc, arith, max_size,
  write_range, Result, ok, ◌>>=◌, length, take, drop,
}
use lib_net_toy.Net.TcpConnection.Types.{
  Read, Call, message_arrived, TcpConnection, Handlers, Callback, invoke_if_set,
}
use lib_net_toy.Net.TcpConnection.Handlers.{success, read_handler, fill}
use lib_net_toy.Base.Buffer.{Buffer, write_at_end}
use lib_net_toy.Base.Buffer.Append.{length-has_written, length-write_at_end}
use lib_net_toy.Base.Buffer.IsValid.{IsValid, content, has_written_lem}

-- A message callback that returns, and takes the first `eats` of the readable bytes.
abbrev pub Eats : (List ℕ → ℕ) → Callback → Type 0
Eats eats none = (xs : List ℕ) → eats xs ≡ 0
Eats eats (some f) =
    (c : TcpConnection)
    → IsValid c.input_buffer
    → (c' : TcpConnection) × (f c ≡ ok c')
      × IsValid c'.input_buffer
      × (content c'.input_buffer ≡ drop (eats (content c.input_buffer)) (content c.input_buffer))
      × (length c'.input_buffer.buffer ≤ length c.input_buffer.buffer)
      × (c'.reads ≡ c.reads)
      × (c'.reading ≡ c.reading)

invoke-Eats :
    (eats : List ℕ → ℕ) (cb : Callback) (call : Call) (c : TcpConnection)
    → Eats eats cb
    → IsValid c.input_buffer
    → (c' : TcpConnection) × (invoke_if_set cb call c ≡ ok c')
      × IsValid c'.input_buffer
      × (content c'.input_buffer ≡ drop (eats (content c.input_buffer)) (content c.input_buffer))
      × (length c'.input_buffer.buffer ≤ length c.input_buffer.buffer)
      × (c'.reads ≡ c.reads)
      × (c'.reading ≡ c.reading)
invoke-Eats eats none call c k v = (
  c,
  refl,
  v,
  ap (λ n. drop n (content c.input_buffer)) (sym (k (content c.input_buffer))),
  omega arith,
  refl,
  refl,
)
invoke-Eats eats (some f) call c k v = k (record c { calls = c.calls ++ call ∷ [] }) v

-- One read is under way, on exactly the free part of the buffer.
pub record IsReading (c : TcpConnection) : Type 0 where
  pub on : c.reading ≡ true
  pub valid : IsValid c.input_buffer
  pub under_way : c.reads ≡ next_read c ∷ []

-- asio completes the oldest of the reads under way with `bytes`: they are written where that read
-- said.
unfoldable pub receive : Handlers → ℕ → List ℕ → TcpConnection → Result TcpConnection
receive h thread bytes c = do
  r ← at c.reads 0
  filled ← fill r bytes (record c { reads = drop 1 c.reads })
  read_handler h thread success (length bytes) filled

-- What asio writes is a write behind the readable bytes.
pub fill_lem :
    (bytes : List ℕ) (c : TcpConnection) {b : Buffer}
    → write_at_end c.input_buffer bytes ≡ ok b
    → fill (next_read c) bytes c ≡ ok (record c { input_buffer = b })
unfolding fill write_at_end
fill_lem bytes c e =
    let (filled, e₁, e₂) =
      >>=-eq-ok (write_range c.input_buffer.buffer c.input_buffer.writer_index bytes) _ e in
    rw e₁ (ap (λ b. ok (record c { input_buffer = b })) (ok-injective e₂))

-- The bytes of a completed read join the readable bytes behind those that were there, the callback
-- takes its bytes from the front, and the next read is under way.
receive_lem :
    (h : Handlers) (thread : ℕ) (eats : List ℕ → ℕ) (bytes : List ℕ) (c : TcpConnection)
    → Eats eats h.message_callback
    → IsReading c
    → length c.input_buffer.buffer + length bytes ≤ max_size
    → length bytes ≤ (next_read c).capacity
    → (c' : TcpConnection) × (receive h thread bytes c ≡ ok c')
      × IsReading c'
      × (content c'.input_buffer
          ≡ drop (eats (content c.input_buffer ++ bytes)) (content c.input_buffer ++ bytes))
      × (length c'.input_buffer.buffer ≤ length c.input_buffer.buffer + length bytes)
unfolding receive read_handler
receive_lem h thread eats bytes c k v small fits =
    let c₀ : TcpConnection = record c { reads = [] } in
    let (b₁, e₁, v₁, c₁, s₁, f₁) = write_at_end_lem bytes v.valid fits in
    let (b₂, e₂, v₂, c₂) = has_written_lem {b = b₁} (length bytes) v₁ (omega (arith, f₁)) in
    let (c₃, e₃, v₃, k₃, l₃, r₃, o₃) =
      invoke-Eats eats h.message_callback message_arrived (record c₀ { input_buffer = b₂ }) k v₂ in
    let size : length b₂.buffer ≡ length c.input_buffer.buffer =
      length-has_written b₁ (length bytes) e₂ ∙ length-write_at_end c.input_buffer bytes e₁ in
    let (c₄, e₄, v₄, k₄, r₄, n₄, p₄, l₄, o₄) =
      read_on_lem (length bytes) c₃ (o₃ ∙ v.on) v₃ (omega (arith, size, l₃)) in
    let joined : content b₂ ≡ content c.input_buffer ++ bytes = c₂ ∙ ap₂ ◌++◌ c₁ s₁ in
    (
      c₄,
      rw (v.under_way, fill_lem bytes c₀ e₁, e₂, e₃) e₄,
      record { on = o₄; valid = v₄; under_way = r₄ ∙ ap (λ xs. xs ++ next_read c₄ ∷ []) r₃ },
      k₄ ∙ k₃ ∙ ap (λ xs. drop (eats xs) xs) joined,
      omega (arith, size, l₃, l₄),
    )

-- Reads completed one after the other: each takes from the stream as many bytes as asio likes, and
-- no more than the read has room for. What each brought, and what is left of the stream.
unfoldable pub receive_stream :
    Handlers → ℕ → List ℕ → List ℕ → TcpConnection → Result (List (List ℕ) × List ℕ × TcpConnection)
receive_stream h thread [] stream c = ok ([], stream, c)
receive_stream h thread (n ∷ sizes) stream c = do
  r ← at c.reads 0
  let chunk = take (min n r.capacity) stream
  c₁ ← receive h thread chunk c
  (chunks, rest, c₂) ← receive_stream h thread sizes (drop (min n r.capacity) stream) c₁
  ok (chunk ∷ chunks, rest, c₂)

abbrev pub concat : List (List ℕ) → List ℕ
concat [] = []
concat (xs ∷ xss) = xs ++ concat xss

-- The bytes that wait when each chunk has come and the user has taken `eats` of what waited then.
abbrev pub pending : (List ℕ → ℕ) → List ℕ → List (List ℕ) → List ℕ
pending eats xs [] = xs
pending eats xs (chunk ∷ chunks) = pending eats (drop (eats (xs ++ chunk)) (xs ++ chunk)) chunks

receive_stream-step :
    (h : Handlers) (thread n : ℕ) (sizes stream : List ℕ) (r : Read) (c c₁ c₂ : TcpConnection)
    (chunks : List (List ℕ)) (rest : List ℕ)
    → at c.reads 0 ≡ ok r
    → receive h thread (take (min n r.capacity) stream) c ≡ ok c₁
    → receive_stream h thread sizes (drop (min n r.capacity) stream) c₁ ≡ ok (chunks, rest, c₂)
    → receive_stream h thread (n ∷ sizes) stream c
      ≡ ok (take (min n r.capacity) stream ∷ chunks, rest, c₂)
unfolding receive_stream
receive_stream-step h thread n sizes stream r c c₁ c₂ chunks rest e₀ e₁ e₂ = rw (e₀, e₁, e₂) refl

concat-cut :
    (size : ℕ) (stream : List ℕ) (chunks : List (List ℕ)) (rest : List ℕ)
    → concat chunks ++ rest ≡ drop size stream
    → (take size stream ++ concat chunks) ++ rest ≡ stream
concat-cut size stream chunks rest e =
    append_assoc (take size stream) (concat chunks) rest
    ∙ ap (λ xs. take size stream ++ xs) e
    ∙ take-append-drop size stream

-- A connection with a valid buffer and one read under way, on exactly the free part of the buffer,
-- and a message callback that takes any number of bytes from the front of what waits; the buffer and
-- the stream together are within the limit of a vector. However the stream is cut into reads, every
-- completed read goes where the code let it write, the chunks are the stream with none lost,
-- repeated or moved, and what waits is what came before and the chunks less what the callback took.
-- One read is then under way again, on exactly the free part of the buffer.
pub receive_stream_lem :
    (h : Handlers) (thread : ℕ) (eats : List ℕ → ℕ) (sizes stream : List ℕ) (c : TcpConnection)
    → Eats eats h.message_callback
    → IsReading c
    → length c.input_buffer.buffer + length stream ≤ max_size
    → (chunks : List (List ℕ)) × (rest : List ℕ) × (c' : TcpConnection) × (receive_stream h thread
          sizes stream c
        ≡ ok (chunks, rest, c'))
      × (concat chunks ++ rest ≡ stream)
      × (content c'.input_buffer ≡ pending eats (content c.input_buffer) chunks)
      × IsReading c'
unfolding receive_stream
receive_stream_lem h thread eats [] stream c k v small = ([], stream, c, refl, refl, refl, v)
receive_stream_lem h thread eats (n ∷ sizes) stream c k v small =
    let size : ℕ = min n (next_read c).capacity in
    let chunk = take size stream in
    let cut = length-take size stream in
    let left = length-drop size stream in
    let (c₁, e₁, v₁, k₁, l₁) =
      receive_lem h thread eats chunk c k v (omega (arith, cut)) (omega (arith, cut)) in
    let (chunks, rest, c₂, e₂, s₂, k₂, v₂) =
      receive_stream_lem h thread eats sizes (drop size stream) c₁ k v₁
        (omega (arith, cut, left, l₁)) in
    (
      chunk ∷ chunks,
      rest,
      c₂,
      receive_stream-step h thread n sizes stream (next_read c) c c₁ c₂ chunks rest
          (ap (λ xs. at xs 0) v.under_way) e₁ e₂,
      concat-cut size stream chunks rest s₂,
      k₂ ∙ ap (λ xs. pending eats xs chunks) k₁,
      v₂,
    )
