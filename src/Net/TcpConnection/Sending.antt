-- ===== src/Net/TcpConnection/Sending.antt =====
-- The stream that a connection sends: what the socket is handed, and what becomes of it when a
-- send is completed in part, or when the next send does not wait for the last.
use lib_net_toy.Prelude.{
  length-drop, length-append, take_all, read_range, ℕ, ◌+◌, ◌≤◌, ◌<◌, ◌≡◌, refl, sym, ap, ap₂, ◌∙◌,
  none, some, List, [], ◌∷◌, ◌++◌, append-nil, append_assoc, arith, assertion, Result, ok, fault,
  ◌>>=◌, length, drop, drop_all, max_size,
}
use lib_net_toy.Base.Buffer.IsValid.{
  retrieve_too_much, readable_bytes_lem, read_front, length-retrieve, retrieve_lem, content,
  IsValid,
}
use lib_net_toy.Base.Buffer.{readable_bytes, Buffer}
use lib_net_toy.Net.TcpConnection.Types.{
  write_completed, invoke_if_set, TcpConnection, Call, Handlers, Callback,
}
use lib_net_toy.Base.Buffer.Append.{append_lem}
use lib_net_toy.Net.TcpConnection.Handlers.{success, send, write_handler}

-- A buffer as `send` finds it: valid, and with `n` bytes to go before the vector's limit.
abbrev pub IsReady : ℕ → Buffer → Type 0
IsReady n b = IsValid b × (length b.buffer + n ≤ max_size)

-- `send` hands over all that is readable after the append: the bytes still there, then the message.
pub send_lem :
    (message : List ℕ) (c : TcpConnection)
    → IsReady (length message) c.output_buffer
    → (b : Buffer) × (send message c
        ≡ ok (record c {
          output_buffer = b;
          sends = c.sends ++ (content c.output_buffer ++ message) ∷ [];
        }))
      × IsValid b
      × (content b ≡ content c.output_buffer ++ message)
      × (length b.buffer ≤ length c.output_buffer.buffer + length message)
unfolding send
send_lem message c (v, small) =
    let (b, e, v', k, l) = append_lem message v small in
    let whole : read_range b.buffer b.reader_index (readable_bytes b)
        ≡ ok (content c.output_buffer ++ message) =
      read_front (readable_bytes b) v' (omega (arith, readable_bytes_lem v'))
      ∙ ap ok
          (take_all (readable_bytes b) (content b) (omega (arith, readable_bytes_lem v')) ∙ k) in
    (b, rw (e, whole), v', k, l)

-- A write-complete callback that returns, and leaves the output buffer and the sends alone.
abbrev pub KeepsOutput : Callback → Type 0
KeepsOutput none = Unit {0}
KeepsOutput (some f) =
    (c : TcpConnection)
    → (c' : TcpConnection) × (f c ≡ ok c')
      × (c'.output_buffer ≡ c.output_buffer)
      × (c'.sends ≡ c.sends)

invoke-KeepsOutput :
    (cb : Callback) (call : Call) (c : TcpConnection)
    → KeepsOutput cb
    → (c' : TcpConnection) × (invoke_if_set cb call c ≡ ok c')
      × (c'.output_buffer ≡ c.output_buffer)
      × (c'.sends ≡ c.sends)
invoke-KeepsOutput none call c k = (c, refl, refl, refl)
invoke-KeepsOutput (some f) call c k = k (record c { calls = c.calls ++ call ∷ [] })

-- A completed write of `n` bytes takes them off the buffer and starts no further send.
pub write_handler_lem :
    (h : Handlers) (thread n : ℕ) (c : TcpConnection)
    → KeepsOutput h.write_complete_callback
    → IsValid c.output_buffer
    → n ≤ length (content c.output_buffer)
    → (c' : TcpConnection) × (write_handler h thread success n c ≡ ok c')
      × IsValid c'.output_buffer
      × (content c'.output_buffer ≡ drop n (content c.output_buffer))
      × (length c'.output_buffer.buffer ≡ length c.output_buffer.buffer)
      × (c'.sends ≡ c.sends)
unfolding write_handler
write_handler_lem h thread n c k v le =
    let (b, e, v', d) = retrieve_lem n v le in
    let (c', e', o, s) =
      invoke-KeepsOutput h.write_complete_callback write_completed (record c { output_buffer = b })
        k in
    (c', rw e e', rw o v', rw o d, rw o (length-retrieve c.output_buffer n e), s)

write_handler_too_much :
    (h : Handlers) (thread n : ℕ) (c : TcpConnection)
    → IsValid c.output_buffer
    → length (content c.output_buffer) < n
    → write_handler h thread success n c ≡ fault assertion
unfolding write_handler
write_handler_too_much h thread n c v lt = rw (retrieve_too_much n v lt)

-- Each message is sent and its write completed before the next is sent.
pub send_each : Handlers → ℕ → List (List ℕ) → TcpConnection → Result TcpConnection
send_each h thread [] c = ok c
send_each h thread (m ∷ ms) c = do
  c₁ ← send m c
  c₂ ← write_handler h thread success (length m) c₁
  send_each h thread ms c₂

abbrev pub total_length : List (List ℕ) → ℕ
total_length [] = 0
total_length (m ∷ ms) = length m + total_length ms

-- Sent one after the other, the socket is handed exactly the messages in their order, and nothing
-- is left in the buffer.
pub send_each_lem :
    (h : Handlers) (thread : ℕ) (ms : List (List ℕ)) (c : TcpConnection)
    → KeepsOutput h.write_complete_callback
    → IsReady (total_length ms) c.output_buffer
    → content c.output_buffer ≡ []
    → (c' : TcpConnection) × (send_each h thread ms c ≡ ok c')
      × (c'.sends ≡ c.sends ++ ms)
      × (content c'.output_buffer ≡ [])
unfolding send_each
send_each_lem h thread [] c k r e = (c, refl, sym (append-nil c.sends), e)
send_each_lem h thread (m ∷ ms) c k (v, small) e =
    let (b, e₁, v₁, k₁, l₁) = send_lem m c (v, omega arith) in
    let bytes : content b ≡ m = k₁ ∙ ap (λ xs. xs ++ m) e in
    let c₁ : TcpConnection = record c {
      output_buffer = b;
      sends = c.sends ++ (content c.output_buffer ++ m) ∷ [];
    } in
    let (c₂, e₂, v₂, k₂, l₂, s₂) =
      write_handler_lem h thread (length m) c₁ k v₁ (omega (arith, ap length bytes)) in
    let (c₃, e₃, s₃, k₃) =
      send_each_lem h thread ms c₂ k (v₂, omega arith)
        (k₂ ∙ ap (drop (length m)) bytes ∙ drop_all (length m) m (omega arith)) in
    (
      c₃,
      rw (e₁, e₂) e₃,
      s₃
          ∙ ap (λ xs. xs ++ ms) s₂
          ∙ append_assoc c.sends _ ms
          ∙ ap (λ xs. c.sends ++ (xs ++ m) ∷ ms) e,
      k₃,
    )

-- The flaw: of two sends in a row the second hands over the first message again.
pub send_twice_repeats :
    (m₁ m₂ : List ℕ) (c : TcpConnection)
    → IsReady (length m₁ + length m₂) c.output_buffer
    → content c.output_buffer ≡ []
    → (c' : TcpConnection) × ((send m₁ c >>= send m₂) ≡ ok c')
      × (c'.sends ≡ c.sends ++ m₁ ∷ (m₁ ++ m₂) ∷ [])
      × (content c'.output_buffer ≡ m₁ ++ m₂)
      × IsValid c'.output_buffer
send_twice_repeats m₁ m₂ c (v, small) e =
    let (b₁, e₁, v₁, k₁, l₁) = send_lem m₁ c (v, omega arith) in
    let c₁ : TcpConnection = record c {
      output_buffer = b₁;
      sends = c.sends ++ (content c.output_buffer ++ m₁) ∷ [];
    } in
    let (b₂, e₂, v₂, k₂, l₂) = send_lem m₂ c₁ (v₁, omega arith) in
    (
      record c₁ { output_buffer = b₂; sends = c₁.sends ++ (content b₁ ++ m₂) ∷ [] },
      rw e₁ e₂,
      append_assoc c.sends _ _
          ∙ ap₂ (λ xs ys. c.sends ++ xs ∷ ys ∷ []) (ap (λ xs. xs ++ m₁) e)
              (ap (λ xs. xs ++ m₂) (k₁ ∙ ap (λ xs. xs ++ m₁) e)),
      k₂ ∙ ap (λ xs. xs ++ m₂) (k₁ ∙ ap (λ xs. xs ++ m₁) e),
      v₂,
    )

-- The completions of the two sends then ask for more bytes than the buffer holds, and the assertion
-- in `retrieve` fails.
pub send_twice_faults :
    (h : Handlers) (thread : ℕ) (m₁ m₂ : List ℕ) (c : TcpConnection)
    → KeepsOutput h.write_complete_callback
    → IsReady (length m₁ + length m₂) c.output_buffer
    → content c.output_buffer ≡ []
    → 0 < length m₁
    → (send m₁ c
        >>= send m₂
        >>= write_handler h thread success (length m₁)
        >>= write_handler h thread success (length (m₁ ++ m₂)))
      ≡ fault assertion
send_twice_faults h thread m₁ m₂ c k r e pos =
    let (c₁, e₁, s₁, k₁, v₁) = send_twice_repeats m₁ m₂ c r e in
    let (c₂, e₂, v₂, k₂, l₂, s₂) =
      write_handler_lem h thread (length m₁) c₁ k v₁
        (omega (arith, ap length k₁, length-append m₁ m₂)) in
    rw (e₁, e₂)
      (write_handler_too_much h thread (length (m₁ ++ m₂)) c₂ v₂ (
        omega (
          arith,
          ap length k₂,
          ap length k₁,
          length-drop (length m₁) (content c₁.output_buffer),
          length-append m₁ m₂,
        )))

-- A write that took `n` bytes of the message leaves the rest in the buffer, and no send is started
-- for it: the rest waits for the next call of `send`.
pub partial_send_waits :
    (h : Handlers) (thread n : ℕ) (m : List ℕ) (c : TcpConnection)
    → KeepsOutput h.write_complete_callback
    → IsReady (length m) c.output_buffer
    → content c.output_buffer ≡ []
    → n ≤ length m
    → (c' : TcpConnection) × ((send m c >>= write_handler h thread success n) ≡ ok c')
      × (c'.sends ≡ c.sends ++ m ∷ [])
      × (content c'.output_buffer ≡ drop n m)
partial_send_waits h thread n m c k r e le =
    let (b, e₁, v₁, k₁, l₁) = send_lem m c r in
    let bytes : content b ≡ m = k₁ ∙ ap (λ xs. xs ++ m) e in
    let c₁ : TcpConnection = record c {
      output_buffer = b;
      sends = c.sends ++ (content c.output_buffer ++ m) ∷ [];
    } in
    let (c₂, e₂, v₂, k₂, l₂, s₂) =
      write_handler_lem h thread n c₁ k v₁ (omega (arith, ap length bytes)) in
    (c₂, rw e₁ e₂, s₂ ∙ ap (λ xs. c.sends ++ (xs ++ m) ∷ []) e, k₂ ∙ ap (drop n) bytes)
