-- ===== src/Net/TcpConnection/Lifecycle/Later.antt =====
-- What the code makes of a connection's state and its history of callbacks.
use lib_net_toy.Net.TcpConnection.Lifecycle.{
  connected, connecting, State, disconnecting, is_connected,
}
use lib_net_toy.Net.TcpConnection.Handlers.{begin_first_read, async_read, handle_close, read_on}
use lib_net_toy.Base.EventLoop.{assert_in_loop_thread}
use lib_net_toy.Net.TcpConnection.Types.{
  with_loop-eq-ok, disconnected, Call, connection_changed, message_arrived, write_completed,
  connection_closed, TcpConnection, Handlers, Callback, invoke, invoke_if_set, is_open,
}
use lib_net_toy.Base.Buffer.{ensure_writable_bytes}
use lib_net_toy.Prelude.{
  ℕ, ◌≡◌, refl, ◌⊎◌, inl, inr, Bool, true, false, none, some, [], ◌∷◌, ◌++◌, arith, Bool-cases, ok,
  assert, >>=-eq-ok,
}

abbrev pub logged : Call → TcpConnection → TcpConnection
logged call c = record c { calls = c.calls ++ call ∷ [] }

-- A callback that is neither the connection's nor the close callback.
abbrev pub IsOther : Call → Type 0
IsOther (connection_changed up) = ⊥
IsOther message_arrived = Unit {0}
IsOther write_completed = Unit {0}
IsOther connection_closed = ⊥

-- What the code can do to a connection's state and callbacks, `connectEstablished` included where
-- `rises` is true. A close is one step: DOWN, what the user's callback does then, the close callback,
-- and what that one does.
pub data Follows (rises : Bool) : TcpConnection → TcpConnection → Type 0 where
  stays : {c c' : TcpConnection} → c'.state ≡ c.state → c'.calls ≡ c.calls → Follows rises c c'
  after : {a b c : TcpConnection} → Follows rises a b → Follows rises b c → Follows rises a c
  reports : {c : TcpConnection} (call : Call) → IsOther call → Follows rises c (logged call c)
  establishes :
      {c : TcpConnection}
      → rises ≡ true
      → c.state ≡ connecting
      → Follows rises c
          (logged (connection_changed true) (begin_first_read (record c { state = connected })))
  shuts :
      {c c₂ c' : TcpConnection}
      → is_open c ≡ true
      → Follows rises
          (logged (connection_changed false) (record c { state = disconnected; reading = false }))
          c₂
      → Follows rises (logged connection_closed c₂) c'
      → Follows rises c c'
  destroys :
      {c : TcpConnection}
      → is_connected c ≡ true
      → Follows rises c (logged (connection_changed false) (record c { state = disconnected }))
  disconnects :
      {c : TcpConnection} → is_open c ≡ true → Follows rises c (record c { state = disconnecting })

-- A callback that keeps to this: whatever it calls, it does what the code does.
abbrev pub Respects : Bool → Callback → Type 0
Respects rises none = Unit {0}
Respects rises (some f) = (c c' : TcpConnection) → f c ≡ ok c' → Follows rises c c'

pub record RespectsAll (rises : Bool) (h : Handlers) : Type 0 where
  pub on_connection : Respects rises h.connection_callback
  pub on_message : Respects rises h.message_callback
  pub on_write_complete : Respects rises h.write_complete_callback
  pub on_close : Respects rises h.close_callback

module _ {rises : Bool} where
  pub Follows-refl : (c : TcpConnection) → Follows rises c c
  Follows-refl c = stays refl refl

  pub invoke-Follows :
      (cb : Callback) (call : Call) (c c' : TcpConnection)
      → Respects rises cb
      → invoke cb call c ≡ ok c'
      → Follows rises (logged call c) c'
  invoke-Follows none call c c' r e = cc
  invoke-Follows (some f) call c c' r e = r (logged call c) c' e

  pub invoke_if_set-Follows :
      (cb : Callback) (call : Call) (c c' : TcpConnection)
      → Respects rises cb
      → IsOther call
      → invoke_if_set cb call c ≡ ok c'
      → Follows rises c c'
  invoke_if_set-Follows none call c c' r o e = stays (ground arith) (ground arith)
  invoke_if_set-Follows (some f) call c c' r o e = after (reports call o) (r (logged call c) c' e)

  pub read_on-Follows : (c c' : TcpConnection) (n : ℕ) → read_on c n ≡ ok c' → Follows rises c c'
  unfolding read_on async_read
  read_on-Follows c c' n e = elim (Bool-cases c.reading) [
    | inl on ↦
        let (b, _, e') = >>=-eq-ok (ensure_writable_bytes c.input_buffer n) _ (rw on at e) in
        stays (ground arith) (ground arith)
    | inr off ↦ stays (ground arith) (ground arith)
  ]

-- Where nothing rises, all is allowed that is where it may.
Follows-weaken : {c c' : TcpConnection} → Follows false c c' → Follows true c c'
unfolding begin_first_read async_read
Follows-weaken (stays s e) = stays s e
Follows-weaken (after f g) = after (Follows-weaken f) (Follows-weaken g)
Follows-weaken (reports call o) = reports call o
Follows-weaken (establishes r s) = cc
Follows-weaken (shuts o f g) = shuts o (Follows-weaken f) (Follows-weaken g)
Follows-weaken (destroys o) = destroys o
Follows-weaken (disconnects o) = disconnects o

Respects-weaken : (cb : Callback) → Respects false cb → Respects true cb
Respects-weaken none r = tt
Respects-weaken (some f) r = λ c c' e. Follows-weaken (r c c' e)

pub RespectsAll-weaken : (h : Handlers) → RespectsAll false h → RespectsAll true h
RespectsAll-weaken h r = record {
  on_connection = Respects-weaken h.connection_callback r.on_connection;
  on_message = Respects-weaken h.message_callback r.on_message;
  on_write_complete = Respects-weaken h.write_complete_callback r.on_write_complete;
  on_close = Respects-weaken h.close_callback r.on_close;
}

-- What a close has done when it returns.
abbrev pub Closes : Handlers → TcpConnection → TcpConnection → Type 0
Closes h c c' =
    ((c.loop ≡ none) × (c' ≡ c))
    ⊎ ((c₂ : TcpConnection) × (is_open c ≡ true)
        × (invoke h.connection_callback (connection_changed false)
              (record c { state = disconnected; reading = false })
            ≡ ok c₂)
        × (invoke h.close_callback connection_closed c₂ ≡ ok c'))

pub handle_close-Closes :
    (h : Handlers) (thread : ℕ) (c c' : TcpConnection)
    → handle_close h thread c ≡ ok c'
    → Closes h c c'
unfolding handle_close
handle_close-Closes h thread c c' e = elim (with_loop-eq-ok c.loop _ _ e) [
  | inl (n, e') ↦ inl (n, ground arith)
  | inr (loop, l, e') ↦
      let (_, _, e₁) = >>=-eq-ok (assert_in_loop_thread loop thread) _ e' in
      let (_, o, e₂) = >>=-eq-ok (assert (is_open c)) _ e₁ in
      let (c₂, e₃, e₄) =
        >>=-eq-ok
          (invoke h.connection_callback (connection_changed false)
            (record c { state = disconnected; reading = false }))
          _ e₂ in
      inr (c₂, ground arith, e₃, e₄)
]

pub is_connecting : (s : State) → elim s [ connecting ↦ true | _ ↦ false ] ≡ true → s ≡ connecting
is_connecting connecting e = refl
is_connecting disconnected e = cc
is_connecting connected e = cc
is_connecting disconnecting e = cc

pub is_connected-eq : (s : State) → elim s [ connected ↦ true | _ ↦ false ] ≡ true → s ≡ connected
is_connected-eq connected e = refl
is_connected-eq disconnected e = cc
is_connected-eq connecting e = cc
is_connected-eq disconnecting e = cc
