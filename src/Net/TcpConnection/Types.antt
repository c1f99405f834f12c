-- ===== src/Net/TcpConnection/Types.antt =====
-- The connection's state, what it asks of asio, and the callbacks.
use lib_net_toy.Prelude.{
  ℕ, suc, ◌*◌, ◌≡◌, refl, ap, ◌⊎◌, inl, inr, Bool, true, false, Option, none, some, List, [], ◌∷◌,
  ◌++◌, bad_function_call, Result, ok, fault, ◌>>=◌, assert,
}
use mathlib.Core.Option.{some-injective}
use mathlib.Core.Path.{ap, refl}
use Prim.Native.String.{String}
use lib_net_toy.Base.EventLoop.{EventLoop}
use lib_net_toy.Base.Buffer.{Buffer, k_initial_size, begin_write, writable_bytes, retrieve_all}
use lib_net_toy.Base.Buffer
use lib_net_toy.Prelude.Decimal.{decimal}

-- `StateE`
pub data State : Type 0 where
  disconnected connecting connected disconnecting : State

unfoldable pub state_to_string : State → String
state_to_string disconnected = "kDisconnected"
state_to_string connecting = "kConnecting"
state_to_string connected = "kConnected"
state_to_string disconnecting = "kDisconnecting"

-- The functors that the connection passes to `runInLoop`.
pub data Task : Type 0 where
  start_read_task stop_read_task shutdown_task force_close_task : Task

-- `async_read_some` into `capacity` bytes from `offset` on in the input buffer.
pub record Read : Type 0 where
  pub offset : ℕ
  pub capacity : ℕ

-- One call of a callback; the connection callback with what `connected()` said then.
pub data Call : Type 0 where
  connection_changed : Bool → Call
  message_arrived write_completed connection_closed : Call

-- How often the close callback was called.
abbrev pub closes : List Call → ℕ
closes [] = 0
closes (connection_closed ∷ cs) = suc (closes cs)
closes (_ ∷ cs) = closes cs

pub record TcpConnection : Type 0 where
  pub loop : Option EventLoop
  pub name : List ℕ
  pub state : State
  pub reading : Bool
  pub high_water_mark : ℕ
  pub input_buffer : Buffer
  pub output_buffer : Buffer
  pub reads : List Read
  pub sends : List (List ℕ)
  pub write_shut : Bool
  pub posted : List Task
  pub calls : List Call

-- The constructor.
unfoldable pub new_connection : Option EventLoop → List ℕ → Result TcpConnection
new_connection loop name = do
  input ← Buffer.init k_initial_size
  output ← Buffer.init k_initial_size
  ok (record {
    loop = loop;
    name = name;
    state = connecting;
    reading = true;
    high_water_mark = 64 * 1024 * 1024;
    input_buffer = input;
    output_buffer = output;
    reads = [];
    sends = [];
    write_shut = false;
    posted = [];
    calls = [];
  })

-- The destructor's assertion.
abbrev pub destroy_connection : TcpConnection → Result (Unit {0})
destroy_connection c = assert (elim c.state [ disconnected ↦ true | _ ↦ false ])

-- `endPoint2ipPort`, where `address` is the text of the address.
abbrev pub end_point_to_ip_port : List ℕ → ℕ → List ℕ
end_point_to_ip_port address port = address ++ (58 ∷ decimal port)

-- A `boost::function` that gets the connection, and may be empty.
abbrev pub Callback : Type 0
Callback = Option (TcpConnection → Result TcpConnection)

pub record Handlers : Type 0 where
  pub connection_callback : Callback
  pub message_callback : Callback
  pub write_complete_callback : Callback
  pub close_callback : Callback

abbrev pub set_connection_callback : Handlers → Callback → Handlers
set_connection_callback h cb = record h { connection_callback = cb }

abbrev pub set_message_callback : Handlers → Callback → Handlers
set_message_callback h cb = record h { message_callback = cb }

abbrev pub set_write_complete_callback : Handlers → Callback → Handlers
set_write_complete_callback h cb = record h { write_complete_callback = cb }

abbrev pub set_close_callback : Handlers → Callback → Handlers
set_close_callback h cb = record h { close_callback = cb }

-- The defaults of the server and the client.
abbrev pub default_connection_callback : Callback
default_connection_callback = some λ conn. ok conn

abbrev pub default_message_callback : Callback
default_message_callback =
    some λ conn. ok (record conn { input_buffer = retrieve_all conn.input_buffer })

-- A close callback that leaves all to the owner, whose part is run behind the call.
abbrev pub leave_close : Callback
leave_close = some λ conn. ok conn

-- A call of a callback that must be there: an empty one throws.
abbrev pub invoke : Callback → Call → TcpConnection → Result TcpConnection
invoke none call c = fault bad_function_call
invoke (some f) call c = f (record c { calls = c.calls ++ call ∷ [] })

-- `if (callback) callback(...)`
abbrev pub invoke_if_set : Callback → Call → TcpConnection → Result TcpConnection
invoke_if_set none call c = ok c
invoke_if_set (some f) call c = f (record c { calls = c.calls ++ call ∷ [] })

abbrev pub is_connected : TcpConnection → Bool
is_connected c = elim c.state [ connected ↦ true | _ ↦ false ]

abbrev pub is_disconnected : TcpConnection → Bool
is_disconnected c = elim c.state [ disconnected ↦ true | _ ↦ false ]

-- `state_ == kConnected || state_ == kDisconnecting`
abbrev pub is_open : TcpConnection → Bool
is_open c = elim c.state [ connected ↦ true | disconnecting ↦ true | _ ↦ false ]

-- `if (loop_)` with its two branches.
unfoldable pub with_loop {ℓ} : {A : Type ℓ} → Option EventLoop → A → (EventLoop → A) → A
with_loop none x f = x
with_loop (some loop) x f = f loop

pub with_loop-eq-ok {ℓ} :
    {A : Type ℓ} (l : Option EventLoop) (x : Result A) (f : EventLoop → Result A) {c : A}
    → with_loop l x f ≡ ok c
    → ((l ≡ none) × (x ≡ ok c)) ⊎ ((loop : EventLoop) × (l ≡ some loop) × (f loop ≡ ok c))
unfolding with_loop
with_loop-eq-ok none x f e = inl (refl, e)
with_loop-eq-ok (some loop) x f e = inr (loop, refl, e)

pub with_loop-some {ℓ} :
    {A : Type ℓ} (l : Option EventLoop) {loop : EventLoop} (x : A) (f : EventLoop → A)
    → l ≡ some loop
    → with_loop l x f ≡ f loop
unfolding with_loop
with_loop-some none x f e = cc
with_loop-some (some other) x f e = ap f (some-injective other _ e)
