-- ===== src/Net/TcpClient.antt =====
-- src/net/TcpClient.h and TcpClient.cpp: a connector, and the connection that it has made. The
-- connections made so far are kept in `made`, and a pointer to one is its place there. The
-- connector's callback and a connection's close callback are the last thing that their callers do,
-- so `newConnection` and `removeConnection` are run behind those calls. The user's callbacks act on
-- their connection. `peer` is the text of a socket's remote endpoint.
pub mod Names
pub mod Closing
pub mod Reconnecting
pub mod Cycle
pub mod Disconnecting
pub mod Steps
pub mod Tests
use lib_net_toy.Net.TcpConnection.Types.{
  leave_close, closes, Call, connection_closed, Handlers, Callback, TcpConnection,
  default_connection_callback, default_message_callback,
}
use lib_net_toy.Net.Connector
use lib_net_toy.Net.Connector.{Connector, new_connector, handle_connect}
use lib_net_toy.Net.TcpConnection.Types
use lib_net_toy.Base.EventLoopThreadPool.{at}
use lib_net_toy.Prelude.Decimal.{decimal}
use lib_net_toy.Prelude.{
  ℕ, zero, suc, ◌+◌, ◌-◌, ◌*◌, ◌/◌, ◌%◌, ◌^◌, ◌≤◌, ◌<◌, min, ◌≡◌, refl, sym, ap, ap₂, ◌∙◌, ◌≢◌, ◌↔◌,
  ◌⊎◌, inl, inr, Bool, true, false, ◌&&◌, ◌||◌, not, Option, none, some, List, [], ◌∷◌, ◌++◌, map,
  reverse, append-nil, append_assoc, arith, dec_lt, ℕ_discrete, ltb, leb, ◌==◌, if◌then◌else◌,
  Bool-cases, Option-cases, Fault, assertion, out_of_range, length_error, null_pointer, dangling,
  bad_function_call, Result, ok, fault, ◌>>=◌, ◌>>◌, assert, Result-cases, length, take, drop,
  get_elem?, set, get_elem?-set_self, set-get_elem?, set-set, length-set, get_elem?-append,
  get_elem?-append_last, signed_overflow,
}
use lib_net_toy.Net.TcpConnection.Handlers.{
  connect_established, connect_destroyed, shutdown, force_close,
}
use lib_net_toy.Base.EventLoop.{EventLoop, assert_in_loop_thread}

-- A connection, with the callbacks that were set when it was made.
pub record Made : Type 0 where
  pub conn : TcpConnection
  pub handlers : Handlers

pub record TcpClient : Type 0 where
  pub loop : EventLoop
  pub connector : Connector
  pub name : List ℕ
  pub callbacks : Handlers
  pub retry : Bool
  pub connect : Bool
  pub next_conn_id : ℕ
  pub connection : Option ℕ
  pub made : List Made
  pub destroys_posted : List ℕ

-- The connector's callback, which leaves all to `new_connection`.
abbrev pub leave_connected : Option (ℕ → Connector → Result Connector)
leave_connected = some λ s c. ok c

-- The constructor.
abbrev pub new_client : EventLoop → List ℕ → TcpClient
new_client loop name = record {
  loop = loop;
  connector = new_connector (some loop);
  name = name;
  callbacks = record {
    connection_callback = default_connection_callback;
    message_callback = default_message_callback;
    write_complete_callback = none;
    close_callback = none;
  };
  retry = false;
  connect = true;
  next_conn_id = 1;
  connection = none;
  made = [];
  destroys_posted = [];
}

abbrev pub enable_retry : TcpClient → TcpClient
enable_retry s = record s { retry = true }

abbrev pub set_connection_callback : TcpClient → Callback → TcpClient
set_connection_callback s cb = record s {
  callbacks = record s.callbacks { connection_callback = cb };
}

abbrev pub set_message_callback : TcpClient → Callback → TcpClient
set_message_callback s cb = record s { callbacks = record s.callbacks { message_callback = cb } }

abbrev pub set_write_complete_callback : TcpClient → Callback → TcpClient
set_write_complete_callback s cb = record s {
  callbacks = record s.callbacks { write_complete_callback = cb };
}

-- `snprintf(buf, 32, ":%s#%d", ...)` keeps 31 characters.
abbrev pub conn_name : List ℕ → List ℕ → ℕ → List ℕ
conn_name name peer id = name ++ take 31 (58 ∷ (peer ++ (35 ∷ decimal id)))

module _ (owned : ℕ → Bool) (thread : ℕ) where
  unfoldable pub connect : TcpClient → Result TcpClient
  connect s = do
    let s₁ : TcpClient = record s { connect = true }
    c ← Connector.start owned thread s₁.connector
    ok (record s₁ { connector = c })

  unfoldable pub stop : TcpClient → TcpClient
  stop s = record s { connect = false; connector = Connector.stop owned s.connector }

  unfoldable pub remove_connection : ℕ → TcpClient → Result TcpClient
  remove_connection i s = do
    assert_in_loop_thread s.loop thread
    m ← at s.made i
    assert (elim m.conn.loop [ none ↦ false | some l ↦ s.loop.this == l.this ])
    assert (elim s.connection [ none ↦ false | some j ↦ j == i ])
    let s₁ : TcpClient = record s {
      connection = none;
      destroys_posted = s.destroys_posted ++ i ∷ [];
    }
    if s₁.retry && s₁.connect
        then Connector.restart owned thread s₁.connector >>= (λ c. ok (record s₁ { connector = c }))
        else ok s₁

  -- A call of the `i`th connection, and of `removeConnection` if it has called its close callback.
  unfoldable pub call_connection :
      (Handlers → TcpConnection → Result TcpConnection) → ℕ → TcpClient → Result TcpClient
  call_connection f i s = do
    m ← at s.made i
    conn ← f m.handlers m.conn
    let s₁ : TcpClient = record s { made = set s.made i (record m { conn = conn }) }
    if ltb (closes m.conn.calls) (closes conn.calls) then remove_connection i s₁ else ok s₁

  unfoldable pub new_connection : List ℕ → TcpClient → Result TcpClient
  new_connection peer s = do
    assert_in_loop_thread s.loop thread
    let name = conn_name s.name peer s.next_conn_id
    s₁ ←
        if ltb s.next_conn_id (2 ^ 31 - 1)
        then ok (record s { next_conn_id = s.next_conn_id + 1 })
        else fault signed_overflow
    let handlers : Handlers = record s₁.callbacks { close_callback = leave_close }
    conn ← Types.new_connection (some s₁.loop) name
    let i = length s₁.made
    call_connection (λ h. connect_established h thread) i
        (record s₁ {
          connection = some i;
          made = s₁.made ++ record { conn = conn; handlers = handlers } ∷ [];
        })

  -- A connect has ended: `Connector::handleConnect`, and on success the callback.
  unfoldable pub connect_done : ℕ → Bool → List ℕ → TcpClient → Result TcpClient
  connect_done socket error peer s = do
    c ← handle_connect owned leave_connected socket error s.connector
    let s₁ : TcpClient = record s { connector = c }
    if error then ok s₁ else new_connection peer s₁

  -- The posted `connectDestroyed` that has waited longest.
  unfoldable pub run_posted : TcpClient → Result TcpClient
  run_posted s = elim s.destroys_posted [
    | [] ↦ ok s
    | i ∷ rest ↦
        call_connection (λ h. connect_destroyed h thread) i (record s { destroys_posted = rest })
  ]

  unfoldable pub disconnect : TcpClient → Result TcpClient
  disconnect s =
      let s₁ : TcpClient = record s { connect = false } in
      elim s.connection [ none ↦ ok s₁ | some i ↦ call_connection (λ h. shutdown h thread) i s₁ ]

  -- The destructor, where `unique` says whether only the client holds the connection. The close
  -- callback that it sets is the one that the connection has.
  unfoldable pub destroy_client : Bool → TcpClient → Result TcpClient
  destroy_client unique s = elim s.connection [
    | none ↦ ok (record s { connector = Connector.stop owned s.connector })
    | some i ↦ do
      m ← at s.made i
      assert (elim m.conn.loop [ none ↦ false | some l ↦ s.loop.this == l.this ])
      if unique then call_connection (λ h. force_close h thread) i s else ok s
  ]
