-- ===== src/Net/TcpClient/Cycle.antt =====
-- A client that connects again: the peer closes, the new connect succeeds, and the posted
-- `connectDestroyed` of the old connection runs.
use lib_net_toy.Net.TcpClient.Closing.{call_connection-quiet, IsServing, restarted, peer_closes}
use lib_net_toy.Net.TcpClient.{
  Made, TcpClient, call_connection, connect_done, new_connection, run_posted,
}
use lib_net_toy.Net.Connector.{Connector, connect_socket, handle_connect, k_connected}
use lib_net_toy.Net.TcpClient.Reconnecting.{new_connection_lem}
use lib_net_toy.Net.TcpConnection.Closing.{Watches, connect_destroyed_disconnected}
use lib_net_toy.Net.TcpConnection.Types.{
  leave_close, connection_closed, connection_changed, Handlers, TcpConnection, disconnected,
  connected,
}
use lib_net_toy.Net.TcpConnection.Handlers.{read_handler, eof, connect_destroyed}
use lib_net_toy.Base.EventLoopThreadPool.{at}
use lib_net_toy.Prelude.{
  drop, ℕ, ◌+◌, ◌-◌, ◌^◌, ◌<◌, ◌≡◌, refl, sym, ◌∙◌, Bool, true, false, none, some, List, [], ◌∷◌,
  ◌++◌, arith, Result, ok, ◌>>=◌, length, get_elem?, set, get_elem?-set_self, set-get_elem?,
  length-set, get_elem?-append, get_elem?-append_last, length-append,
}

-- Nothing waits to be destroyed, and the client means to connect again.
pub record IsRetrying (s : TcpClient) : Type 0 where
  pub retries : s.retry ≡ true
  pub connects : s.connect ≡ true
  pub none_posted : s.destroys_posted ≡ []
  pub on_connection : Watches s.callbacks.connection_callback

module _ (owned : ℕ → Bool) (thread : ℕ) where
  -- The connect that is under way for the longest time succeeds.
  abbrev pub connect_succeeds : List ℕ → TcpClient → Result TcpClient
  connect_succeeds peer s = do
    socket ← at s.connector.connects 0
    connect_done owned thread socket false peer
        (record s { connector = record s.connector { connects = drop 1 s.connector.connects } })

  -- The peer closes the `i`th connection, a connect that is under way then succeeds, to `peer`, and
  -- the posted functor runs.
  abbrev pub lose_and_connect : ℕ → List ℕ → TcpClient → Result TcpClient
  lose_and_connect i peer s = do
    s₁ ← call_connection owned thread (λ h. read_handler h thread eof 0) i s
    s₂ ← connect_succeeds peer s₁
    run_posted owned thread s₂

  append-at : (xs : List ℕ) (y : ℕ) → (x : ℕ) × (at (xs ++ y ∷ []) 0 ≡ ok x)
  append-at [] y = (y, refl)
  append-at (x ∷ xs) y = (x, refl)

  -- `restart` has begun a connect, so that one is under way.
  connect_succeeds_lem :
      (peer : List ℕ) (s : TcpClient) (c : Connector)
      → s.connector ≡ restarted c
      → connect_succeeds peer s
        ≡ new_connection owned thread peer (record s {
          connector = record (restarted c) {
            state = k_connected;
            connects = drop 1 (restarted c).connects;
          };
        })
  unfolding connect_done handle_connect connect_socket
  connect_succeeds_lem peer s c e =
      let (socket, there) = append-at c.connects c.next_id in rw e (rw there refl)

  -- A call that changes nothing.
  call_connection-same :
      (f : Handlers → TcpConnection → Result TcpConnection) (i : ℕ) (m : Made) (s : TcpClient)
      → get_elem? s.made i ≡ some m
      → f m.handlers m.conn ≡ ok m.conn
      → call_connection owned thread f i s ≡ ok s
  call_connection-same f i m s e k =
      call_connection-quiet owned thread f i m s m.conn e k refl
      ∙ rw (set-get_elem? s.made i m e) refl

  -- An open connection that its peer closes is replaced by a new one in the same loop: the user hears
  -- DOWN of the old one, then UP of the new one, and nothing more of the old one.
  pub lose_and_connect_lem :
      (i : ℕ) (peer : List ℕ) (m : Made) (s : TcpClient)
      → IsServing thread i m s
      → IsRetrying s
      → s.next_conn_id < 2 ^ 31 - 1
      → (c : TcpConnection) × (m' : Made) × (lose_and_connect i peer s
          ≡ ok (record s {
            made = set s.made i (record m { conn = c }) ++ m' ∷ [];
            connection = some (length s.made);
            next_conn_id = s.next_conn_id + 1;
            connector = record (restarted s.connector) {
              state = k_connected;
              connects = drop 1 (restarted s.connector).connects;
            };
            destroys_posted = [];
          }))
        × (c.state ≡ disconnected)
        × (c.calls ≡ m.conn.calls ++ connection_changed false ∷ connection_closed ∷ [])
        × (m'.conn.state ≡ connected)
        × (m'.conn.loop ≡ some s.loop)
        × (m'.conn.calls ≡ connection_changed true ∷ [])
        × (m'.handlers.connection_callback ≡ s.callbacks.connection_callback)
        × (m'.handlers.close_callback ≡ leave_close)
  unfolding run_posted
  lose_and_connect_lem i peer m s v w small =
      let (c, e, st, l, k) = peer_closes owned thread i 0 m s v in
      let s₂ : TcpClient = record s {
        made = set s.made i (record m { conn = c });
        connection = none;
        destroys_posted = i ∷ [];
        connector = record (restarted s.connector) {
          state = k_connected;
          connects = drop 1 (restarted s.connector).connects;
        };
      } in
      let lost : call_connection owned thread (λ h. read_handler h thread eof 0) i s
          ≡ ok (record s₂ { connector = restarted s.connector }) =
        e ∙ rw (w.retries, w.connects, w.none_posted) refl in
      let (m', e', st', l', k', h, d) =
        new_connection_lem owned thread peer s₂ v.own_thread small w.on_connection in
      let old : Made = record m { conn = c } in
      let ended : call_connection owned thread (λ h. connect_destroyed h thread) i
            (record s₂ {
              made = s₂.made ++ m' ∷ [];
              connection = some (length s₂.made);
              next_conn_id = s.next_conn_id + 1;
              destroys_posted = [];
            })
          ≡ _ =
        call_connection-same (λ h. connect_destroyed h thread) i old _
          (get_elem?-append s₂.made (m' ∷ []) i old (get_elem?-set_self s.made i m old v.its_place))
          (connect_destroyed_disconnected m.handlers thread s.loop v.own_thread v.on_connection
            v.on_close c l st) in
      (
        c,
        m',
        rw
            (
              lost,
              connect_succeeds_lem peer (record s₂ { connector = restarted s.connector })
                  s.connector refl,
              e',
            )
            (ended ∙ rw (length-set s.made i old) refl),
        st,
        k,
        st',
        l',
        k',
        h,
        d,
      )

  -- What a turn needs holds again after it.
  lose_and_connect-IsServing :
      (peer : List ℕ) (m : Made) (s : TcpClient) (i : ℕ)
      → IsServing thread i m s
      → IsRetrying s
      → s.next_conn_id < 2 ^ 31 - 1
      → (m' : Made) × (s' : TcpClient) × (lose_and_connect i peer s ≡ ok s')
        × IsServing thread (length s.made) m' s'
        × IsRetrying s'
        × (s'.next_conn_id ≡ s.next_conn_id + 1)
        × (length s'.made ≡ length s.made + 1)
  unfolding connect_socket
  lose_and_connect-IsServing peer m s i v w small =
      let (c, m', e, st, k, st', l', k', h, d) = lose_and_connect_lem i peer m s v w small in
      let old : List Made = set s.made i (record m { conn = c }) in
      let many : length old ≡ length s.made = length-set s.made i (record m { conn = c }) in
      (
        m',
        _,
        e,
        record {
          own_thread = v.own_thread;
          current = refl;
          its_place = get_elem?-append_last old m' (length s.made) (sym many);
          its_loop = l';
          is_up = ground (arith, st');
          on_connection = rw h w.on_connection;
          on_close = rw d (λ x. (x, refl, refl, refl, refl));
          connector_loop = v.connector_loop;
        },
        record {
          retries = w.retries;
          connects = w.connects;
          none_posted = refl;
          on_connection = w.on_connection;
        },
        refl,
        omega (arith, length-append old (m' ∷ []), many),
      )

  -- A turn that starts from whatever connection the client has.
  abbrev pub turn : List ℕ → TcpClient → Result TcpClient
  turn peer s = elim s.connection [ none ↦ ok s | some i ↦ lose_and_connect i peer s ]

  abbrev pub turns : List (List ℕ) → TcpClient → Result TcpClient
  turns [] s = ok s
  turns (x ∷ xs) s = turn x s >>= turns xs

  turn_lem :
      (peer : List ℕ) (s : TcpClient) (i : ℕ)
      → s.connection ≡ some i
      → turn peer s ≡ lose_and_connect i peer s
  turn_lem peer s i e = rw e refl

  -- A client with an open connection that is to retry, and whose numbers of connections do not
  -- overflow: however often its peers close its connections, the client has a connect of its own
  -- under way each time, and if these succeed it ends with an open connection, and has made one for
  -- each loss.
  pub stays_connected :
      (xs : List (List ℕ)) (i : ℕ) (m : Made) (s : TcpClient)
      → IsServing thread i m s
      → IsRetrying s
      → s.next_conn_id + length xs < 2 ^ 31
      → (j : ℕ) × (m' : Made) × (s' : TcpClient) × (turns xs s ≡ ok s')
        × IsServing thread j m' s'
        × IsRetrying s'
        × (length s'.made ≡ length s.made + length xs)
  stays_connected [] i m s v w small = (i, m, s, refl, v, w, omega arith)
  stays_connected (x ∷ xs) i m s v w small =
      let (m₁, s₁, e₁, v₁, w₁, n₁, k₁) = lose_and_connect-IsServing x m s i v w (omega arith) in
      let (j, m₂, s₂, e₂, v₂, w₂, k₂) =
        stays_connected xs (length s.made) m₁ s₁ v₁ w₁ (omega (arith, n₁)) in
      (j, m₂, s₂, rw (turn_lem x s i v.current, e₁) e₂, v₂, w₂, omega (arith, k₁, k₂))
