-- ===== src/Net/Connector/Steps.antt =====
-- What can happen to a connector, and what no sequence of it can bring about.
use lib_net_toy.Net.Connector.{
  Functor, drop_timer, Timer, restart, drop_socket, start, has, stop_in_loop, stop, handle_connect,
  Connector, start_in_loop, retry, k_disconnected, k_connected, exec_functor, start_functor,
  stop_functor,
}
use lib_net_toy.Net.TcpConnection.Types.{with_loop}
use lib_net_toy.Prelude.{
  ℕ, ◌≡◌, refl, ◌∙◌, Bool, true, false, Option, none, some, List, [], ◌∷◌, arith, Result, ok,
}

-- The callback returns, and leaves the connector alone, as `TcpClient::newConnection` does.
abbrev pub LeavesConnector : Option (ℕ → Connector → Result Connector) → Type 0
LeavesConnector none = Unit {0}
LeavesConnector (some f) = (s : ℕ) (c : Connector) → f s c ≡ ok c

module _ (owned : ℕ → Bool) (cb : Option (ℕ → Connector → Result Connector)) where
  -- What happens without a call of `start` or `restart`: a connect ends, the timer fires, a posted
  -- `stopInLoop` runs, `stop` is called.
  pub data Event : Connector → Connector → Type 0 where
    connect_ends :
        (s : ℕ) (error : Bool) (c : Connector) {c' : Connector}
        → has c.connects s ≡ true
        → handle_connect owned cb s error (record c { connects = drop_socket s c.connects }) ≡ ok c'
        → Event c c'
    timer_fires :
        (thread : ℕ) (t : Timer) (c : Connector) {c' : Connector}
        → start_in_loop thread (record c { timers = drop_timer t.id c.timers }) ≡ ok c'
        → Event c c'
    functor_runs :
        (thread : ℕ) (f : Functor) (rest : List Functor) (c : Connector) {c' : Connector}
        → c.posted ≡ f ∷ rest
        → exec_functor owned thread f (record c { posted = rest }) ≡ ok c'
        → Event c c'
    stops : (c : Connector) {c' : Connector} → stop owned c ≡ c' → Event c c'

  -- The calls that ask for a connection.
  pub data Request : Connector → Connector → Type 0 where
    starts :
        (thread : ℕ) (c : Connector) {c' : Connector} → start owned thread c ≡ ok c' → Request c c'
    restarts :
        (thread : ℕ) (c : Connector) {c' : Connector}
        → restart owned thread c ≡ ok c'
        → Request c c'

  pub data Events : Connector → Connector → Type 0 where
    quiet : {c : Connector} → Events c c
    then_event : {c c' c'' : Connector} → Events c c' → Event c' c'' → Events c c''

  pub data Reach (c : Connector) : Connector → Type 0 where
    here : Reach c c
    after_event : {c' c'' : Connector} → Reach c c' → Event c' c'' → Reach c c''
    after_request : {c' c'' : Connector} → Reach c c' → Request c' c'' → Reach c c''

-- Nothing new was begun: no socket made, no timer set, and no connection is wanted.
abbrev BeginsNothing : Connector → Connector → Type 0
BeginsNothing c c' = c.connect ≡ false → (c'.connect ≡ false) × (c'.next_id ≡ c.next_id)

start_in_loop-BeginsNothing :
    (thread : ℕ) (c c' : Connector) → start_in_loop thread c ≡ ok c' → BeginsNothing c c'
unfolding start_in_loop
start_in_loop-BeginsNothing thread c c' e off = ground arith

retry-BeginsNothing :
    (owned : ℕ → Bool) (holders : List ℕ) (c c' : Connector)
    → retry owned holders c ≡ ok c'
    → BeginsNothing c c'
unfolding retry
retry-BeginsNothing owned holders c c' e off = ground arith

handle_connect-BeginsNothing :
    (owned : ℕ → Bool) (cb : Option (ℕ → Connector → Result Connector)) (s : ℕ) (error : Bool)
    (c c' : Connector)
    → LeavesConnector cb
    → handle_connect owned cb s error c ≡ ok c'
    → BeginsNothing c c'
unfolding handle_connect
handle_connect-BeginsNothing owned cb s true c c' l e off =
    retry-BeginsNothing owned (s ∷ []) (record c { state = k_disconnected }) c' e off
handle_connect-BeginsNothing owned none s false c c' l e off = ground arith
handle_connect-BeginsNothing owned (some f) s false c c' l e off =
    ground (arith, l s (record c { state = k_connected }))

stop_in_loop-BeginsNothing :
    (owned : ℕ → Bool) (thread : ℕ) (c c' : Connector)
    → stop_in_loop owned thread c ≡ ok c'
    → BeginsNothing c c'
unfolding stop_in_loop with_loop
stop_in_loop-BeginsNothing owned thread c c' e off =
    ground (arith, retry-BeginsNothing owned [] (record c { state = k_disconnected }) c')

stop-connect :
    (owned : ℕ → Bool) (c : Connector)
    → ((stop owned c).connect ≡ false) × ((stop owned c).next_id ≡ c.next_id)
unfolding stop with_loop
stop-connect owned c = ground arith

event-BeginsNothing :
    {owned : ℕ → Bool} {cb : Option (ℕ → Connector → Result Connector)} {c c' : Connector}
    → LeavesConnector cb
    → Event owned cb c c'
    → BeginsNothing c c'
unfolding exec_functor
event-BeginsNothing {owned} {cb} l (connect_ends s error c h e) =
    handle_connect-BeginsNothing owned cb s error (record c { connects = drop_socket s c.connects })
      _ l e
event-BeginsNothing l (timer_fires thread t c e) =
    start_in_loop-BeginsNothing thread (record c { timers = drop_timer t.id c.timers }) _ e
event-BeginsNothing l (functor_runs thread start_functor rest c h e) =
    start_in_loop-BeginsNothing thread (record c { posted = rest }) _ e
event-BeginsNothing {owned} l (functor_runs thread stop_functor rest c h e) =
    stop_in_loop-BeginsNothing owned thread (record c { posted = rest }) _ e
event-BeginsNothing {owned} l (stops c e) = λ off. rw (← e) (stop-connect owned c)

events-BeginsNothing :
    {owned : ℕ → Bool} {cb : Option (ℕ → Connector → Result Connector)} {c c' : Connector}
    → LeavesConnector cb
    → Events owned cb c c'
    → BeginsNothing c c'
events-BeginsNothing l quiet off = (off, refl)
events-BeginsNothing l (then_event es e) off =
    let (off', same) = events-BeginsNothing l es off in
    let (off'', same') = event-BeginsNothing l e off' in (off'', same' ∙ same)

-- After `stop`, and until `start` or `restart` is called, no attempt is made and no timer is set,
-- whatever ends, fires or runs.
pub stopped_begins_nothing :
    (owned : ℕ → Bool) (cb : Option (ℕ → Connector → Result Connector)) (c c' : Connector)
    → LeavesConnector cb
    → Events owned cb (stop owned c) c'
    → (c'.connect ≡ false) × (c'.next_id ≡ c.next_id)
stopped_begins_nothing owned cb c c' l es =
    let (off, same) = stop-connect owned c in
    let (off', same') = events-BeginsNothing l es off in (off', same' ∙ same)
