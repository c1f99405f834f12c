-- ===== src/Net/TcpClient/Steps.antt =====
-- What can happen to a client whose `stop` is not called, in any order: the calls of its user, what
-- its loop does for its connector, and what happens to the connections that it made.
pub mod Connecting
pub mod Keeping
pub mod Current
pub mod Safety
pub mod Tests
use lib_net_toy.Prelude.{ℕ, ◌≡◌, Bool, true, List, [], ◌∷◌, Result, ok}
use lib_net_toy.Net.TcpClient.{
  TcpClient, new_client, enable_retry, connect, disconnect, connect_done, call_connection,
  run_posted,
}
use lib_net_toy.Net.Connector.{
  Connector, Functor, Timer, has, drop_socket, drop_timer, start_in_loop, exec_functor,
}
use lib_net_toy.Net.TcpConnection.Types.{Handlers}
use lib_net_toy.Net.TcpConnection.Lifecycle.{Event, established, destroyed, apply}
use lib_net_toy.Base.EventLoop.{EventLoop}

-- A client that was made, with the user's callbacks.
abbrev pub ready_client : EventLoop → List ℕ → Handlers → TcpClient
ready_client loop name callbacks = record (new_client loop name) { callbacks = callbacks }

-- The connect of a socket is over.
abbrev pub without_connect : ℕ → TcpClient → TcpClient
without_connect socket s = record s {
  connector = record s.connector { connects = drop_socket socket s.connector.connects };
}

abbrev pub without_timer : Timer → Connector → Connector
without_timer t c = record c { timers = drop_timer t.id c.timers }

module _ (owned : ℕ → Bool) where
  pub data Step (s : TcpClient) : TcpClient → Type 0 where
    connects : (t : ℕ) {s' : TcpClient} → connect owned t s ≡ ok s' → Step s s'
    retries : Step s (enable_retry s)
    disconnects : (t : ℕ) {s' : TcpClient} → disconnect owned t s ≡ ok s' → Step s s'
    connect_ends :
        (t socket : ℕ) (error : Bool) (peer : List ℕ) {s' : TcpClient}
        → has s.connector.connects socket ≡ true
        → connect_done owned t socket error peer (without_connect socket s) ≡ ok s'
        → Step s s'
    timer_fires :
        (t : ℕ) (timer : Timer) {c : Connector}
        → start_in_loop t (without_timer timer s.connector) ≡ ok c
        → Step s (record s { connector = c })
    functor_runs :
        (t : ℕ) (f : Functor) (rest : List Functor) {c : Connector}
        → s.connector.posted ≡ f ∷ rest
        → exec_functor owned t f (record s.connector { posted = rest }) ≡ ok c
        → Step s (record s { connector = c })
    happens :
        (t i : ℕ) (event : Event) {s' : TcpClient}
        → call_connection owned t (λ h. apply h t event) i s ≡ ok s'
        → Step s s'
    posted_runs : (t : ℕ) {s' : TcpClient} → run_posted owned t s ≡ ok s' → Step s s'

  pub data Reach (s : TcpClient) : TcpClient → Type 0 where
    begins : Reach s s
    later : {s' s'' : TcpClient} → Reach s s' → Step s' s'' → Reach s s''
