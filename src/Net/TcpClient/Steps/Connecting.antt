-- ===== src/Net/TcpClient/Steps/Connecting.antt =====
-- The connector of such a client: one connect is under way exactly while it is connecting, and it is
-- connected while the client has a connection.
use lib_net_toy.Prelude.{
  ◌≤◌, inl, inr, Bool-cases, ok-injective, >>=-eq-ok, ℕ, ◌+◌, ◌≡◌, Bool, true, Option, none, some,
  List, [], ◌∷◌, arith, length, length-append, All, All-append, ok,
}
use lib_net_toy.Net.Connector.{
  Connector, States, k_disconnected, k_connecting, k_connected, Functor, start_functor,
  stop_functor, has, drop_socket, start_in_loop, connect_socket, retry, schedule, restart, start,
  post_functor, k_init_retry_delay_ms, exec_functor,
}
use lib_net_toy.Net.TcpConnection.Types.{with_loop, with_loop-eq-ok}
use lib_net_toy.Base.EventLoop.{is_in_loop_thread, assert_in_loop_thread}

-- How many connects are under way.
abbrev pub under_way : States → ℕ
under_way k_connecting = 1
under_way _ = 0

pub under_way_le : (s : States) → under_way s ≤ 1
under_way_le k_disconnected = omega arith
under_way_le k_connecting = omega arith
under_way_le k_connected = omega arith

abbrev pub IsStart : Functor → Type 0
IsStart start_functor = Unit {0}
IsStart stop_functor = ⊥

pub record Sound (connection : Option ℕ) (c : Connector) : Type 0 where
  pub single : length c.connects ≡ under_way c.state
  pub up : (i : ℕ) → connection ≡ some i → c.state ≡ k_connected
  pub unstopped : All IsStart c.posted

start_in_loop-posted : (t : ℕ) (c c' : Connector) → start_in_loop t c ≡ ok c' → c.posted ≡ c'.posted
unfolding start_in_loop with_loop connect_socket
start_in_loop-posted t c c' e = ground arith

pub start_in_loop-Sound :
    (t : ℕ) (connection : Option ℕ) (c c' : Connector)
    → Sound connection c
    → start_in_loop t c ≡ ok c'
    → Sound connection c'
unfolding start_in_loop with_loop connect_socket
start_in_loop-Sound t connection c c' v e = record {
  single = ground (arith, v.single, length-append c.connects (c.next_id ∷ []));
  up = λ i now. ground (arith, v.up i now);
  unstopped = rw (start_in_loop-posted t c c' e) at v.unstopped;
}

pub drop_socket-length :
    (s : ℕ) (xs : List ℕ) → has xs s ≡ true → length (drop_socket s xs) + 1 ≡ length xs
drop_socket-length s [] h = cc
drop_socket-length s (x ∷ xs) h = ground (arith, drop_socket-length s xs)

-- A connect that failed leaves the connector without one.
pub retry-Sound :
    (owned : ℕ → Bool) (holders : List ℕ) (connection : Option ℕ) (c c' : Connector)
    → Sound connection c
    → c.state ≡ k_disconnected
    → retry owned holders c ≡ ok c'
    → Sound connection c'
unfolding retry with_loop schedule
retry-Sound owned holders connection c c' v down e =
    let posted : c.posted ≡ c'.posted = ground (arith, e) in
    let state : c.state ≡ c'.state = ground (arith, e) in
    let connects : c.connects ≡ c'.connects = ground (arith, e) in
    record {
      single = rw (← connects, ← state) v.single;
      up = λ i now. rw (← state) (v.up i now);
      unstopped = rw posted at v.unstopped;
    }

pub exec_functor-Sound :
    (owned : ℕ → Bool) (t : ℕ) (connection : Option ℕ) (f : Functor) (c c' : Connector)
    → IsStart f
    → Sound connection c
    → exec_functor owned t f c ≡ ok c'
    → Sound connection c'
unfolding exec_functor
exec_functor-Sound owned t connection start_functor c c' i v e =
    start_in_loop-Sound t connection c c' v e
exec_functor-Sound owned t connection stop_functor c c' i v e = absurd i

-- `start` begins a connect at once, or posts that.
pub start-Sound :
    (owned : ℕ → Bool) (t : ℕ) (connection : Option ℕ) (c c' : Connector)
    → Sound connection c
    → start owned t c ≡ ok c'
    → Sound connection c'
unfolding start
start-Sound owned t connection c c' v e =
    let d : Connector = record c { connect = true } in
    let v₁ : Sound connection d = record {
      single = v.single;
      up = v.up;
      unstopped = v.unstopped;
    } in
    elim (with_loop-eq-ok c.loop _ _ e) [
      | inl (_, e₁) ↦ rw (ok-injective e₁) at v₁
      | inr (loop, _, e₁) ↦ elim (Bool-cases (is_in_loop_thread loop t)) [
        | inl here ↦
            exec_functor-Sound owned t connection start_functor d c' tt v₁ (simp here at e₁)
        | inr away ↦
            let waits : Sound connection (post_functor owned start_functor d) = record {
              single = v.single;
              up = v.up;
              unstopped = All-append IsStart c.posted (start_functor ∷ []) v.unstopped (tt, tt);
            } in
            rw (ok-injective (simp away at e₁)) at waits
      ]
    ]

-- `restart`, of a client that has let go of its connection.
pub restart-Sound :
    (owned : ℕ → Bool) (t : ℕ) (c c' : Connector)
    → length c.connects ≡ 0
    → Sound none c
    → restart owned t c ≡ ok c'
    → Sound none c'
unfolding restart
restart-Sound owned t c c' idle v e = elim (with_loop-eq-ok c.loop _ _ e) [
  | inl (_, e₁) ↦ rw (ok-injective e₁) at v
  | inr (loop, _, e₁) ↦
      let d : Connector = record c {
        state = k_disconnected;
        retry_delay_ms = k_init_retry_delay_ms;
        connect = true;
      } in
      let (_, _, e₂) = >>=-eq-ok (assert_in_loop_thread loop t) _ e₁ in
      start_in_loop-Sound t none d c'
        (record { single = idle; up = λ i now. cc; unstopped = v.unstopped }) e₂
]
