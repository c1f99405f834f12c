-- ===== src/Net/TcpClient/Steps/Keeping.antt =====
-- Each step keeps the client's account of its connections: the current one has not called its close
-- callback, and all others have, once.
use lib_net_toy.Prelude.{
  set, get_elem?-set-cases, ltb, ◌<◌, ◌≢◌, ok-injective, sym, ap, ◌∙◌, refl, inl, inr, Bool-cases,
  >>=-eq-ok, ℕ, ◌+◌, ◌≡◌, Bool, true, false, Option, none, some, arith, Result, ok, ◌==◌,
  if◌then◌else◌, get_elem?, ◌&&◌, assert,
}
use lib_net_toy.Net.TcpClient.{Made, TcpClient, call_connection, remove_connection}
use lib_net_toy.Net.TcpClient.Steps.Connecting.{under_way, Sound, restart-Sound}
use lib_net_toy.Net.Connector
use lib_net_toy.Net.Connector.{Connector, k_connected}
use lib_net_toy.Net.TcpConnection.Types.{TcpConnection, Handlers, closes}
use lib_net_toy.Net.TcpConnection.Lifecycle.{IsOrderly}
use lib_net_toy.Net.TcpConnection.Lifecycle.Later.{Follows, RespectsAll}
use lib_net_toy.Net.TcpConnection.Lifecycle.Moves.{Follows-IsOrderly, IsOrderly-closes, closes-le}
use lib_net_toy.Base.EventLoop.{assert_in_loop_thread}
use lib_net_toy.Base.EventLoopThreadPool.{at, get_elem?-at}

-- 1 at the place of the current connection.
abbrev pub current_at : ℕ → Option ℕ → ℕ
current_at j none = 0
current_at j (some i) = if i == j then 1 else 0

pub record Inv (s : TcpClient) : Type 0 where
  pub callbacks : RespectsAll true s.callbacks
  pub handlers : (j : ℕ) (m : Made) → get_elem? s.made j ≡ some m → RespectsAll true m.handlers
  pub orderly : (j : ℕ) (m : Made) → get_elem? s.made j ≡ some m → IsOrderly m.conn
  pub accounted :
      (j : ℕ) (m : Made)
      → get_elem? s.made j ≡ some m
      → closes m.conn.calls + current_at j s.connection ≡ 1
  pub connecting : Sound s.connection s.connector

-- What a removal that succeeds has done.
remove_connection-eq-ok :
    (owned : ℕ → Bool) (t i : ℕ) (s s' : TcpClient)
    → Sound (some i) s.connector
    → remove_connection owned t i s ≡ ok s'
    → (s'.made ≡ s.made)
      × (s'.callbacks ≡ s.callbacks)
      × (s'.connection ≡ none)
      × Sound none s'.connector
unfolding remove_connection
remove_connection-eq-ok owned t i s s' v e =
    let (_, _, e₁) = >>=-eq-ok (assert_in_loop_thread s.loop t) _ e in
    let (m, _, e₂) = >>=-eq-ok (at s.made i) _ e₁ in
    let (_, _, e₃) =
      >>=-eq-ok (assert (elim m.conn.loop [ none ↦ false | some l ↦ s.loop.this == l.this ])) _
        e₂ in
    let (_, _, e₄) =
      >>=-eq-ok (assert (elim s.connection [ none ↦ false | some j ↦ j == i ])) _ e₃ in
    let lost : Sound none s.connector = record {
      single = v.single;
      up = λ j now. cc;
      unstopped = v.unstopped;
    } in
    elim (Bool-cases (s.retry && s.connect)) [
      | inl again ↦
          let (c, e₅, e₆) =
            >>=-eq-ok (Connector.restart owned t s.connector) _ (simp again at e₄) in
          let same = ok-injective e₆ in
          (
            ap (λ (x : TcpClient). x.made) (sym same),
            ap (λ (x : TcpClient). x.callbacks) (sym same),
            ap (λ (x : TcpClient). x.connection) (sym same),
            rw (ap (λ (x : TcpClient). x.connector) same) at (
                restart-Sound owned t s.connector c (v.single ∙ ap under_way (v.up i refl)) lost
                  e₅),
          )
      | inr over ↦
          let same = ok-injective (simp over at e₄) in
          (
            ap (λ (x : TcpClient). x.made) (sym same),
            ap (λ (x : TcpClient). x.callbacks) (sym same),
            ap (λ (x : TcpClient). x.connection) (sym same),
            rw (ap (λ (x : TcpClient). x.connector) same) at lost,
          )
    ]

pub current_at-one : (i : ℕ) (o : Option ℕ) → current_at i o ≡ 1 → o ≡ some i
current_at-one i none h = absurd (omega arith)
current_at-one i (some j) h = ground arith

pub current_at_other : (i j : ℕ) → j ≢ i → current_at j (some i) ≡ 0
current_at_other i j ne = ground arith

module _ (s s' : TcpClient) (v : Inv s) (i : ℕ) (m : Made) (c : TcpConnection)
    (here : get_elem? s.made i ≡ some m)
    (made : s'.made ≡ set s.made i (record m { conn = c })) where
  -- One connection changes.
  update-Inv :
      s'.callbacks ≡ s.callbacks
      → Sound s'.connection s'.connector
      → IsOrderly c
      → closes c.calls + current_at i s'.connection ≡ 1
      → ((j : ℕ) (m' : Made)
          → get_elem? s.made j ≡ some m'
          → j ≢ i
          → current_at j s'.connection ≡ current_at j s.connection)
      → Inv s'
  update-Inv callbacks connecting orderly this others = record {
    callbacks = rw callbacks v.callbacks;
    handlers = λ j m' e. elim (get_elem?-set-cases s.made i j m' _ (rw made at e)) [
      | inl (at_i, same) ↦ rw same (v.handlers i m here)
      | inr (away, there) ↦ v.handlers j m' there
    ];
    orderly = λ j m' e. elim (get_elem?-set-cases s.made i j m' _ (rw made at e)) [
      | inl (at_i, same) ↦ rw same orderly
      | inr (away, there) ↦ v.orderly j m' there
    ];
    accounted = λ j m' e. elim (get_elem?-set-cases s.made i j m' _ (rw made at e)) [
      | inl (at_i, same) ↦ rw (same, at_i) this
      | inr (away, there) ↦ omega (arith, others j m' there away, v.accounted j m' there)
    ];
    connecting = connecting;
  }

-- A call of a connection, with the removal that it may bring.
pub call_connection-Inv :
    (owned : ℕ → Bool) (t : ℕ) (f : Handlers → TcpConnection → Result TcpConnection) (i : ℕ)
    (s s' : TcpClient)
    → Inv s
    → ((m : Made) (c : TcpConnection)
        → get_elem? s.made i ≡ some m
        → f m.handlers m.conn ≡ ok c
        → Follows true m.conn c)
    → call_connection owned t f i s ≡ ok s'
    → Inv s'
unfolding call_connection
call_connection-Inv owned t f i s s' v keeps e =
    let (m, there, e₁) = >>=-eq-ok (at s.made i) _ e in
    let here = get_elem?-at s.made i m there in
    let (c, called, e₂) = >>=-eq-ok (f m.handlers m.conn) _ e₁ in
    let follows = keeps m c here called in
    let o = Follows-IsOrderly follows (v.orderly i m here) in
    let s₁ : TcpClient = record s { made = set s.made i (record m { conn = c }) } in
    elim (Bool-cases (ltb (closes m.conn.calls) (closes c.calls))) [
      | inl more ↦
          let less : closes m.conn.calls < closes c.calls = ground arith in
          let once = IsOrderly-closes c o in
          let now : s.connection ≡ some i =
            current_at-one i s.connection (omega (arith, v.accounted i m here, less, once)) in
          let (made, callbacks, gone, connecting) =
            remove_connection-eq-ok owned t i s₁ s' (rw now at v.connecting) (simp more at e₂) in
          update-Inv s s' v i m c here made callbacks (rw gone connecting) o
            (rw gone (omega (arith, less, once)))
            (λ j m' e' away. rw (gone, now) (sym (current_at_other i j away)))
      | inr same ↦
          let s_eq = ok-injective (simp same at e₂) in
          let still : closes c.calls ≡ closes m.conn.calls = ground (arith, closes-le follows) in
          rw s_eq at (
            update-Inv s s₁ v i m c here refl refl v.connecting o
              (omega (arith, still, v.accounted i m here)) (λ j m' e' away. refl))
    ]
