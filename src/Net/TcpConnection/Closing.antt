-- ===== src/Net/TcpConnection/Closing.antt =====
-- How a connection closes: who is told, and what a second close does.
use lib_net_toy.Net.TcpConnection.Types.{
  destroy_connection, with_loop, with_loop-some, invoke, Call, disconnected, connection_changed,
  connection_closed, TcpConnection, Handlers, is_open, connecting, connected, disconnecting,
  Callback,
}
use lib_net_toy.Base.EventLoop.{is_in_loop_thread-true, EventLoop}
use lib_net_toy.Prelude.{
  ◌≢◌, ℕ, ◌≡◌, refl, ap, ◌∙◌, true, false, none, some, [], ◌∷◌, ◌++◌, append_assoc, arith,
  assertion, ok, fault, ◌>>=◌,
}
use lib_net_toy.Net.TcpConnection.Handlers.{
  force_close, connect_destroyed, connect_established, begin_first_read, ErrorCode, success,
  other_error, handle_error, eof, async_read, handle_close, read_handler, force_close_in_loop, exec,
}

-- A callback that returns, and changes nothing that the closing of a connection looks at.
abbrev pub Watches : Callback → Type 0
Watches none = ⊥
Watches (some f) =
    (c : TcpConnection)
    → (c' : TcpConnection) × (f c ≡ ok c')
      × (c'.state ≡ c.state)
      × (c'.loop ≡ c.loop)
      × (c'.calls ≡ c.calls)

invoke-Watches :
    (cb : Callback) (call : Call) (c : TcpConnection)
    → Watches cb
    → (c' : TcpConnection) × (invoke cb call c ≡ ok c')
      × (c'.state ≡ c.state)
      × (c'.loop ≡ c.loop)
      × (c'.calls ≡ c.calls ++ call ∷ [])
invoke-Watches none call c w = absurd w
invoke-Watches (some f) call c w = w (record c { calls = c.calls ++ call ∷ [] })

-- In the loop's own thread a forced close is made at once.
force_close_lem :
    (h : Handlers) (thread : ℕ) (loop : EventLoop)
    → loop.thread_id ≡ thread
    → (c : TcpConnection) → c.loop ≡ some loop
    → is_open c ≡ true
    → force_close h thread c ≡ handle_close h thread (record c { state = disconnecting })
unfolding force_close force_close_in_loop exec with_loop
force_close_lem h thread loop t c l o = ground (arith, is_in_loop_thread-true loop thread t)

module _ (h : Handlers) (thread : ℕ) (loop : EventLoop) (t : loop.thread_id ≡ thread)
    (on_connection : Watches h.connection_callback) (on_close : Watches h.close_callback) where
  -- An open connection closes: DOWN is reported, and then the owner is told.
  pub handle_close_lem :
      (c : TcpConnection)
      → c.loop ≡ some loop
      → is_open c ≡ true
      → (c' : TcpConnection) × (handle_close h thread c ≡ ok c')
        × (c'.state ≡ disconnected)
        × (c'.loop ≡ some loop)
        × (c'.calls ≡ c.calls ++ connection_changed false ∷ connection_closed ∷ [])
  unfolding handle_close
  handle_close_lem c l o =
      let shut : TcpConnection = record c { state = disconnected; reading = false } in
      let (c₁, e₁, s₁, l₁, k₁) =
        invoke-Watches h.connection_callback (connection_changed false) shut on_connection in
      let (c₂, e₂, s₂, l₂, k₂) = invoke-Watches h.close_callback connection_closed c₁ on_close in
      (
        c₂,
        rw (with_loop-some c.loop (ok c) _ l, is_in_loop_thread-true loop thread t, o, e₁) e₂,
        s₂ ∙ s₁,
        l₂ ∙ l₁ ∙ l,
        k₂ ∙ ap (λ xs. xs ++ connection_closed ∷ []) k₁ ∙ append_assoc c.calls _ _,
      )

  -- A connection that is not open fails the assertion of `handleClose`.
  pub handle_close_shut :
      (c : TcpConnection)
      → c.loop ≡ some loop
      → is_open c ≡ false
      → handle_close h thread c ≡ fault assertion
  unfolding handle_close
  handle_close_shut c l o =
      rw (with_loop-some c.loop (ok c) _ l, is_in_loop_thread-true loop thread t, o)

  pub connect_established_lem :
      (c : TcpConnection)
      → c.loop ≡ some loop
      → c.state ≡ connecting
      → (c' : TcpConnection) × (connect_established h thread c ≡ ok c')
        × (c'.state ≡ connected)
        × (c'.loop ≡ some loop)
        × (c'.calls ≡ c.calls ++ connection_changed true ∷ [])
  unfolding connect_established begin_first_read async_read
  connect_established_lem c l s =
      let up : TcpConnection = begin_first_read (record c { state = connected }) in
      let (c₁, e₁, s₁, l₁, k₁) =
        invoke-Watches h.connection_callback (connection_changed true) up on_connection in
      (
        c₁,
        rw (with_loop-some c.loop (ok c) _ l, is_in_loop_thread-true loop thread t)
            (ground (arith, s, e₁)),
        s₁,
        l₁ ∙ l,
        k₁,
      )

  -- What is disconnected is let go of in silence.
  pub connect_destroyed_disconnected :
      (c : TcpConnection)
      → c.loop ≡ some loop
      → c.state ≡ disconnected
      → connect_destroyed h thread c ≡ ok c
  unfolding connect_destroyed
  connect_destroyed_disconnected c l s =
      rw (with_loop-some c.loop (ok c) _ l, is_in_loop_thread-true loop thread t)
        (ground (arith, s))

  -- The whole life: established, the peer closes, the owner lets go. The user hears UP and DOWN once
  -- each, the owner of the close once, `connectDestroyed` then says nothing, and the destructor's
  -- assertion holds.
  pub life :
      (c : TcpConnection) (n : ℕ)
      → c.loop ≡ some loop
      → c.state ≡ connecting
      → (c' : TcpConnection) × ((connect_established h thread c
            >>= read_handler h thread eof n
            >>= connect_destroyed h thread)
          ≡ ok c')
        × (c'.state ≡ disconnected)
        × (destroy_connection c' ≡ ok tt)
        × (c'.calls
            ≡ c.calls
              ++ connection_changed true ∷ connection_changed false ∷ connection_closed ∷ [])
  unfolding read_handler
  life c n l s =
      let (c₁, e₁, s₁, l₁, k₁) = connect_established_lem c l s in
      let (c₂, e₂, s₂, l₂, k₂) = handle_close_lem c₁ l₁ (ground arith) in
      (
        c₂,
        rw (e₁, e₂) (connect_destroyed_disconnected c₂ l₂ s₂),
        s₂,
        ground (arith, s₂),
        k₂
            ∙ ap (λ xs. xs ++ connection_changed false ∷ connection_closed ∷ []) k₁
            ∙ append_assoc c.calls _ _,
      )

  -- The flaw: `forceClose` leaves the read under way, and when that read ends with the end of the
  -- stream or another error the connection is closed a second time, which fails the assertion.
  pub force_close_then_error :
      (error : ErrorCode) (c : TcpConnection) (n : ℕ)
      → error ≢ success
      → c.loop ≡ some loop
      → is_open c ≡ true
      → (force_close h thread c >>= read_handler h thread error n) ≡ fault assertion
  unfolding read_handler handle_error
  force_close_then_error error c n failed l o =
      let d : TcpConnection = record c { state = disconnecting } in
      let (c₁, e₁, s₁, l₁, k₁) = handle_close_lem d l refl in
      let shut = handle_close_shut c₁ l₁ (ground arith) in
      rw (force_close_lem h thread loop t c l o, e₁)
        (elim error as (λ e. e ≢ success → read_handler h thread e n c₁ ≡ fault assertion) [
          | success ↦ λ ne. absurd (ne refl)
          | eof ↦ λ ne. shut
          | other_error ↦ λ ne. rw shut refl
        ]
          failed)
