-- ===== src/Net/TcpConnection/Lifecycle/Events.antt =====
-- What each event does to a connection's state and its history of callbacks.
use lib_net_toy.Net.TcpConnection.Lifecycle.{
  read_done, write_done, task_runs, established, destroyed, shut_down, closed_by_force,
  reading_started, reading_stopped, sent, connected, Event, connecting, disconnecting, is_connected,
  apply,
}
use lib_net_toy.Prelude.{
  ℕ, ◌≡◌, refl, inl, inr, Bool, true, false, List, arith, Bool-cases, null_pointer, Result, ok,
  fault, assert, read_range, assert-eq-ok, >>=-eq-ok,
}
use lib_net_toy.Base.Buffer.{readable_bytes, peek, append, retrieve, has_written}
use lib_net_toy.Net.TcpConnection.Types.{
  with_loop, with_loop-eq-ok, disconnected, Task, start_read_task, stop_read_task, shutdown_task,
  force_close_task, connection_changed, message_arrived, write_completed, connection_closed,
  TcpConnection, Handlers, invoke_if_set, is_open,
}
use lib_net_toy.Net.TcpConnection.Lifecycle.Later.{
  Follows, Follows-refl, stays, after, shuts, establishes, destroys, disconnects, RespectsAll,
  invoke-Follows, invoke_if_set-Follows, read_on-Follows, handle_close-Closes, is_connecting,
}
use lib_net_toy.Net.TcpConnection.Handlers.{
  send, force_close, shutdown, stop_read, destroy, start_read, connect_destroyed,
  connect_established, begin_first_read, ErrorCode, success, eof, other_error, async_read,
  handle_close, handle_error, start_read_in_loop, stop_read_in_loop, shutdown_in_loop, post_task,
  read_handler, write_handler, force_close_in_loop, exec,
}
use lib_net_toy.Base.EventLoop.{is_in_loop_thread, run_in_loop, EventLoop, assert_in_loop_thread}

send-Follows :
    {rises : Bool} (message : List ℕ) (c c' : TcpConnection)
    → send message c ≡ ok c'
    → Follows rises c c'
unfolding send
send-Follows message c c' e =
    let (b, _, e₁) = >>=-eq-ok (append c.output_buffer message) _ e in
    let (bytes, _, e₂) = >>=-eq-ok (read_range b.buffer (peek b) (readable_bytes b)) _ e₁ in
    stays (ground arith) (ground arith)

-- Where nothing may rise, the event is not `connectEstablished`.
abbrev pub Allows : Bool → Event → Type 0
Allows rises established = rises ≡ true
Allows rises _ = Unit {0}

module _ {rises : Bool} (h : Handlers) (thread : ℕ) (r : RespectsAll rises h) where
  handle_close-Follows :
      (c c' : TcpConnection) → handle_close h thread c ≡ ok c' → Follows rises c c'
  handle_close-Follows c c' e = elim (handle_close-Closes h thread c c' e) [
    | inl (_, same) ↦ rw same (Follows-refl c)
    | inr (c₂, o, e₁, e₂) ↦
        shuts o
          (invoke-Follows h.connection_callback (connection_changed false)
            (record c { state = disconnected; reading = false }) c₂ r.on_connection e₁)
          (invoke-Follows h.close_callback connection_closed c₂ c' r.on_close e₂)
  ]

  read_handler-Follows :
      (error : ErrorCode) (n : ℕ) (c c' : TcpConnection)
      → read_handler h thread error n c ≡ ok c'
      → Follows rises c c'
  unfolding read_handler handle_error
  read_handler-Follows success n c c' e =
      let (b, _, e₁) = >>=-eq-ok (has_written c.input_buffer n) _ e in
      let (c₁, e₂, e₃) =
        >>=-eq-ok (invoke_if_set h.message_callback message_arrived (record c { input_buffer = b }))
          _ e₁ in
      let d : TcpConnection = record c { input_buffer = b } in
      after (stays refl refl) (
        after (invoke_if_set-Follows h.message_callback message_arrived d c₁ r.on_message tt e₂)
          (read_on-Follows c₁ c' n e₃))
  read_handler-Follows eof n c c' e = handle_close-Follows c c' e
  read_handler-Follows other_error n c c' e =
      let (c₁, e₁, e₂) = >>=-eq-ok (handle_error h thread c) _ e in
      after (handle_close-Follows c c₁ e₁) (read_on-Follows c₁ c' n e₂)

  write_handler-Follows :
      (error : ErrorCode) (n : ℕ) (c c' : TcpConnection)
      → write_handler h thread error n c ≡ ok c'
      → Follows rises c c'
  unfolding write_handler
  write_handler-Follows success n c c' e =
      let (b, _, e₁) = >>=-eq-ok (retrieve c.output_buffer n) _ e in
      let d : TcpConnection = record c { output_buffer = b } in
      after (stays refl refl) (
        invoke_if_set-Follows h.write_complete_callback write_completed d c' r.on_write_complete tt
          e₁)
  write_handler-Follows eof n c c' e = stays (ground arith) (ground arith)
  write_handler-Follows other_error n c c' e = stays (ground arith) (ground arith)

  force_close_in_loop-Follows :
      (c c' : TcpConnection) → force_close_in_loop h thread c ≡ ok c' → Follows rises c c'
  unfolding force_close_in_loop
  force_close_in_loop-Follows c c' e = elim (with_loop-eq-ok c.loop _ _ e) [
    | inl (n, e') ↦ cc
    | inr (loop, l, e') ↦
        let (_, _, e₁) = >>=-eq-ok (assert_in_loop_thread loop thread) _ e' in
        elim (Bool-cases (is_open c)) [
          | inl o ↦ handle_close-Follows c c' (simp o at e₁)
          | inr shut ↦ stays (ground arith) (ground arith)
        ]
  ]

  exec-Follows :
      (task : Task) (c c' : TcpConnection) → exec h thread task c ≡ ok c' → Follows rises c c'
  unfolding exec start_read_in_loop stop_read_in_loop shutdown_in_loop async_read with_loop
  exec-Follows start_read_task c c' e = stays (ground arith) (ground arith)
  exec-Follows stop_read_task c c' e = stays (ground arith) (ground arith)
  exec-Follows shutdown_task c c' e = stays (ground arith) (ground arith)
  exec-Follows force_close_task c c' e = force_close_in_loop-Follows c c' e

  -- A functor that runs at once or is posted.
  run_in_loop-Follows :
      (loop : EventLoop) (task : Task) (c c' : TcpConnection)
      → run_in_loop (exec h thread) post_task loop thread task c ≡ ok c'
      → Follows rises c c'
  unfolding post_task
  run_in_loop-Follows loop task c c' e = elim (Bool-cases (is_in_loop_thread loop thread)) [
    | inl here ↦ exec-Follows task c c' (simp here at e)
    | inr away ↦ stays (ground arith) (ground arith)
  ]

  connect_established-Follows :
      (c c' : TcpConnection)
      → rises ≡ true
      → connect_established h thread c ≡ ok c'
      → Follows rises c c'
  unfolding connect_established begin_first_read async_read
  connect_established-Follows c c' w e = elim (with_loop-eq-ok c.loop _ _ e) [
    | inl (n, e') ↦ stays (ground arith) (ground arith)
    | inr (loop, l, e') ↦
        let (_, _, e₁) = >>=-eq-ok (assert_in_loop_thread loop thread) _ e' in
        let (_, o, e₂) = >>=-eq-ok (assert (elim c.state [ connecting ↦ true | _ ↦ false ])) _ e₁ in
        let d : TcpConnection = begin_first_read (record c { state = connected }) in
        after (establishes w (is_connecting c.state (assert-eq-ok _ o)))
          (invoke-Follows h.connection_callback (connection_changed true) d c' r.on_connection e₂)
  ]

  connect_destroyed-Follows :
      (c c' : TcpConnection) → connect_destroyed h thread c ≡ ok c' → Follows rises c c'
  unfolding connect_destroyed destroy
  connect_destroyed-Follows c c' e = elim (with_loop-eq-ok c.loop _ _ e) [
    | inl (n, e') ↦ stays (ground arith) (ground arith)
    | inr (loop, l, e') ↦
        let (_, _, e₁) = >>=-eq-ok (assert_in_loop_thread loop thread) _ e' in
        elim (Bool-cases (is_connected c)) [
          | inl o ↦
              let d : TcpConnection = record c { state = disconnected } in
              after (destroys o) (
                invoke-Follows h.connection_callback (connection_changed false) d c' r.on_connection
                  (simp o at e₁))
          | inr shut ↦ stays (ground arith) (ground arith)
        ]
  ]

  task-Follows :
      (task : Task) (c c' d : TcpConnection) (x : Result TcpConnection)
      → (x ≡ ok c' → Follows rises c c')
      → Follows rises c d
      → with_loop c.loop x (λ loop. run_in_loop (exec h thread) post_task loop thread task d)
        ≡ ok c'
      → Follows rises c c'
  task-Follows task c c' d x k f e = elim (with_loop-eq-ok c.loop x _ e) [
    | inl (n, e') ↦ k e'
    | inr (loop, l, e') ↦ after f (run_in_loop-Follows loop task d c' e')
  ]

  -- Every event does only what `Follows` allows.
  pub apply-Follows :
      (e : Event) (c c' : TcpConnection)
      → Allows rises e
      → apply h thread e c ≡ ok c'
      → Follows rises c c'
  unfolding apply start_read stop_read shutdown force_close send
  apply-Follows (read_done error n) c c' w e = read_handler-Follows error n c c' e
  apply-Follows (write_done error n) c c' w e = write_handler-Follows error n c c' e
  apply-Follows (task_runs task) c c' w e = exec-Follows task c c' e
  apply-Follows established c c' w e = connect_established-Follows c c' w e
  apply-Follows destroyed c c' w e = connect_destroyed-Follows c c' e
  apply-Follows reading_started c c' w e =
      task-Follows start_read_task c c' c (ok c) (λ s. stays (ground arith) (ground arith))
        (Follows-refl c) e
  apply-Follows reading_stopped c c' w e =
      task-Follows stop_read_task c c' c (ok c) (λ s. stays (ground arith) (ground arith))
        (Follows-refl c) e
  apply-Follows shut_down c c' w e = elim (Bool-cases (is_connected c)) [
    | inl o ↦
        task-Follows shutdown_task c c' (record c { state = disconnecting }) (ok c)
          (λ s. stays (ground arith) (ground arith)) (disconnects (ground arith)) (simp o at e)
    | inr shut ↦ stays (ground arith) (ground arith)
  ]
  apply-Follows closed_by_force c c' w e = elim (Bool-cases (is_open c)) [
    | inl o ↦
        task-Follows force_close_task c c' (record c { state = disconnecting }) (fault null_pointer)
          (λ s. cc) (disconnects o) (simp o at e)
    | inr shut ↦ stays (ground arith) (ground arith)
  ]
  apply-Follows (sent message) c c' w e = send-Follows message c c' e
