-- ===== src/Base/TimerQueue/Waiting.antt =====
-- The waits that a queue has started: as many as its timers need.
use lib_net_toy.Base.TimerQueue.IsSound.{
  erase_timer-fewer, holds-erase_timer, holds-append, IsSound, same-IsSound, add_timer-IsSound,
  erase_timer-IsSound,
}
use lib_net_toy.Base.TimerQueue.Runs.{
  Acts-keeps, UsesQueue, Ticks, idle, adds, cancels, ends, Outcome, expired, failed, called_once,
  called_again, handle_timer-Outcome,
}
use lib_net_toy.Base.TimerQueue.{
  erase_timer, Wait, new_timer_queue, cancel, add_timer, holds, TimerQueue,
}
use lib_net_toy.Prelude.{
  ℕ, suc, ◌+◌, ◌≤◌, ◌≡◌, refl, ap, inl, inr, true, false, List, [], ◌∷◌, ◌++◌, arith, ◌==◌,
  if◌then◌else◌, Bool-cases, Result, ok,
}

-- How many waits of the timer there are.
abbrev pub waits_of : ℕ → List Wait → ℕ
waits_of t [] = 0
waits_of t (w ∷ ws) = if w.timer == t then suc (waits_of t ws) else waits_of t ws

waits_of-append :
    (t : ℕ) (xs ys : List Wait) → waits_of t (xs ++ ys) ≡ waits_of t xs + waits_of t ys
waits_of-append t [] ys = omega arith
waits_of-append t (x ∷ xs) ys = ground (arith, waits_of-append t xs ys)

-- The timer whose handler runs has no wait; `busy` counts it in its place.
abbrev only : ℕ → ℕ → ℕ
only t u = if t == u then 1 else 0

abbrev pub nobody : ℕ → ℕ
nobody u = 0

-- Each timer in the map waits once, no timer twice, and a new one not at all.
pub record IsWaiting (busy : ℕ → ℕ) (q : TimerQueue) : Type 0 where
  pub sound : IsSound q
  pub few : (t : ℕ) → waits_of t q.waits + busy t ≤ 1
  pub waiting : (t : ℕ) → holds q.timer_queue t ≡ true → waits_of t q.waits + busy t ≡ 1
  pub fresh : (t : ℕ) → q.next_timer ≤ t → waits_of t q.waits + busy t ≡ 0

add_timer-IsWaiting :
    (busy : ℕ → ℕ) (expires interval : ℕ) (q : TimerQueue)
    → IsWaiting busy q
    → IsWaiting busy (add_timer expires interval q).1
unfolding add_timer
add_timer-IsWaiting busy expires interval q v =
    let w : Wait = record { timer = q.next_timer; expires = expires; interval = interval } in
    let count : (t : ℕ)
        → waits_of t (q.waits ++ w ∷ [])
          ≡ waits_of t q.waits + (if q.next_timer == t then 1 else 0) =
      λ t. ground (arith, waits_of-append t q.waits (w ∷ [])) in
    record {
      sound = add_timer-IsSound expires interval q v.sound;
      few = λ t. elim (Bool-cases (q.next_timer == t)) [
        | inl same ↦ ground (arith, count t, v.fresh t)
        | inr other ↦ ground (arith, count t, v.few t)
      ];
      waiting = λ t held. elim (Bool-cases (q.next_timer == t)) [
        | inl same ↦ ground (arith, count t, v.fresh t)
        | inr other ↦
            ground (arith, count t, v.waiting t, holds-append q.timer_queue q.next_timer t)
      ];
      fresh = λ t le. ground (arith, count t, v.fresh t);
    }

-- Fewer timers in the map.
erase_timer-IsWaiting :
    (busy : ℕ → ℕ) (u : ℕ) (q : TimerQueue)
    → IsWaiting busy q
    → IsWaiting busy (record q { timer_queue = erase_timer u q.timer_queue })
erase_timer-IsWaiting busy u q v = record {
  sound = erase_timer-IsSound u q v.sound;
  few = v.few;
  waiting = λ t held. v.waiting t (erase_timer-fewer u t q.timer_queue held);
  fresh = v.fresh;
}

cancel-IsWaiting :
    (busy : ℕ → ℕ) (t : ℕ) (q : TimerQueue) → IsWaiting busy q → IsWaiting busy (cancel t q)
unfolding cancel
cancel-IsWaiting busy t q v = elim (Bool-cases (holds q.timer_queue t)) [
  | inl held ↦ rw held (erase_timer-IsWaiting busy t q v)
  | inr gone ↦ rw gone v
]

-- A wait ends, and its handler starts.
take-IsWaiting :
    (before after : List Wait) (w : Wait) (q : TimerQueue)
    → q.waits ≡ before ++ w ∷ after
    → IsWaiting nobody q
    → IsWaiting (only w.timer) (record q { waits = before ++ after })
take-IsWaiting before after w q m v =
    let count : (t : ℕ) → waits_of t (before ++ after) + only w.timer t ≡ waits_of t q.waits = λ t.
      ground (
        arith,
        ap (waits_of t) m,
        waits_of-append t before (w ∷ after),
        waits_of-append t before after,
      ) in
    record {
      sound = same-IsSound q _ refl refl v.sound;
      few = λ t. omega (arith, count t, v.few t);
      waiting = λ t held. omega (arith, count t, v.waiting t held);
      fresh = λ t le. omega (arith, count t, v.fresh t le);
    }

-- The handler ends with its timer out of the map.
drop-IsWaiting :
    (u : ℕ) (q : TimerQueue)
    → holds q.timer_queue u ≡ false
    → IsWaiting (only u) q
    → IsWaiting nobody q
drop-IsWaiting u q gone v = record {
  sound = v.sound;
  few = λ t. omega (arith, v.few t);
  waiting = λ t held. elim (Bool-cases (u == t)) [
    | inl same ↦ absurd (let e : u ≡ t = ground arith in cc)
    | inr other ↦ ground (arith, v.waiting t held, other)
  ];
  fresh = λ t le. omega (arith, v.fresh t le);
}

-- The handler starts the next wait.
again-IsWaiting :
    (w : Wait) (q : TimerQueue)
    → IsWaiting (only w.timer) q
    → IsWaiting nobody (record q { waits = q.waits ++ w ∷ [] })
again-IsWaiting w q v =
    let count : (t : ℕ) → waits_of t (q.waits ++ w ∷ []) ≡ waits_of t q.waits + only w.timer t =
      λ t. ground (arith, waits_of-append t q.waits (w ∷ [])) in
    record {
      sound = same-IsSound q _ refl refl v.sound;
      few = λ t. omega (arith, count t, v.few t);
      waiting = λ t held. omega (arith, count t, v.waiting t held);
      fresh = λ t le. omega (arith, count t, v.fresh t le);
    }

handle_timer-IsWaiting :
    (callback : ℕ → TimerQueue → Result TimerQueue) (u interval : ℕ) (q q' : TimerQueue)
    → UsesQueue callback
    → IsWaiting (only u) q
    → Outcome callback u interval q q'
    → IsWaiting nobody q'
handle_timer-IsWaiting callback u interval q q' uses v o =
    let start : IsWaiting (only u) (record q { calls = q.calls ++ u ∷ [] }) = record {
      sound = same-IsSound q _ refl refl v.sound;
      few = v.few;
      waiting = v.waiting;
      fresh = v.fresh;
    } in
    let after : (q₁ : TimerQueue)
        → callback u (record q { calls = q.calls ++ u ∷ [] }) ≡ ok q₁
        → IsWaiting (only u) q₁ =
      λ q₁ c.
        Acts-keeps (IsWaiting (only u)) (add_timer-IsWaiting (only u)) (cancel-IsWaiting (only u))
          (uses u _ q₁ c) start in
    let erased : (p : TimerQueue)
        → IsWaiting (only u) p
        → IsWaiting nobody (record p { timer_queue = erase_timer u p.timer_queue }) =
      λ p x.
        drop-IsWaiting u _ (holds-erase_timer u p.timer_queue x.sound.distinct)
          (erase_timer-IsWaiting (only u) u p x) in
    elim o [
      | expired gone same ↦ rw same (drop-IsWaiting u q gone v)
      | failed held same ↦ rw same (erased q v)
      | called_once q₁ held c once there same ↦ rw same (erased q₁ (after q₁ c))
      | called_again q₁ held c again same ↦ rw same (again-IsWaiting _ q₁ (after q₁ c))
    ]

pub new_timer_queue-IsWaiting : IsWaiting nobody new_timer_queue
new_timer_queue-IsWaiting = record {
  sound = record { distinct = tt; handed_out = λ t held. cc };
  few = λ t. omega arith;
  waiting = λ t held. cc;
  fresh = λ t le. omega arith;
}

pub Ticks-IsWaiting :
    {callback : ℕ → TimerQueue → Result TimerQueue} {q q' : TimerQueue}
    → UsesQueue callback
    → IsWaiting nobody q
    → Ticks callback q q'
    → IsWaiting nobody q'
Ticks-IsWaiting u v idle = v
Ticks-IsWaiting u v (adds expires interval x) =
    add_timer-IsWaiting nobody expires interval _ (Ticks-IsWaiting u v x)
Ticks-IsWaiting u v (cancels t x) = cancel-IsWaiting nobody t _ (Ticks-IsWaiting u v x)
Ticks-IsWaiting {callback} u v (ends before after w error x m e) =
    handle_timer-IsWaiting callback w.timer w.interval _ _ u
      (take-IsWaiting before after w _ m (Ticks-IsWaiting u v x))
      (handle_timer-Outcome callback w.timer w.interval error _ _ e)

-- In every run each timer in the map has one wait under way, no timer has two, and one that is not
-- handed out yet has none.
pub each_waits_once :
    (callback : ℕ → TimerQueue → Result TimerQueue) (q : TimerQueue)
    → UsesQueue callback
    → Ticks callback new_timer_queue q
    → ((t : ℕ) → holds q.timer_queue t ≡ true → waits_of t q.waits ≡ 1)
      × ((t : ℕ) → waits_of t q.waits ≤ 1)
      × ((t : ℕ) → q.next_timer ≤ t → waits_of t q.waits ≡ 0)
each_waits_once callback q u x =
    let v = Ticks-IsWaiting u new_timer_queue-IsWaiting x in
    (
      λ t held. omega (arith, v.waiting t held),
      λ t. omega (arith, v.few t),
      λ t le. omega (arith, v.fresh t le),
    )
