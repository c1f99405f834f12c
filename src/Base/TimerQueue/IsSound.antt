-- ===== src/Base/TimerQueue/IsSound.antt =====
-- What every run of the queue keeps: no timer is in the map twice, and all were handed out.
use lib_net_toy.Base.TimerQueue.Runs.{
  Acts-keeps, UsesQueue, Ticks, idle, adds, cancels, ends, expired, failed, called_once,
  called_again, handle_timer-Outcome,
}
use lib_net_toy.Base.TimerQueue.{handle_timer, cancel, add_timer, erase_timer, holds, TimerQueue}
use lib_net_toy.Prelude.{
  ℕ, ◌<◌, ◌≡◌, refl, inl, inr, Bool, true, false, ◌||◌, List, [], ◌∷◌, ◌++◌, arith, ◌==◌,
  Bool-cases, Result, ok,
}

-- No timer is in the map twice.
abbrev pub IsDistinct : List ℕ → Type 0
IsDistinct [] = Unit {0}
IsDistinct (x ∷ xs) = (holds xs x ≡ false) × IsDistinct xs

-- Every timer in the map was handed out, and none twice.
pub record IsSound (q : TimerQueue) : Type 0 where
  pub distinct : IsDistinct q.timer_queue
  pub handed_out : (t : ℕ) → holds q.timer_queue t ≡ true → t < q.next_timer

pub holds-append : (xs : List ℕ) (x t : ℕ) → holds (xs ++ x ∷ []) t ≡ (holds xs t || x == t)
holds-append [] x t = ground arith
holds-append (y ∷ ys) x t = ground (arith, holds-append ys x t)

pub holds-erase_timer : (t : ℕ) (xs : List ℕ) → IsDistinct xs → holds (erase_timer t xs) t ≡ false
holds-erase_timer t [] d = refl
holds-erase_timer t (x ∷ xs) d = ground (arith, holds-erase_timer t xs d.1)

pub erase_timer-fewer :
    (t u : ℕ) (xs : List ℕ) → holds (erase_timer t xs) u ≡ true → holds xs u ≡ true
erase_timer-fewer t u [] h = h
erase_timer-fewer t u (x ∷ xs) h = ground (arith, erase_timer-fewer t u xs)

pub erase_timer-absent :
    (u t : ℕ) (xs : List ℕ) → holds xs t ≡ false → holds (erase_timer u xs) t ≡ false
erase_timer-absent u t [] h = refl
erase_timer-absent u t (x ∷ xs) h = ground (arith, erase_timer-absent u t xs)

IsDistinct-append :
    (xs : List ℕ) (x : ℕ) → IsDistinct xs → holds xs x ≡ false → IsDistinct (xs ++ x ∷ [])
IsDistinct-append [] x d h = (refl, tt)
IsDistinct-append (y ∷ ys) x d h =
    (ground (arith, holds-append ys x y, d.0), IsDistinct-append ys x d.1 (ground arith))

erase_timer-IsDistinct : (t : ℕ) (xs : List ℕ) → IsDistinct xs → IsDistinct (erase_timer t xs)
erase_timer-IsDistinct t [] d = tt
erase_timer-IsDistinct t (x ∷ xs) d = elim (Bool-cases (x == t)) [
  | inl same ↦ rw same d.1
  | inr other ↦ rw other (erase_timer-absent t x xs d.0, erase_timer-IsDistinct t xs d.1)
]

pub add_timer-IsSound :
    (expires interval : ℕ) (q : TimerQueue) → IsSound q → IsSound (add_timer expires interval q).1
unfolding add_timer
add_timer-IsSound expires interval q s = record {
  distinct =
      IsDistinct-append q.timer_queue q.next_timer s.distinct
        (elim (Bool-cases (holds q.timer_queue q.next_timer)) [
          | inl held ↦ absurd (omega (arith, s.handed_out q.next_timer held))
          | inr new ↦ new
        ]);
  handed_out = λ t held. elim (Bool-cases (holds q.timer_queue t)) [
    | inl before ↦ omega (arith, s.handed_out t before)
    | inr after ↦ ground (arith, holds-append q.timer_queue q.next_timer t)
  ];
}

pub erase_timer-IsSound :
    (t : ℕ) (q : TimerQueue)
    → IsSound q
    → IsSound (record q { timer_queue = erase_timer t q.timer_queue })
erase_timer-IsSound t q s = record {
  distinct = erase_timer-IsDistinct t q.timer_queue s.distinct;
  handed_out = λ u held. s.handed_out u (erase_timer-fewer t u q.timer_queue held);
}

-- Only the map and the number of timers count.
pub same-IsSound :
    (q q' : TimerQueue)
    → q'.timer_queue ≡ q.timer_queue
    → q'.next_timer ≡ q.next_timer
    → IsSound q
    → IsSound q'
same-IsSound q q' m n s = record { distinct = rw m s.distinct; handed_out = rw (m, n) s.handed_out }

pub cancel-IsSound : (t : ℕ) (q : TimerQueue) → IsSound q → IsSound (cancel t q)
unfolding cancel
cancel-IsSound t q s = elim (Bool-cases (holds q.timer_queue t)) [
  | inl held ↦ rw held (erase_timer-IsSound t q s)
  | inr gone ↦ rw gone s
]

handle_timer-IsSound :
    (callback : ℕ → TimerQueue → Result TimerQueue) (t interval : ℕ) (error : Bool)
    (q q' : TimerQueue)
    → UsesQueue callback
    → handle_timer callback t interval error q ≡ ok q'
    → IsSound q
    → IsSound q'
handle_timer-IsSound callback t interval error q q' u e s =
    let after : (q₁ : TimerQueue)
        → callback t (record q { calls = q.calls ++ t ∷ [] }) ≡ ok q₁
        → IsSound q₁ =
      λ q₁ c.
        Acts-keeps IsSound add_timer-IsSound cancel-IsSound (u t _ q₁ c)
          (same-IsSound q _ refl refl s) in
    elim (handle_timer-Outcome callback t interval error q q' e) [
      | expired gone same ↦ rw same s
      | failed held same ↦ rw same (erase_timer-IsSound t q s)
      | called_once q₁ held c once there same ↦ rw same (erase_timer-IsSound t q₁ (after q₁ c))
      | called_again q₁ held c again same ↦ rw same (same-IsSound q₁ _ refl refl (after q₁ c))
    ]

pub Ticks-IsSound :
    {callback : ℕ → TimerQueue → Result TimerQueue} {q q' : TimerQueue}
    → UsesQueue callback
    → IsSound q
    → Ticks callback q q'
    → IsSound q'
Ticks-IsSound u s idle = s
Ticks-IsSound u s (adds expires interval p) =
    add_timer-IsSound expires interval _ (Ticks-IsSound u s p)
Ticks-IsSound u s (cancels t p) = cancel-IsSound t _ (Ticks-IsSound u s p)
Ticks-IsSound {callback} u s (ends before after w error p m e) =
    handle_timer-IsSound callback w.timer w.interval error _ _ u e
      (same-IsSound _ _ refl refl (Ticks-IsSound u s p))
