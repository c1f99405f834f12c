-- ===== src/Base/WeakCallback/Owners.antt =====
-- How long the object of a callback lives.
use lib_net_toy.Base.WeakCallback.{Shared, WeakCallback, release, call, make_weak_callback}
use lib_net_toy.Prelude.{
  ℕ, zero, suc, ◌+◌, ◌-◌, ◌≤◌, ◌<◌, ◌≡◌, refl, ap, ◌∙◌, some, arith, Result, ok, ◌>>=◌,
}

-- A function that returns, with `n` of the owners gone that it found; the callback's own pointer is
-- not among them.
abbrev pub LetsGo {ℓ} : {A : Type ℓ} → (Shared A → Result (Shared A)) → ℕ → Type ℓ
LetsGo {A = A} f n =
    (s : Shared A) → n < s.owners → (s' : Shared A) × (f s ≡ ok s') × (s'.owners + n ≡ s.owners)

call-owned {ℓ} :
    {A : Type ℓ} (f : Shared A → Result (Shared A)) (v : A) (n : ℕ) (s' : Shared A)
    → 1 ≤ n
    → f (record { value = v; owners = n + 1 }) ≡ ok s'
    → call (make_weak_callback (some f)) (record { value = v; owners = n }) ≡ ok (release s')
unfolding call
call-owned f v zero s' le e = absurd (omega arith)
call-owned f v (suc n) s' le e =
    ap (λ r. r >>= (λ s. ok (release s)))
      (ap (λ k. f (record { value = v; owners = k })) (omega arith) ∙ e)

call-gone {ℓ} :
    {A : Type ℓ} (w : WeakCallback A) (v : A) (n : ℕ)
    → n ≡ 0
    → call w (record { value = v; owners = n }) ≡ ok (record { value = v; owners = n })
unfolding call
call-gone w v zero e = refl
call-gone w v (suc n) e = absurd (omega (arith, e))

-- While its function runs, the object of a callback has an owner, even if the function lets go of all
-- the others. Behind the call it has those that are left, and if there are none a second call does
-- nothing.
pub call_lem {ℓ} :
    {A : Type ℓ} (f : Shared A → Result (Shared A)) (n : ℕ) (s : Shared A)
    → LetsGo f n
    → 1 ≤ s.owners
    → n ≤ s.owners
    → (s' : Shared A) × (f (record s { owners = s.owners + 1 }) ≡ ok s')
      × (1 ≤ s'.owners)
      × (call (make_weak_callback (some f)) s ≡ ok (release s'))
      × ((release s').owners + n ≡ s.owners)
      × (n ≡ s.owners
          → (call (make_weak_callback (some f)) s >>= call (make_weak_callback (some f)))
            ≡ call (make_weak_callback (some f)) s)
unfolding call
call_lem {A = A} f n s l one le =
    let w : WeakCallback A = make_weak_callback (some f) in
    let (s', e, k) = l (record s { owners = s.owners + 1 }) (omega arith) in
    let first : call w s ≡ ok (release s') = call-owned f s.value s.owners s' one e in
    (
      s',
      e,
      omega (arith, k),
      first,
      omega (arith, k),
      λ all. rw first (call-gone w s'.value (s'.owners - 1) (omega (arith, k))),
    )
