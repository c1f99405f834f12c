-- ===== src/Base/WeakCallback.antt =====
-- src/base/WeakCallback.h: a callback on an object that may be gone. The object stands with the number
-- of the `shared_ptr` that own it, and is destroyed when there is none; the function may change both.
pub mod Owners
pub mod Tests
use lib_net_toy.Prelude.{
  ℕ, zero, suc, ◌-◌, Option, none, some, bad_function_call, Result, ok, fault, ◌>>=◌, ◌>>◌,
}

-- An object and how many own it.
pub record Shared {ℓ} (A : Type ℓ) : Type ℓ where
  pub value : A
  pub owners : ℕ

-- `boost::function<void (CLASS*)>`, which may be empty.
abbrev pub Function {ℓ} : Type ℓ → Type ℓ
Function A = Option (Shared A → Result (Shared A))

-- The function; `object_` points to the object that the calls are given.
pub record WeakCallback {ℓ} (A : Type ℓ) : Type ℓ where
  pub function : Function A

-- `object_.lock()`, and the end of the pointer that it gives.
abbrev pub lock {ℓ} : {A : Type ℓ} → Shared A → Option (Shared A)
lock s = elim s.owners [ zero ↦ none | suc n ↦ some (record s { owners = suc (suc n) }) ]

abbrev pub release {ℓ} : {A : Type ℓ} → Shared A → Shared A
release s = record s { owners = s.owners - 1 }

-- `operator()`
unfoldable pub call {ℓ} : {A : Type ℓ} → WeakCallback A → Shared A → Result (Shared A)
call w s = elim (lock s) [
  | none ↦ ok s
  | some held ↦ elim w.function [
    | none ↦ fault bad_function_call
    | some f ↦ do s₁ ← f held; ok (release s₁)
  ]
]

abbrev pub make_weak_callback {ℓ} : {A : Type ℓ} → Function A → WeakCallback A
make_weak_callback function = record { function = function }
