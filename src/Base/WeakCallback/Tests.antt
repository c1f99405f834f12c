-- ===== src/Base/WeakCallback/Tests.antt =====
-- An object that is a number, with one owner, and a callback that counts it up and lets go of it.
use lib_net_toy.Base.WeakCallback.{Shared, call, make_weak_callback}
use lib_net_toy.Prelude.{ℕ, ◌+◌, ◌-◌, ◌≡◌, refl, some, Result, ok, ◌>>=◌}

abbrev object : Shared ℕ
object = record { value = 4; owners = 1 }

abbrev count : Shared ℕ → Result (Shared ℕ)
count s = ok (record s { value = s.value + 1; owners = s.owners - 1 })

call_test : call (make_weak_callback (some count)) object ≡ ok (record { value = 5; owners = 0 })
unfolding call
call_test = refl

again_test :
    (call (make_weak_callback (some count)) object >>= call (make_weak_callback (some count)))
    ≡ ok (record { value = 5; owners = 0 })
unfolding call
again_test = refl
