-- ===== src/Base/Logger/Tests.antt =====
-- Runs of the log.
use lib_net_toy.Base.Logger.{
  Logger, new_logger, init, set_display, log, display, call_display, c_text, console_log, trace,
}
use lib_net_toy.Prelude.{◌≡◌, refl, true, some, [], ◌∷◌}

-- `hi`, a NUL and `x` at the level that the filter drops.
abbrev after : Logger
after = log trace true (104 ∷ 105 ∷ 0 ∷ 120 ∷ []) (set_display (some console_log) (init new_logger))

printed_test : after.printed ≡ 108 ∷ 111 ∷ 103 ∷ 58 ∷ 104 ∷ 105 ∷ 10 ∷ []
unfolding log display call_display c_text
printed_test = refl

records_test : after.records ≡ []
unfolding log display call_display c_text
records_test = refl
