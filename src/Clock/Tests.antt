-- ===== src/Clock/Tests.antt =====
-- internal/util/clock.go: three readings, with an advance in between.
use adbfs.Base.{◌≡◌, refl, [], ◌∷◌}
use adbfs.Clock.{reset, now, now_call, advance_call, readings}

three :
    readings (now_call ∷ now_call ∷ advance_call 5 ∷ now_call ∷ []) reset
    ≡ 1000000000 ∷ 1000000001 ∷ 1000000007 ∷ []
unfolding readings now
three = refl
