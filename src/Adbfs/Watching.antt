-- ===== src/Adbfs/Watching.antt =====
-- cmd/adbfs/main.go, `watchForDeviceDisconnected`: what its loop does, and that it does not end.
use adbfs.Base.{
  ℕ, zero, suc, ◌+◌, ◌≤◌, ◌≡◌, ap, ◌∙◌, if◌then◌else◌, List, [], ◌∷◌, Text, length, arith,
}
use adbfs.Flow.{in_select, Loop, looping, for_loop}
use adbfs.Adbfs.{
  DeviceStateChangedEvent, Watch, is_disconnection, received, watch_for_device_disconnected,
}

-- The events that the watcher reports of the device going offline.
abbrev pub disconnections : Text → List DeviceStateChangedEvent → ℕ
disconnections serial [] = 0
disconnections serial (e ∷ es) =
    (if is_disconnection serial e then 1 else 0) + disconnections serial es

abbrev looped : Text → ℕ → List DeviceStateChangedEvent → ℕ → Loop Watch Unit
looped serial n events calls =
    for_loop (λ (s : Watch). in_select (received serial s.calls s.events)) n
      (record { events = events; calls = calls })

looped_lem :
    (serial : Text) (n : ℕ) (events : List DeviceStateChangedEvent) (calls : ℕ)
    → length events ≤ n
    → looped serial n events calls
      ≡ looping (record { events = []; calls = calls + disconnections serial events })
unfolding for_loop
looped_lem serial zero [] calls h =
    ap (λ (c : ℕ). looping (record { events = []; calls = c })) (omega arith)
looped_lem serial zero (e ∷ es) calls h = absurd (omega (arith, h))
looped_lem serial (suc n) [] calls h = looped_lem serial n [] calls (omega arith)
looped_lem serial (suc n) (e ∷ es) calls h =
    looped_lem serial n es (if is_disconnection serial e then suc calls else calls)
      (omega (arith, h))
    ∙ ap (λ (c : ℕ). looping (record { events = []; calls = c })) (ground arith)

-- Of the events that the watcher reports before its channel is closed, `handleDeviceDisconnected` is
-- called once for each of the device going offline. After them the loop goes on with the closed
-- channel, for any number of rounds: its `break` leaves the `select` only, so that the function
-- neither shuts the watcher down nor logs its error.
pub watch_for_device_disconnected_lem :
    (serial : Text) (n : ℕ) (events : List DeviceStateChangedEvent)
    → length events ≤ n
    → watch_for_device_disconnected serial n events
      ≡ looping (record { events = []; calls = disconnections serial events })
unfolding watch_for_device_disconnected
watch_for_device_disconnected_lem serial n events h =
    looped_lem serial n events 0 h
    ∙ ap (λ (c : ℕ). looping (record { events = []; calls = c })) (omega arith)
