-- ===== src/Adbfs/StartServer.antt =====
-- cmd/adbfs/main.go, `startServer`: the goroutines that serve and that wait for the mount, the timer,
-- and the select that waits for the first of them.
use adbfs.Base.{◌≡◌, ◌⊎◌, inl, inr, refl, Bool, true, false, Option, none, some}

pub data Started : Type 0 where
  ready unknown_error timed_out : Started

-- Whether `serverDone` and `serverReady` are closed, as `server.Serve` and `server.WaitMount` have
-- returned, whether the timer has fired, and what `startServer` has returned.
pub record Starting : Type 0 where
  pub server_done : Bool
  pub server_ready : Bool
  pub fired : Bool
  pub returned : Option Started

abbrev pub begun : Starting
begun = record { server_done = false; server_ready = false; fired = false; returned = none }

-- Where several channels are ready, the select takes any of them.
pub data Step : Starting → Starting → Type 0 where
  serve_returns : {s : Starting} → Step s (record s { server_done = true })
  wait_mount_returns : {s : Starting} → Step s (record s { server_ready = true })
  fires : {s : Starting} → Step s (record s { fired = true })
  takes_ready :
      {s : Starting}
      → s.returned ≡ none
      → s.server_ready ≡ true
      → Step s (record s { returned = some ready })
  takes_done :
      {s : Starting}
      → s.returned ≡ none
      → s.server_done ≡ true
      → Step s (record s { returned = some unknown_error })
  takes_timer :
      {s : Starting}
      → s.returned ≡ none
      → s.fired ≡ true
      → Step s (record s { returned = some timed_out })

pub data Run : Starting → Starting → Type 0 where
  stop : {s : Starting} → Run s s
  next : {r s t : Starting} → Step r s → Run s t → Run r t

-- What has happened by the time that it has returned.
abbrev pub explained : Starting → Option Started → Bool
explained s none = true
explained s (some ready) = s.server_ready
explained s (some unknown_error) = s.server_done
explained s (some timed_out) = s.fired

abbrev pub IsExplained : Starting → Type 0
IsExplained s = explained s s.returned ≡ true

grows :
    (s t : Starting) (o : Option Started)
    → (s.server_done ≡ true → t.server_done ≡ true)
    → (s.server_ready ≡ true → t.server_ready ≡ true)
    → (s.fired ≡ true → t.fired ≡ true)
    → explained s o ≡ true
    → explained t o ≡ true
grows s t none f g h e = refl
grows s t (some ready) f g h e = g e
grows s t (some unknown_error) f g h e = f e
grows s t (some timed_out) f g h e = h e

step-IsExplained : {s t : Starting} → IsExplained s → Step s t → IsExplained t
step-IsExplained {s} k serve_returns =
    grows s (record s { server_done = true }) s.returned (λ _. refl) (λ e. e) (λ e. e) k
step-IsExplained {s} k wait_mount_returns =
    grows s (record s { server_ready = true }) s.returned (λ e. e) (λ _. refl) (λ e. e) k
step-IsExplained {s} k fires =
    grows s (record s { fired = true }) s.returned (λ e. e) (λ e. e) (λ _. refl) k
step-IsExplained k (takes_ready e h) = h
step-IsExplained k (takes_done e h) = h
step-IsExplained k (takes_timer e h) = h

run-IsExplained : {s t : Starting} → IsExplained s → Run s t → IsExplained t
run-IsExplained k stop = k
run-IsExplained k (next x r) = run-IsExplained (step-IsExplained k x) r

abbrev pub HasReturned : Starting → Type 0
HasReturned s = (o : Started) × (s.returned ≡ some o)

-- However the goroutines' steps come: what `startServer` has returned, if it has, is its success only
-- if the mount was waited for, the unknown error only if the server has stopped, and the other error
-- only if the timer has fired; and while it has not returned, there are steps after which it has, even
-- where neither goroutine returns.
start_server-returned :
    (s : Starting)
    → Run begun s
    → IsExplained s
      × (HasReturned s
          ⊎ ((t : Starting) × Run s t
              × HasReturned t
              × (t.server_done ≡ s.server_done)
              × (t.server_ready ≡ s.server_ready)))
start_server-returned s r = (run-IsExplained refl r, in_the_end s.returned refl)
  where
    in_the_end :
        (o : Option Started)
        → s.returned ≡ o
        → HasReturned s
          ⊎ ((t : Starting) × Run s t
              × HasReturned t
              × (t.server_done ≡ s.server_done)
              × (t.server_ready ≡ s.server_ready))
    in_the_end (some o) e = inl (o, e)
    in_the_end none e = inr (
      record s { fired = true; returned = some timed_out },
      next fires (next (takes_timer e refl) stop),
      (timed_out, refl),
      refl,
      refl,
    )
