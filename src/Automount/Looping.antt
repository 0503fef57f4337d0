-- ===== src/Automount/Looping.antt =====
-- cmd/adbfs-automount/main.go, the loop of `mainWithExitCode`.
use adbfs.Base.{
  ℕ, zero, suc, ◌<◌, ◌≡◌, ap, Bool, true, false, ◌&&◌, List, [], ◌∷◌, ◌++◌, Text, length, Option,
  none, some, arith,
}
use adbfs.Flow.{in_select, Loop, returned, for_loop}
use adbfs.Automount.{
  Received, came_online, went_offline, unknown_event, watcher_quit, interrupted, killed,
  other_signal, Serving, serve_one, main_with_exit_code,
}

-- The exit code that something received leads to, if it ends the program.
abbrev pub exit_code : Received → Option ℕ
exit_code watcher_quit = some 1
exit_code interrupted = some 0
exit_code killed = some 0
exit_code r = none

abbrev goes_on_after : Received → Bool
goes_on_after watcher_quit = false
goes_on_after interrupted = false
goes_on_after killed = false
goes_on_after r = true

abbrev pub all_go_on : List Received → Bool
all_go_on [] = true
all_go_on (r ∷ rs) = goes_on_after r && all_go_on rs

-- The devices that came online, the last one first.
abbrev online_after : List Text → List Received → List Text
online_after serials [] = serials
online_after serials (came_online serial ∷ rs) = online_after (serial ∷ serials) rs
online_after serials (r ∷ rs) = online_after serials rs

abbrev pub online : List Received → List Text
online rs = online_after [] rs

looped : ℕ → List Received → List Text → Loop Serving ℕ
looped n received asked =
    for_loop (λ (s : Serving). in_select (serve_one s.coming s)) n
      (record { coming = received; asked = asked })

looped_lem :
    (n : ℕ) (before rest : List Received) (r : Received) (code : ℕ) (asked : List Text)
    → all_go_on before ≡ true
    → exit_code r ≡ some code
    → length before < n
    → looped n (before ++ r ∷ rest) asked
      ≡ returned code (record { coming = rest; asked = online_after asked before })
unfolding for_loop looped
looped_lem zero before rest r code asked h e k = absurd (omega (arith, k))
looped_lem (suc n) [] rest watcher_quit code asked h e k =
    ap (λ (c : ℕ). returned c (record { coming = rest; asked = asked })) (ground (arith, e))
looped_lem (suc n) [] rest interrupted code asked h e k =
    ap (λ (c : ℕ). returned c (record { coming = rest; asked = asked })) (ground (arith, e))
looped_lem (suc n) [] rest killed code asked h e k =
    ap (λ (c : ℕ). returned c (record { coming = rest; asked = asked })) (ground (arith, e))
looped_lem (suc n) [] rest (came_online s) code asked h e k = absurd (cc)
looped_lem (suc n) [] rest (went_offline s) code asked h e k = absurd (cc)
looped_lem (suc n) [] rest (unknown_event s) code asked h e k = absurd (cc)
looped_lem (suc n) [] rest other_signal code asked h e k = absurd (cc)
looped_lem (suc n) (watcher_quit ∷ before) rest r code asked h e k = absurd (cc)
looped_lem (suc n) (interrupted ∷ before) rest r code asked h e k = absurd (cc)
looped_lem (suc n) (killed ∷ before) rest r code asked h e k = absurd (cc)
looped_lem (suc n) (came_online s ∷ before) rest r code asked h e k =
    looped_lem n before rest r code (s ∷ asked) h e (omega (arith, k))
looped_lem (suc n) (went_offline s ∷ before) rest r code asked h e k =
    looped_lem n before rest r code asked h e (omega (arith, k))
looped_lem (suc n) (unknown_event s ∷ before) rest r code asked h e k =
    looped_lem n before rest r code asked h e (omega (arith, k))
looped_lem (suc n) (other_signal ∷ before) rest r code asked h e k =
    looped_lem n before rest r code asked h e (omega (arith, k))

-- The loop goes on until the device watcher quits, when the program ends with the exit code 1, or
-- until it is interrupted or killed, when it ends with 0, however many rounds more it is given; by
-- then `mountDevice` has been asked for each time that a device came online, and for nothing else.
pub main_with_exit_code-returned :
    (n : ℕ) (before rest : List Received) (r : Received) (code : ℕ)
    → all_go_on before ≡ true
    → exit_code r ≡ some code
    → length before < n
    → main_with_exit_code n (before ++ r ∷ rest)
      ≡ returned code (record { coming = rest; asked = online before })
unfolding main_with_exit_code looped
main_with_exit_code-returned n before rest r code h e k = looped_lem n before rest r code [] h e k
