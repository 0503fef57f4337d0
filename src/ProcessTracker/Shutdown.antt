-- ===== src/ProcessTracker/Shutdown.antt =====
-- internal/cli/process_tracker.go, `Shutdown`: that its wait can end, and what may come after it.
use adbfs.Base.{
  ℕ, zero, suc, ◌+◌, ◌*◌, ◌≤◌, ◌<◌, ◌≡◌, ◌⊎◌, inl, inr, refl, ap, ◌∙◌, true, false, if◌then◌else◌,
  List, [], ◌∷◌, Text, length, arith, Bool-cases, Option-cases,
}
use adbfs.ProcessTracker.{go_locked, is_context_already_done}
use adbfs.ProcessTracker.Schedule.{
  Thread, System, started, Step, checked, entered, refused, finished, swept_up, shut_down, waited,
  Run, stop, next,
}
use adbfs.ProcessTracker.Keys.{IsTracked, processes_of}
use adbfs.ProcessTracker.Tracked.{go_locked_lem, sweep-done, step-IsTracked, run-IsTracked}

-- How many steps the goroutines have yet to make.
abbrev work_of : List Thread → ℕ
work_of [] = 0
work_of (t ∷ ts) = (if t.leaving then 1 else 2) + work_of ts

abbrev work : System → ℕ
work s = 3 * length s.entering + work_of s.threads

Less : System → Type 0
Less s = (t : System) × Step s t × (work t < work s) × (t.tracker.shut ≡ true)

-- Every caller of `Go` and every goroutine has a next step.
enter_one :
    (s : System) (key : Text) (keys : List Text)
    → s.tracker.shut ≡ true
    → s.entering ≡ key ∷ keys
    → Less s
unfolding Less
enter_one s key keys shut e = elim (Option-cases (go_locked s.tracker key)) [
  | inl running ↦ (_, refused [] keys key e running, omega (arith, ap length e), shut)
  | inr ((t, p), fresh) ↦
      let (free, all, more, same, own, kept) = go_locked_lem s.tracker t key p fresh in
      (_, entered [] keys key t p e fresh, omega (arith, ap length e), kept ∙ shut)
]

leave_one :
    (s : System) (t : Thread) (ts : List Thread)
    → IsTracked s
    → s.tracker.shut ≡ true
    → s.threads ≡ t ∷ ts
    → Less s
unfolding Less
leave_one s t ts h shut e = elim (Bool-cases t.leaving) [
  | inl leaving ↦
      let own : t ≡ record { process = t.process; leaving = true } =
        λ i. record { process = t.process; leaving = leaving i } in
      let at = e ∙ ap (λ x. x ∷ ts) own in
      (
        _,
        swept_up [] ts t.process _ at (sweep-done s h [] ts t.process at),
        omega (arith, ap work_of at),
        shut,
      )
  | inr running ↦
      let own : t ≡ record { process = t.process; leaving = false } =
        λ i. record { process = t.process; leaving = running i } in
      let at = e ∙ ap (λ x. x ∷ ts) own in
      (_, finished [] ts t.process at, omega (arith, ap work_of at), shut)
]

List-cases : {A : Type 0} (xs : List A) → (xs ≡ []) ⊎ ((x : A) × (ys : List A) × (xs ≡ x ∷ ys))
List-cases [] = inl refl
List-cases (x ∷ xs) = inr (x, xs, refl)

Drained : System → Type 0
Drained s =
    (t : System) × Run s t
    × (t.threads ≡ [])
    × (t.entering ≡ [])
    × Step t (record t { returned = true })

busy-Less :
    (s : System)
    → IsTracked s
    → s.tracker.shut ≡ true
    → Less s ⊎ ((s.threads ≡ []) × (s.entering ≡ []))
busy-Less s h shut = elim (List-cases s.entering) [
  | inr (key, keys, e) ↦ inl (enter_one s key keys shut e)
  | inl out ↦ elim (List-cases s.threads) [
    | inr (t, ts, e) ↦ inl (leave_one s t ts h shut e)
    | inl gone ↦ inr (gone, out)
  ]
]

drain : (n : ℕ) (s : System) → IsTracked s → s.tracker.shut ≡ true → work s ≤ n → Drained s
unfolding Less Drained
drain zero s h shut small = elim (busy-Less s h shut) [
  | inl (t, x, less, kept) ↦ absurd (omega (arith, less, small))
  | inr (gone, out) ↦ (s, stop, gone, out, waited shut (h.count ∙ ap length gone))
]
drain (suc n) s h shut small = elim (busy-Less s h shut) [
  | inl (t, x, less, kept) ↦
      let (r, run, gone, out, end) =
        drain n t (step-IsTracked h x) kept (omega (arith, less, small)) in
      (r, next x run, gone, out, end)
  | inr (gone, out) ↦ (s, stop, gone, out, waited shut (h.count ∙ ap length gone))
]

-- After `Shutdown` has cancelled the base context, whatever steps have been taken: there are steps
-- after which no goroutine and no caller of `Go` is left and the wait ends.
pub shut_down-waited :
    (s : System)
    → Run started s
    → s.tracker.shut ≡ true
    → (t : System) × Run s t
      × (t.threads ≡ [])
      × (t.entering ≡ [])
      × Step t (record t { returned = true })
unfolding Drained
shut_down-waited s r shut = drain (work s) s (run-IsTracked s r) shut (omega arith)

-- For any key: a process may be started after `Shutdown` has returned, by a caller of `Go` that has
-- made its check before. Its context is done from the start.
pub entered-waited :
    (key : Text)
    → (s : System) × Run started s
      × (s.returned ≡ true)
      × (processes_of s.threads ≡ record { key = key; context = 0 } ∷ [])
      × (s.tracker.waiting ≡ 1)
      × (is_context_already_done s.tracker 0 ≡ true)
unfolding go_locked
entered-waited key = (
  _,
  next (checked key refl)
      (next shut_down (next (waited refl refl) (next (entered [] [] key _ _ refl refl) stop))),
  refl,
  refl,
  refl,
  refl,
)
