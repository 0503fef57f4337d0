-- ===== src/ProcessTracker/Tracked.antt =====
-- internal/cli/process_tracker.go: the agreement lasts, and no sweep panics.
use adbfs.Base.{
  ℕ, suc, ◌+◌, ◌≡◌, refl, sym, ap, ◌∙◌, subst, true, false, List, ◌∷◌, ◌++◌, Text, length, none,
  some, done, arith, Bool-cases, Option-cases, inl, inr,
}
use adbfs.ProcessTracker.{ProcessInfo, ProcessTracker, go_locked, cancel, sweep, lookup, delete}
use adbfs.ProcessTracker.Schedule.{
  Thread, System, started, Step, checked, entered, refused, finished, swept_up, shut_down, waited,
  Run, stop, next,
}
use adbfs.ProcessTracker.Keys.{
  processes_of, Distinct, Left, IsTracked, processes_of-append, found_and_deleted, Left-append,
  Left-insert, Left-cancel, length-insert,
}

sweep_lem :
    (t : ProcessTracker) (p : ProcessInfo) (ps : List ProcessInfo) (n : ℕ)
    → lookup p.key t.processes ≡ some p
    → delete p.key t.processes ≡ ps
    → t.cancelled p.context ≡ true
    → t.waiting ≡ suc n
    → sweep t p.key ≡ done (record t { processes = ps; waiting = n })
unfolding sweep
sweep_lem t p ps n there gone own w = elim (Bool-cases t.shut) [
  | inl shut ↦ rw (there, shut, w, gone) refl
  | inr running ↦ rw (there, own, running, w, gone) refl
]

pub go_locked_lem :
    (t t' : ProcessTracker) (key : Text) (p : ProcessInfo)
    → go_locked t key ≡ some (t', p)
    → (lookup key t.processes ≡ none)
      × (t'.processes ≡ p ∷ t.processes)
      × (t'.waiting ≡ t.waiting + 1)
      × (t'.cancelled ≡ t.cancelled)
      × (p.key ≡ key)
      × (t'.shut ≡ t.shut)
unfolding go_locked
go_locked_lem t t' key p e = elim (Option-cases (lookup key t.processes)) [
  | inr (q, there) ↦ absurd (let no = rw there at e in cc)
  | inl fresh ↦ let made = rw fresh at e in (fresh, cc, cc, cc, cc, cc)
]

module _ (s : System) (h : IsTracked s) where
  -- What a goroutine that is to sweep makes of the tracker.
  pub sweep-done :
      (ts us : List Thread) (p : ProcessInfo)
      → s.threads ≡ ts ++ record { process = p; leaving = true } ∷ us
      → sweep s.tracker p.key
        ≡ done
            (record s.tracker { processes = processes_of (ts ++ us); waiting = length (ts ++ us) })
  sweep-done ts us p e =
      let at : s.tracker.processes ≡ processes_of ts ++ p ∷ processes_of us =
        h.same ∙ ap processes_of e ∙ processes_of-append ts _ in
      let (there, gone, distinct) =
        found_and_deleted (processes_of ts) (processes_of us) p (subst Distinct at h.distinct) in
      sweep_lem s.tracker p (processes_of (ts ++ us)) (length (ts ++ us))
        (ap (lookup p.key) at ∙ there)
        (ap (delete p.key) at ∙ gone ∙ sym (processes_of-append ts us))
        (let own =
            (Left-append s.tracker.cancelled ts us _
              (subst (Left s.tracker.cancelled) e h.left)).0 in
          ground (arith, own))
        (h.count ∙ ap length e ∙ length-insert ts us _)

  entered-IsTracked :
      (key : Text) (t : ProcessTracker) (p : ProcessInfo) (entering : List Text)
      → go_locked s.tracker key ≡ some (t, p)
      → IsTracked (record s {
        tracker = t;
        threads = record { process = p; leaving = false } ∷ s.threads;
        entering = entering;
      })
  entered-IsTracked key t p entering e =
      let (fresh, all, more, same, own, shut) = go_locked_lem s.tracker t key p e in
      record {
        same = all ∙ ap (λ r. p ∷ r) h.same;
        distinct = subst Distinct (sym all) (rw own fresh, h.distinct);
        count = omega (arith, more, h.count);
        left = (refl, subst (λ c. Left c s.threads) (sym same) h.left);
      }

  finished-IsTracked :
      (ts us : List Thread) (p : ProcessInfo)
      → s.threads ≡ ts ++ record { process = p; leaving = false } ∷ us
      → IsTracked (record s {
        tracker = cancel s.tracker p.context;
        threads = ts ++ record { process = p; leaving = true } ∷ us;
      })
  finished-IsTracked ts us p e =
      let c = s.tracker.cancelled in
      let (own, rest) = Left-append c ts us _ (subst (Left c) e h.left) in
      record {
        same =
            h.same
            ∙ ap processes_of e
            ∙ processes_of-append ts _
            ∙ sym (processes_of-append ts (record { process = p; leaving = true } ∷ us));
        distinct = h.distinct;
        count = h.count ∙ ap length e ∙ length-insert ts us _ ∙ sym (length-insert ts us _);
        left =
            Left-insert (cancel s.tracker p.context).cancelled ts us _ (ground arith)
              (Left-cancel s.tracker p.context (ts ++ us) rest);
      }

  swept-IsTracked :
      (ts us : List Thread) (p : ProcessInfo) (t : ProcessTracker)
      → s.threads ≡ ts ++ record { process = p; leaving = true } ∷ us
      → sweep s.tracker p.key ≡ done t
      → IsTracked (record s { tracker = t; threads = ts ++ us })
  swept-IsTracked ts us p t e f =
      let c = s.tracker.cancelled in
      let (own, rest) = Left-append c ts us _ (subst (Left c) e h.left) in
      let at : s.tracker.processes ≡ processes_of ts ++ p ∷ processes_of us =
        h.same ∙ ap processes_of e ∙ processes_of-append ts _ in
      let (there, gone, distinct) =
        found_and_deleted (processes_of ts) (processes_of us) p (subst Distinct at h.distinct) in
      let r = sym (sweep-done ts us p e) ∙ f in
      let same : processes_of (ts ++ us) ≡ t.processes = cc in
      record {
        same = sym same;
        distinct = subst Distinct (sym (processes_of-append ts us) ∙ same) distinct;
        count = cc;
        left = subst (λ d. Left d (ts ++ us)) (cc) rest;
      }

pub step-IsTracked : {s t : System} → IsTracked s → Step s t → IsTracked t
step-IsTracked h (checked key e) = record {
  same = h.same;
  distinct = h.distinct;
  count = h.count;
  left = h.left;
}
step-IsTracked {s} h (entered before after key t p e f) = entered-IsTracked s h key t p _ f
step-IsTracked h (refused before after key e f) = record {
  same = h.same;
  distinct = h.distinct;
  count = h.count;
  left = h.left;
}
step-IsTracked {s} h (finished before after p e) = finished-IsTracked s h before after p e
step-IsTracked {s} h (swept_up before after p t e f) = swept-IsTracked s h before after p t e f
step-IsTracked h shut_down = record {
  same = h.same;
  distinct = h.distinct;
  count = h.count;
  left = h.left;
}
step-IsTracked h (waited e f) = record {
  same = h.same;
  distinct = h.distinct;
  count = h.count;
  left = h.left;
}

run-IsTracked_from : {s t : System} → IsTracked s → Run s t → IsTracked t
run-IsTracked_from h stop = h
run-IsTracked_from h (next x r) = run-IsTracked_from (step-IsTracked h x) r

-- In whatever order the goroutines' steps come: the map has the processes of the running goroutines,
-- no two of one key, and the wait group counts them.
pub run-IsTracked : (s : System) → Run started s → IsTracked s
run-IsTracked s r =
    run-IsTracked_from (record { same = refl; distinct = _; count = refl; left = _ }) r

-- `sweep` of a goroutine that gets to it never panics, for its own sake or for the counter's, and it
-- takes that goroutine's process, and no other, out of the map.
sweep-processes :
    (s : System) (ts us : List Thread) (p : ProcessInfo)
    → Run started s
    → s.threads ≡ ts ++ record { process = p; leaving = true } ∷ us
    → sweep s.tracker p.key
      ≡ done (record s.tracker { processes = processes_of (ts ++ us); waiting = length (ts ++ us) })
sweep-processes s ts us p r e = sweep-done s (run-IsTracked s r) ts us p e
