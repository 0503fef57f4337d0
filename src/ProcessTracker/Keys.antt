-- ===== src/ProcessTracker/Keys.antt =====
-- internal/cli/process_tracker.go: the map, the counter and the goroutines agree.
use adbfs.Base.{
  ℕ, suc, ◌≡◌, refl, sym, ap, Bool, true, false, not, ◌||◌, List, [], ◌∷◌, ◌++◌, Text, text_eq,
  text_eq_iff, text_eq_refl, length, none, some, arith, Bool-cases, inl, inr,
}
use adbfs.ProcessTracker.{ProcessInfo, ProcessTracker, cancel, lookup, delete}
use adbfs.ProcessTracker.Schedule.{Thread, System}

abbrev pub processes_of : List Thread → List ProcessInfo
processes_of [] = []
processes_of (t ∷ ts) = t.process ∷ processes_of ts

abbrev pub Distinct : List ProcessInfo → Type 0
Distinct [] = Unit
Distinct (p ∷ ps) = (lookup p.key ps ≡ none) × Distinct ps

-- The contexts of the goroutines that are leaving are cancelled.
abbrev pub Left : (ℕ → Bool) → List Thread → Type 0
Left cancelled [] = Unit
Left cancelled (t ∷ ts) = (not t.leaving || cancelled t.process.context ≡ true) × Left cancelled ts

pub record IsTracked (s : System) : Type 0 where
  pub same : s.tracker.processes ≡ processes_of s.threads
  pub distinct : Distinct s.tracker.processes
  pub count : s.tracker.waiting ≡ length s.threads
  pub left : Left s.tracker.cancelled s.threads

pub processes_of-append :
    (ts us : List Thread) → processes_of (ts ++ us) ≡ processes_of ts ++ processes_of us
processes_of-append [] us = refl
processes_of-append (t ∷ ts) us = ap (λ r. t.process ∷ r) (processes_of-append ts us)

text_eq_sym : (s t : Text) → text_eq s t ≡ false → text_eq t s ≡ false
text_eq_sym s t h = elim (Bool-cases (text_eq t s)) [
  | inl same ↦
      absurd
        (let e : text_eq s t ≡ true = (text_eq_iff s t).1 (sym ((text_eq_iff t s).0 same)) in cc)
  | inr differ ↦ differ
]

lookup-append :
    (key : Text) (ps qs : List ProcessInfo) (p : ProcessInfo)
    → lookup key (ps ++ p ∷ qs) ≡ none
    → (text_eq p.key key ≡ false) × (lookup key (ps ++ qs) ≡ none)
lookup-append key [] qs p h = (ground (arith, h), ground (arith, h))
lookup-append key (q ∷ ps) qs p h =
    let (differ, rest) = lookup-append key ps qs p (ground (arith, h)) in
    (differ, ground (arith, h, rest))

-- The process of a key, found_and_deleted and deleted.
pub found_and_deleted :
    (ps qs : List ProcessInfo) (p : ProcessInfo)
    → Distinct (ps ++ p ∷ qs)
    → (lookup p.key (ps ++ p ∷ qs) ≡ some p)
      × (delete p.key (ps ++ p ∷ qs) ≡ ps ++ qs)
      × Distinct (ps ++ qs)
found_and_deleted [] qs p h = (rw (text_eq_refl p.key) refl, rw (text_eq_refl p.key) refl, h.1)
found_and_deleted (q ∷ ps) qs p h =
    let (there, gone, distinct) = found_and_deleted ps qs p h.1 in
    let (differ, fresh) = lookup-append q.key ps qs p h.0 in
    let apart = text_eq_sym p.key q.key differ in
    (rw apart there, rw apart (ap (λ r. q ∷ r) gone), (fresh, distinct))

pub Left-append :
    (c : ℕ → Bool) (ts us : List Thread) (t : Thread)
    → Left c (ts ++ t ∷ us)
    → (not t.leaving || c t.process.context ≡ true) × Left c (ts ++ us)
Left-append c [] us t h = h
Left-append c (x ∷ ts) us t h = let (own, rest) = Left-append c ts us t h.1 in (own, (h.0, rest))

pub Left-insert :
    (c : ℕ → Bool) (ts us : List Thread) (t : Thread)
    → (not t.leaving || c t.process.context ≡ true)
    → Left c (ts ++ us)
    → Left c (ts ++ t ∷ us)
Left-insert c [] us t own h = (own, h)
Left-insert c (x ∷ ts) us t own h = (h.0, Left-insert c ts us t own h.1)

pub Left-cancel :
    (t : ProcessTracker) (c : ℕ) (ts : List Thread)
    → Left t.cancelled ts
    → Left (cancel t c).cancelled ts
Left-cancel t c [] h = h
Left-cancel t c (x ∷ ts) h = (ground (arith, h.0), Left-cancel t c ts h.1)

pub length-insert :
    (ts us : List Thread) (t : Thread) → length (ts ++ t ∷ us) ≡ suc (length (ts ++ us))
length-insert [] us t = refl
length-insert (x ∷ ts) us t = ap suc (length-insert ts us t)
