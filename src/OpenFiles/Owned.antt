-- ===== src/OpenFiles/Owned.antt =====
-- open_files.go under interleaving: nothing that the map reaches is abandoned.
use adbfs.Base.{
  ℕ, ◌+◌, ◌-◌, ◌^◌, ◌≤◌, ◌<◌, ◌≡◌, ◌⊎◌, refl, ap, ◌∙◌, if◌then◌else◌, ==_iff, Option, none, some,
  Text, text_eq_iff, ℤ, pos, negsuc, pos_part, neg_part, Outcome, done, panic, ◌>>=◌, arith,
  Option-cases, Bool-cases, inl, inr,
}
use adbfs.Errors.{Result, ok, err, ErrUtil}
use adbfs.Device.{DeviceClient}
use adbfs.FileBuffer.{FileBuffer, inc_ref_count, dec_ref_count}
use adbfs.FileBuffer.Identity.{new_file_buffer-Same}
use adbfs.FileBuffer.Editing.{inc_ref_count_lem, dec_ref_count_done}
use adbfs.OpenFiles.{
  OpenFiles, new_open_files, store, bind, is_zero, retain, add, loaded, get_or_load, release,
  drop_count,
}
use adbfs.OpenFiles.Invariant.{Room, retain_lem}
use adbfs.OpenFiles.Schedule.{
  Running, Step, opened, used, counted, handled, set_pending, started, Run, stop, next,
}

-- The count of a buffer is not negative and has not wrapped around.
abbrev Counted : FileBuffer → Type 0
Counted f = (neg_part f.ref_count ≡ 0) × (pos_part f.ref_count < 2 ^ 31)

-- What a path maps to, where so many handlers of it are yet to run.
abbrev Claimed : Text → ℕ → Option FileBuffer → Type 0
Claimed p k none = ⊥
Claimed p k (some f) = (f.path ≡ p) × ((0 < pos_part f.ref_count) ⊎ (0 < k))

pub record IsOwned (o : OpenFiles) (pending : ℕ → ℕ) : Type 0 where
  pub unused : (i : ℕ) → o.next ≤ i → o.buffers i ≡ none
  pub sound : (i : ℕ) (f : FileBuffer) → o.buffers i ≡ some f → Counted f
  -- A path maps to a buffer of that path which some file is open on, or whose handler is yet to run.
  pub claimed : (p : Text) (i : ℕ) → o.by_path p ≡ some i → Claimed p (pending i) (o.buffers i)

new_open_files-IsOwned : (t : ℕ) → IsOwned (new_open_files t) (λ i. 0)
unfolding new_open_files
new_open_files-IsOwned t = record {
  unused = λ i h. refl;
  sound = λ i f e. absurd (cc);
  claimed = λ p i e. absurd (cc);
}

-- Another buffer of the same path in the place of one.
store-IsOwned :
    (o : OpenFiles) (pending later : ℕ → ℕ) (i : ℕ) (f g : FileBuffer)
    → IsOwned o pending
    → o.buffers i ≡ some f
    → g.path ≡ f.path
    → Counted g
    → (pos_part g.ref_count ≡ pos_part f.ref_count) ⊎ (0 < pos_part g.ref_count) ⊎ (0 < later i)
    → ((j : ℕ) → pending j ≤ later j)
    → IsOwned (store o i g) later
store-IsOwned o pending later i f g v e same ok_g kept more = record {
  unused = λ j h. ground (arith, v.unused j h, v.unused i);
  sound = λ j x b. ground (arith, v.sound j x);
  claimed = λ p j m. ground (arith, v.claimed p j m, more j);
}

added-IsOwned :
    (o : OpenFiles) (pending : ℕ → ℕ) (path : Text) (f g : FileBuffer)
    → IsOwned o pending
    → g.path ≡ path
    → Counted g
    → 0 < pos_part g.ref_count
    → IsOwned (store (add o path f) o.next g) pending
unfolding add
added-IsOwned o pending path f g v same ok_g held = record {
  unused = λ j h. ground (arith, v.unused j);
  sound = λ j x b. ground (arith, v.sound j x);
  claimed = λ p j m. ground (arith, v.claimed p j, text_eq_iff path p, v.unused o.next);
}

-- A handler that finds the buffer without open files forgets its path.
forgotten-IsOwned :
    (o : OpenFiles) (pending : ℕ → ℕ) (i k : ℕ) (f : FileBuffer)
    → IsOwned o pending
    → o.buffers i ≡ some f
    → IsOwned (bind o f.path none) (set_pending pending i k)
forgotten-IsOwned o pending i k f v e = record {
  unused = v.unused;
  sound = v.sound;
  claimed = λ p j m. ground (arith, v.claimed p j, text_eq_iff f.path p);
}

-- A handler that finds it with some does nothing.
left-IsOwned :
    (o : OpenFiles) (pending : ℕ → ℕ) (i k : ℕ)
    → IsOwned o pending
    → (o.buffers i ≡ none)
      ⊎ ((f : FileBuffer) × (o.buffers i ≡ some f) × (0 < pos_part f.ref_count))
    → IsOwned o (set_pending pending i k)
left-IsOwned o pending i k v held = record {
  unused = v.unused;
  sound = v.sound;
  claimed = λ p j m. ground (arith, v.claimed p j m);
}

positive : (z : ℤ) → 0 < pos_part z → neg_part z ≡ 0
positive (pos n) h = refl
positive (negsuc n) h = omega arith

retain-IsOwned :
    (o : OpenFiles) (pending : ℕ → ℕ) (path : Text) (i : ℕ)
    → IsOwned o pending
    → Room o path
    → o.by_path path ≡ some i
    → IsOwned (retain o i) pending
retain-IsOwned o pending path i v room at = elim (Option-cases (o.buffers i)) [
  | inl e ↦ absurd (rw e at (v.claimed path i at))
  | inr (f, e) ↦
      let (same, more) = inc_ref_count_lem f (v.sound i f e).0 (room i f at e) in
      rw (retain_lem o i f e) (
        store-IsOwned o pending pending i f (inc_ref_count f).0 v e same
          (
            positive (inc_ref_count f).0.ref_count (omega (arith, more)),
            omega (arith, more, room i f at e),
          )
          (ground (arith, more)) (λ j. omega arith))
]

release-IsOwned :
    (o : OpenFiles) (pending : ℕ → ℕ) (i k : ℕ)
    → IsOwned o pending
    → IsOwned (release o i) (set_pending pending i k)
unfolding release
release-IsOwned o pending i k v = elim (Option-cases (o.buffers i)) [
  | inl e ↦ rw (e, release) (left-IsOwned o pending i k v (inl e))
  | inr (f, e) ↦ elim (Bool-cases (is_zero f.ref_count)) [
    | inl z ↦ rw (e, release, z) (forgotten-IsOwned o pending i k f v e)
    | inr z ↦
        rw (e, release, z)
          (left-IsOwned o pending i k v (inr (f, e, ground (arith, z, v.sound i f e))))
  ]
]

-- A new buffer, with the file that it is made for.
new-IsOwned :
    (o : OpenFiles) (pending : ℕ → ℕ) (path : Text) (f : FileBuffer)
    → IsOwned o pending
    → f.path ≡ path
    → f.ref_count ≡ pos 0
    → IsOwned (retain (add o path f) o.next) pending
unfolding add
new-IsOwned o pending path f v same zero_count =
    let (kept, more) = inc_ref_count_lem f (rw zero_count) (rw zero_count (omega arith)) in
    rw (retain_lem (add o path f) o.next f (rw ((==_iff o.next o.next).1 refl))) (
      added-IsOwned o pending path f (inc_ref_count f).0 v (kept ∙ same)
        (
          positive (inc_ref_count f).0.ref_count (omega (arith, more)),
          omega (arith, more, ap pos_part zero_count),
        )
        (omega (arith, more)))

module _ {W : Type 0} (u : ErrUtil) (d : DeviceClient W) where
  loaded-IsOwned :
      (o : OpenFiles) (pending : ℕ → ℕ) (path : Text) (r : Result FileBuffer × W)
      → IsOwned o pending
      → ((f : FileBuffer) → r.0 ≡ ok f → (f.path ≡ path) × (f.ref_count ≡ pos 0))
      → IsOwned (loaded u d o path r).files pending
  unfolding loaded
  loaded-IsOwned o pending path (err e, w) v made = v
  loaded-IsOwned o pending path (ok f, w) v made =
      new-IsOwned o pending path f v (made f refl).0 (made f refl).1

  get_or_load-IsOwned :
      (o : OpenFiles) (pending : ℕ → ℕ) (path : Text) (flags perms now : ℕ) (w : W)
      → IsOwned o pending
      → Room o path
      → IsOwned (get_or_load u d o path flags perms now w).files pending
  unfolding get_or_load
  get_or_load-IsOwned o pending path flags perms now w v room =
      elim (Option-cases (o.by_path path)) [
        | inl e ↦
            rw (e, get_or_load)
              (loaded-IsOwned o pending path _ v
                (λ f k. new_file_buffer-Same u d flags path perms o.dirty_timeout now w f k))
        | inr (i, e) ↦ rw (e, get_or_load) (retain-IsOwned o pending path i v room e)
      ]

count_done :
    (o o' : OpenFiles) (i : ℕ) (n : ℤ) (f : FileBuffer) (r : Outcome (FileBuffer × ℤ))
    → Counted f
    → dec_ref_count f ≡ r
    → ◌>>=◌ {B = OpenFiles × ℤ} r (λ x. done (store o i x.0, x.1)) ≡ done (o', n)
    → (0 < pos_part f.ref_count)
      × (o' ≡ store o i (record f { ref_count = pos (pos_part f.ref_count - 1) }))
      × (n ≡ pos (pos_part f.ref_count - 1))
count_done o o' i n f panic c d e = absurd (cc)
count_done o o' i n f (done (g, m)) c d e =
    let (held, is_g, is_m) = dec_ref_count_done f g m c.0 c.1 d in
    (held, rw (← is_g) (cc), rw (← is_m) (cc))

drop_count_done :
    (o o' : OpenFiles) (pending : ℕ → ℕ) (i : ℕ) (n : ℤ)
    → IsOwned o pending
    → drop_count o i ≡ done (o', n)
    → (f : FileBuffer) × (o.buffers i ≡ some f)
      × (0 < pos_part f.ref_count)
      × (o' ≡ store o i (record f { ref_count = pos (pos_part f.ref_count - 1) }))
      × (n ≡ pos (pos_part f.ref_count - 1))
unfolding drop_count
drop_count_done o o' pending i n v e = elim (Option-cases (o.buffers i)) [
  | inl k ↦ ground (arith, rw (k, drop_count) at e)
  | inr (f, k) ↦
      let (held, is_o, is_n) =
        count_done o o' i n f (dec_ref_count f) (v.sound i f k) refl (rw (k, drop_count) at e) in
      (f, k, held, is_o, is_n)
]

counted-IsOwned :
    (o o' : OpenFiles) (pending : ℕ → ℕ) (i : ℕ) (n : ℤ)
    → IsOwned o pending
    → drop_count o i ≡ done (o', n)
    → IsOwned o' (if is_zero n then set_pending pending i (pending i + 1) else pending)
counted-IsOwned o o' pending i n v e =
    let (f, at, held, is_o, is_n) = drop_count_done o o' pending i n v e in
    rw (is_o, is_n)
      (store-IsOwned o pending _ i f _ v at refl (refl, ground (arith, v.sound i f at))
        (ground arith) (λ j. ground arith))

module _ {W : Type 0} (u : ErrUtil) (d : DeviceClient W) where
  Step-IsOwned :
      {s t : Running W} → Step u d s t → IsOwned s.files s.pending → IsOwned t.files t.pending
  Step-IsOwned {s = s} (opened path flags perms now room) v =
      get_or_load-IsOwned u d s.files s.pending path flags perms now s.world v room
  Step-IsOwned {s = s} (used i f g w at same count) v =
      store-IsOwned s.files s.pending s.pending i f g v at same (rw count (v.sound i f at))
        (inl (ap pos_part count)) (λ j. omega arith)
  Step-IsOwned {s = s} (counted i o n e) v = counted-IsOwned s.files o s.pending i n v e
  Step-IsOwned {s = s} (handled i k e) v = release-IsOwned s.files s.pending i k v

  kept-IsOwned :
      {s t : Running W} → Run u d s t → IsOwned s.files s.pending → IsOwned t.files t.pending
  kept-IsOwned stop v = v
  kept-IsOwned (next step run) v = kept-IsOwned run (Step-IsOwned step v)

  -- In whatever order the steps of open files come, from none on: a path maps to a buffer of that
  -- path which some file is open on or whose handler is yet to run, no count is negative, and
  -- pointers from `next` on are unused. So nothing that the map reaches is left behind for good.
  pub run-IsOwned :
      (timeout : ℕ) (w : W) (s : Running W)
      → Run u d (started timeout w) s
      → IsOwned s.files s.pending
  run-IsOwned timeout w s run = kept-IsOwned run (new_open_files-IsOwned timeout)
