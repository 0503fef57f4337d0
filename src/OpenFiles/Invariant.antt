-- ===== src/OpenFiles/Invariant.antt =====
-- open_files.go: one buffer for all the open files of a path, as long as a handler runs at once.
use adbfs.Base.{
  ℕ, ◌+◌, ◌-◌, ◌^◌, ◌≤◌, ◌<◌, ◌≡◌, refl, ◌∙◌, true, if◌then◌else◌, ◌==◌, ==_iff, Option, none, some,
  Text, text_eq_iff, text_eq_refl, pos, pos_part, neg_part, done, Returns, arith, Option-cases,
  Bool-cases, inl, inr,
}
use adbfs.Errors.{Result, ok, err, ErrUtil}
use adbfs.Device.{DeviceClient}
use adbfs.FileBuffer.{FileBuffer, inc_ref_count}
use adbfs.FileBuffer.Identity.{new_file_buffer-Same}
use adbfs.FileBuffer.Editing.{inc_ref_count_lem, dec_ref_count_lem}
use adbfs.OpenFiles.{
  OpenFiles, Opened, new_open_files, store, bind, is_zero, retain, add, loaded, get_or_load,
  release, drop_count, close,
}

-- Some file is open on the buffer, and not so many that the count could wrap around.
abbrev pub Held : FileBuffer → Type 0
Held f = (0 < pos_part f.ref_count) × (pos_part f.ref_count < 2 ^ 31)

-- What a path may map to.
abbrev Entry : Text → Option FileBuffer → Type 0
Entry p none = ⊥
Entry p (some f) = (f.path ≡ p) × Held f

pub record IsValid (o : OpenFiles) : Type 0 where
  -- Pointers from `next` on are unused.
  pub unused : (i : ℕ) → o.next ≤ i → o.buffers i ≡ none
  -- A path maps to a buffer of that path which some file is open on.
  pub mapped : (p : Text) (i : ℕ) → o.by_path p ≡ some i → Entry p (o.buffers i)
  -- A buffer that some file is open on stands under its path.
  pub reached :
      (i : ℕ) (f : FileBuffer)
      → o.buffers i ≡ some f
      → 0 < pos_part f.ref_count
      → o.by_path f.path ≡ some i

pub new_open_files-IsValid : (t : ℕ) → IsValid (new_open_files t)
unfolding new_open_files
new_open_files-IsValid t = record {
  unused = λ i h. refl;
  mapped = λ p i e. absurd (cc);
  reached = λ i f e. absurd (cc);
}

-- The last file is closed: the buffer keeps its pointer, and its path is forgotten.
forget-IsValid :
    (o : OpenFiles) (i : ℕ) (f g : FileBuffer)
    → IsValid o
    → o.buffers i ≡ some f
    → o.by_path f.path ≡ some i
    → g.path ≡ f.path
    → pos_part g.ref_count ≡ 0
    → IsValid (bind (store o i g) g.path none)
forget-IsValid o i f g v e at same closed = record {
  unused = λ j h. ground (arith, v.unused j h, v.unused i);
  mapped = λ p j m. ground (arith, v.mapped p j, text_eq_iff g.path p);
  reached = λ j x b held_x. ground (arith, v.reached j x, text_eq_iff g.path x.path);
}

-- A path that is not mapped gets a new buffer that one file is open on.
added-IsValid :
    (o : OpenFiles) (path : Text) (f g : FileBuffer)
    → IsValid o
    → o.by_path path ≡ none
    → g.path ≡ path
    → Held g
    → IsValid (store (add o path f) o.next g)
unfolding add
added-IsValid o path f g v free same held = record {
  unused = λ j h. ground (arith, v.unused j);
  mapped = λ p j m. ground (arith, v.mapped p j, text_eq_iff path p, v.unused o.next);
  reached = λ j x b held_x. ground (arith, v.reached j x, text_eq_iff path x.path, v.unused o.next);
}

-- Changing the count of a buffer that stays open.
store-IsValid :
    (o : OpenFiles) (i : ℕ) (f g : FileBuffer)
    → IsValid o
    → o.buffers i ≡ some f
    → o.by_path f.path ≡ some i
    → g.path ≡ f.path
    → Held g
    → IsValid (store o i g)
store-IsValid o i f g v e at same held = record {
  unused = λ j h. ground (arith, v.unused j h, v.unused i);
  mapped = λ p j m. ground (arith, v.mapped p j m);
  reached = λ j x b held_x. ground (arith, v.reached j x);
}

-- There is room for one more file on what a path maps to.
abbrev pub Room : OpenFiles → Text → Type 0
Room o path =
    (i : ℕ) (f : FileBuffer)
    → o.by_path path ≡ some i
    → o.buffers i ≡ some f
    → pos_part f.ref_count + 1 < 2 ^ 31

inc-Held :
    (f : FileBuffer)
    → neg_part f.ref_count ≡ 0
    → pos_part f.ref_count + 1 < 2 ^ 31
    → ((inc_ref_count f).0.path ≡ f.path) × Held (inc_ref_count f).0
inc-Held f e h = let l = inc_ref_count_lem f e h in (l.0, (omega (arith, l.1), omega (arith, l.1)))

pub retain_lem :
    (o : OpenFiles) (i : ℕ) (f : FileBuffer)
    → o.buffers i ≡ some f
    → retain o i ≡ store o i (inc_ref_count f).0
unfolding retain
retain_lem o i f e = rw (e, retain)

-- What `GetOrLoad` promises of a path, where it gives a pointer to its buffer.
abbrev pub Gives : OpenFiles → Text → ℕ → Type 0
Gives o path i = IsValid o × (o.by_path path ≡ some i) × Entry path (o.buffers i)

retain-Gives :
    (o : OpenFiles) (path : Text) (i : ℕ)
    → IsValid o
    → Room o path
    → o.by_path path ≡ some i
    → Gives (retain o i) path i
retain-Gives o path i v room at = elim (Option-cases (o.buffers i)) [
  | inl e ↦ absurd (rw e at (v.mapped path i at))
  | inr (f, e) ↦
      let (same, held) = entry f e in
      let (kept, more) = inc-Held f (ground arith) (room i f at e) in
      rw (retain_lem o i f e) (
        store-IsValid o i f (inc_ref_count f).0 v e (rw (← same) at at) kept more,
        at,
        rw ((==_iff i i).1 refl) (kept ∙ same, more),
      )
]
  where
    entry : (f : FileBuffer) → o.buffers i ≡ some f → Entry path (some f)
    entry f e = rw e at (v.mapped path i at)

new-Gives :
    (o : OpenFiles) (path : Text) (f : FileBuffer)
    → IsValid o
    → o.by_path path ≡ none
    → f.path ≡ path
    → f.ref_count ≡ pos 0
    → Gives (retain (add o path f) o.next) path o.next
unfolding add
new-Gives o path f v free same zero_count =
    let (kept, more) = inc-Held f (rw zero_count) (rw zero_count (omega arith)) in
    rw (retain_lem (add o path f) o.next f (rw ((==_iff o.next o.next).1 refl))) (
      added-IsValid o path f (inc_ref_count f).0 v free (kept ∙ same) more,
      rw (text_eq_refl path),
      rw ((==_iff o.next o.next).1 refl) (kept ∙ same, more),
    )

-- What the open files are after `GetOrLoad`, by its result.
abbrev pub Answers : OpenFiles → Text → OpenFiles → Result ℕ → Type 0
Answers before path o (ok i) = Gives o path i
Answers before path o (err e) = o ≡ before

module _ {W : Type 0} (u : ErrUtil) (d : DeviceClient W) where
  abbrev pub Kept : OpenFiles → Text → Opened W → Type 0
  Kept before path r = IsValid r.files × Answers before path r.files r.file

  loaded-Kept :
      (o : OpenFiles) (path : Text) (r : Result FileBuffer × W)
      → IsValid o
      → o.by_path path ≡ none
      → ((f : FileBuffer) → r.0 ≡ ok f → (f.path ≡ path) × (f.ref_count ≡ pos 0))
      → Kept o path (loaded u d o path r)
  unfolding loaded
  loaded-Kept o path (err e, w) v free made = (v, refl)
  loaded-Kept o path (ok f, w) v free made =
      let new = new-Gives o path f v free (made f refl).0 (made f refl).1 in (new.0, new)

  -- `GetOrLoad` keeps the open files valid, where its count does not wrap around. If it succeeds,
  -- the pointer that it returns is what the path maps to, a buffer of that path which is held; if it
  -- fails, the open files are as before.
  pub get_or_load-Kept :
      (o : OpenFiles) (path : Text) (flags perms now : ℕ) (w : W)
      → IsValid o
      → Room o path
      → Kept o path (get_or_load u d o path flags perms now w)
  unfolding get_or_load
  get_or_load-Kept o path flags perms now w v room = elim (Option-cases (o.by_path path)) [
    | inl e ↦
        rw (e, get_or_load)
          (loaded-Kept o path _ v e
            (λ f k. new_file_buffer-Same u d flags path perms o.dirty_timeout now w f k))
    | inr (i, e) ↦
        let given = retain-Gives o path i v room e in rw (e, get_or_load) (given.0, given)
  ]

release-store :
    (o : OpenFiles) (i : ℕ) (g : FileBuffer)
    → is_zero g.ref_count ≡ true
    → release (store o i g) i ≡ bind (store o i g) g.path none
unfolding release
release-store o i g closed = rw ((==_iff i i).1 refl, closed, release)

-- What `Release` does with the count taken down.
left_open :
    (o : OpenFiles) (i : ℕ) (f : FileBuffer)
    → IsValid o
    → o.buffers i ≡ some f
    → o.by_path f.path ≡ some i
    → Held f
    → let n = pos_part f.ref_count - 1 in
      let o' = store o i (record f { ref_count = pos n }) in
      IsValid (if n == 0 then release o' i else o')
left_open o i f v e at held =
    let n = pos_part f.ref_count - 1 in
    let g = record f { ref_count = pos n } in
    elim (Bool-cases (n == 0)) [
      | inl closed ↦
          rw (closed, release-store o i g closed)
            (forget-IsValid o i f g v e at refl ((==_iff n 0).0 closed))
      | inr more ↦
          rw (more) (store-IsValid o i f g v e at refl (ground (arith, more), ground (arith, held)))
    ]

close_lem :
    (o : OpenFiles) (i : ℕ) (f : FileBuffer)
    → o.buffers i ≡ some f
    → Held f
    → let n = pos_part f.ref_count - 1 in
      let o' = store o i (record f { ref_count = pos n }) in
      close o i ≡ done (if n == 0 then release o' i else o')
unfolding close drop_count
close_lem o i f e held = rw (e, dec_ref_count_lem f held.0 held.1, close, drop_count)

-- Closing one of the files that are open on a held buffer does not panic and keeps the open files
-- valid, if the handler runs at once: the last file to be closed takes the path away.
close-IsValid :
    (o : OpenFiles) (i : ℕ) (f : FileBuffer)
    → IsValid o
    → o.buffers i ≡ some f
    → Held f
    → Returns (close o i) IsValid
close-IsValid o i f v e held =
    rw (close_lem o i f e held) (left_open o i f v e (v.reached i f e held.0) held)
