-- ===== src/OpenFiles/Clean.antt =====
-- open_files.go: while files are only opened as they are, no buffer is dirty.
use adbfs.Base.{
  ℕ, ◌≡◌, refl, ap, sym, ◌∙◌, false, ◌==◌, Text, Bool-cases, Option-cases, Outcome-cases, subst,
  inl, inr, some, ℤ, done,
}
use adbfs.Errors.{Result, ok, err, ErrUtil}
use adbfs.Device.{DeviceClient}
use adbfs.FileOpenFlags.{contains, o_create, o_trunc}
use adbfs.FileBuffer.{FileBuffer, is_dirty, new_file_buffer, inc_ref_count, dec_ref_count}
use adbfs.FileBuffer.Clean.{
  new_file_buffer-is_dirty, inc_ref_count-is_dirty, dec_ref_count-is_dirty,
}
use adbfs.OpenFiles.{
  OpenFiles, new_open_files, store, retain, add, loaded, get_or_load, release, drop_count, close,
  is_zero,
}

pub AllClean : OpenFiles → Type 0
AllClean o = (i : ℕ) (f : FileBuffer) → o.buffers i ≡ some f → is_dirty f ≡ false

pub clean_at :
    (o : OpenFiles) (i : ℕ) (f : FileBuffer)
    → AllClean o
    → o.buffers i ≡ some f
    → is_dirty f ≡ false
unfolding AllClean
clean_at o i f h at = h i f at

pub store-AllClean :
    (o : OpenFiles) (i : ℕ) (f : FileBuffer)
    → AllClean o
    → is_dirty f ≡ false
    → AllClean (store o i f)
unfolding AllClean
store-AllClean o i f h clean j g at = elim (Bool-cases (i == j)) [
  | inl same ↦ let eq = rw same at at in let e : f ≡ g = cc in ap is_dirty (sym e) ∙ clean
  | inr other ↦ h j g (rw other at at)
]

add-AllClean :
    (o : OpenFiles) (path : Text) (f : FileBuffer)
    → AllClean o
    → is_dirty f ≡ false
    → AllClean (add o path f)
unfolding add AllClean
add-AllClean o path f h clean = store-AllClean o o.next f h clean

retain-AllClean : (o : OpenFiles) (i : ℕ) → AllClean o → AllClean (retain o i)
unfolding retain
retain-AllClean o i h = elim (Option-cases (o.buffers i)) [
  | inl free ↦ rw (free, retain) h
  | inr (f, at) ↦
      rw (at, retain)
        (store-AllClean o i (inc_ref_count f).0 h (inc_ref_count-is_dirty f ∙ clean_at o i f h at))
]

loaded-AllClean :
    {W : Type 0} (u : ErrUtil) (d : DeviceClient W) (o : OpenFiles) (path : Text)
    (r : Result FileBuffer × W)
    → AllClean o
    → ((f : FileBuffer) → r.0 ≡ ok f → is_dirty f ≡ false)
    → AllClean (loaded u d o path r).files
unfolding loaded
loaded-AllClean u d o path (err e, w) h k = h
loaded-AllClean u d o path (ok f, w) h k =
    retain-AllClean (add o path f) o.next (add-AllClean o path f h (k f refl))

pub get_or_load-AllClean :
    {W : Type 0} (u : ErrUtil) (d : DeviceClient W) (o : OpenFiles) (path : Text)
    (flags perms now : ℕ) (w : W)
    → AllClean o
    → contains flags o_create ≡ false
    → contains flags o_trunc ≡ false
    → AllClean (get_or_load u d o path flags perms now w).files
unfolding get_or_load
get_or_load-AllClean u d o path flags perms now w h c t = elim (Option-cases (o.by_path path)) [
  | inr (i, e) ↦ rw (e, get_or_load) (retain-AllClean o i h)
  | inl e ↦
      let r = new_file_buffer u d flags path perms o.dirty_timeout now w in
      rw (e, get_or_load)
        (loaded-AllClean u d o path r h (λ f made.
          new_file_buffer-is_dirty u d flags path perms o.dirty_timeout now w f c t made))
]

release-buffers : (o : OpenFiles) (i : ℕ) → (release o i).buffers ≡ o.buffers
unfolding release
release-buffers o i = elim (Option-cases (o.buffers i)) [
  | inl free ↦ rw (free, release) refl
  | inr (f, at) ↦ elim (Bool-cases (is_zero f.ref_count)) [
    | inl last ↦ rw (at, release, last) refl
    | inr more ↦ rw (at, release, more) refl
  ]
]

release-AllClean : (o : OpenFiles) (i : ℕ) → AllClean o → AllClean (release o i)
unfolding AllClean
release-AllClean o i h j g at = h j g (ap (λ b. b j) (sym (release-buffers o i)) ∙ at)

drop_count-AllClean :
    (o o' : OpenFiles) (i : ℕ) (n : ℤ) → AllClean o → drop_count o i ≡ done (o', n) → AllClean o'
unfolding drop_count
drop_count-AllClean o o' i n h e = elim (Option-cases (o.buffers i)) [
  | inl free ↦ absurd (let no = rw (free, drop_count) at e in cc)
  | inr (f, at) ↦ elim (Outcome-cases (dec_ref_count f)) [
    | inl failed ↦ absurd (let no = rw (at, drop_count, failed) at e in cc)
    | inr ((g, m), counted) ↦
        let made = rw (at, drop_count, counted) at e in
        let same : store o i g ≡ o' = cc in
        subst AllClean same
          (store-AllClean o i g h (dec_ref_count-is_dirty f g m counted ∙ clean_at o i f h at))
  ]
]

pub close-AllClean : (o o' : OpenFiles) (i : ℕ) → AllClean o → close o i ≡ done o' → AllClean o'
unfolding close
close-AllClean o o' i h e = elim (Outcome-cases (drop_count o i)) [
  | inl failed ↦ absurd (let no = rw failed at e in cc)
  | inr ((o1, n), counted) ↦
      let made = rw counted at e in
      let clean = drop_count-AllClean o o1 i n h counted in
      elim (Bool-cases (is_zero n)) [
        | inl last ↦
            let last_made = rw last at made in
            let same : release o1 i ≡ o' = cc in subst AllClean same (release-AllClean o1 i clean)
        | inr more ↦
            let more_made = rw more at made in let same : o1 ≡ o' = cc in subst AllClean same clean
      ]
]

pub new_open_files-AllClean : (timeout : ℕ) → AllClean (new_open_files timeout)
unfolding AllClean new_open_files
new_open_files-AllClean timeout i f e = absurd (cc)
