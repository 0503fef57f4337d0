-- ===== src/OpenFiles/Race.antt =====
-- The handler of open_files.go when two handlers of one buffer are yet to run.
use adbfs.Base.{
  ℕ, ◌+◌, ◌^◌, ◌<◌, ◌≡◌, ◌≢◌, refl, sym, ap, ◌∙◌, subst, if◌then◌else◌, ◌==◌, ==_iff, none, some,
  Text, text_eq_refl, pos, pos_part, arith,
}
use adbfs.Errors.{ok, ErrUtil}
use adbfs.Device.{DeviceClient}
use adbfs.FileBuffer.{FileBuffer, new_file_buffer}
use adbfs.FileBuffer.Identity.{new_file_buffer-Same}
use adbfs.OpenFiles.{OpenFiles, new_open_files, bind, retain, add, loaded, get_or_load, release}
use adbfs.OpenFiles.Invariant.{Room}
use adbfs.OpenFiles.Counts.{Open, opened_again, counted_down}
use adbfs.OpenFiles.Sharing.{get_or_load_old}
use adbfs.OpenFiles.Schedule.{
  Running, Step, opened, counted, handled, set_pending, opening, Run, stop, next, started,
}

-- A buffer that some file is open on and that its path does not reach.
abbrev pub Lost : OpenFiles → ℕ → Type 0
Lost o i =
    (f : FileBuffer) × (o.buffers i ≡ some f)
    × (0 < pos_part f.ref_count)
    × (o.by_path f.path ≡ none)

release_lem :
    (o : OpenFiles) (i : ℕ) (f : FileBuffer)
    → o.buffers i ≡ some f
    → f.ref_count ≡ pos 0
    → release o i ≡ bind o f.path none
unfolding release
release_lem o i f at zero_count = rw (at, release, zero_count)

-- A handler of a buffer without open files takes the path away from whatever stands under it by
-- then, as it does not ask whether that is its buffer.
release-Lost :
    (o : OpenFiles) (i j : ℕ) (f g : FileBuffer)
    → o.buffers i ≡ some f
    → f.ref_count ≡ pos 0
    → o.buffers j ≡ some g
    → 0 < pos_part g.ref_count
    → g.path ≡ f.path
    → Lost (release o i) j
unfolding release
release-Lost o i j f g at zero_count at' held same = (
  g,
  rw (at, release, zero_count) at',
  held,
  rw (at, release, zero_count, same) (rw (text_eq_refl f.path)),
)

-- The first buffer, with so many files open on it and so many handlers yet to run.
record Stage {W : Type 0} (s : Running W) (path : Text) (n k t : ℕ) (w : W) : Type 0 where
  first : Open s.files path 0 n
  next : s.files.next ≡ 1
  handlers : s.pending 0 ≡ k
  timeout : s.files.dirty_timeout ≡ t
  world : s.world ≡ w

Open-Room : (o : OpenFiles) (path : Text) (i n : ℕ) → Open o path i n → n + 1 < 2 ^ 31 → Room o path
Open-Room o path i n h room j f m b = ground (arith, h.mapped, h.at, h.count)

unmapped-Room : (o : OpenFiles) (path : Text) → o.by_path path ≡ none → Room o path
unmapped-Room o path free i f m b = ground (arith, free, m)

new_open_files-unopened : (timeout : ℕ) (path : Text) → (new_open_files timeout).by_path path ≡ none
unfolding new_open_files
new_open_files-unopened timeout path = refl

bind-none : (o : OpenFiles) (path : Text) → (bind o path none).by_path path ≡ none
bind-none o path = rw (text_eq_refl path)

module _ {W : Type 0} (u : ErrUtil) (d : DeviceClient W) (path : Text) where
  pub get_or_load_new :
      (o : OpenFiles) (flags perms now : ℕ) (w w1 : W) (f : FileBuffer)
      → o.by_path path ≡ none
      → new_file_buffer u d flags path perms o.dirty_timeout now w ≡ (ok f, w1)
      → get_or_load u d o path flags perms now w
        ≡ record { file = ok o.next; files = retain (add o path f) o.next; world = w1 }
  unfolding get_or_load loaded
  get_or_load_new o flags perms now w w1 f free made = rw (free, get_or_load, made)

  counted-Stage :
      (s : Running W) (n k t : ℕ) (w : W)
      → Stage s path (n + 1) k t w
      → n + 1 < 2 ^ 31
      → (s' : Running W) × Step u d s s' × Stage s' path n (if n == 0 then k + 1 else k) t w
  counted-Stage s n k t w h room =
      let (o, e, first, more, same) = counted_down s.files path 0 n h.first room in
      (
        _,
        counted 0 o (pos n) e,
        record {
          first = first;
          next = more ∙ h.next;
          handlers = ground (arith, h.handlers);
          timeout = same ∙ h.timeout;
          world = h.world;
        },
      )

  opened-Stage :
      (s : Running W) (flags perms now n k t : ℕ) (w : W)
      → Stage s path n k t w
      → n + 1 < 2 ^ 31
      → (s' : Running W) × Step u d s s' × Stage s' path (n + 1) k t w
  opened-Stage s flags perms now n k t w h room = (
    _,
    opened path flags perms now (Open-Room s.files path 0 n h.first room),
    rw (get_or_load_old u d path s.files flags perms now 0 s.world h.first.mapped) (
        let (first, more, same, others) = opened_again s.files path 0 n h.first room in
        record {
          first = first;
          next = more ∙ h.next;
          handlers = h.handlers;
          timeout = same ∙ h.timeout;
          world = h.world;
        }),
  )

  added_Open :
      (o : OpenFiles) (f : FileBuffer)
      → f.path ≡ path
      → f.ref_count ≡ pos 0
      → Open (add o path f) path o.next 0
  unfolding add
  added_Open o f same zero_count = record {
    buffer = f;
    at = rw ((==_iff o.next o.next).1 refl);
    of_path = same;
    count = zero_count;
    mapped = rw (text_eq_refl path);
  }

  first-Stage :
      (timeout flags perms now : ℕ) (w w1 : W) (f : FileBuffer)
      → let t = (new_open_files timeout).dirty_timeout in
        new_file_buffer u d flags path perms t now w ≡ (ok f, w1)
        → Stage (opening u d (started timeout w) path flags perms now) path 1 0 t w1
  unfolding new_open_files add
  first-Stage timeout flags perms now w w1 f made =
      let o = new_open_files timeout in
      let (same, zero_count) =
        new_file_buffer-Same u d flags path perms o.dirty_timeout now w f (ap (λ r. r.0) made) in
      rw (get_or_load_new o flags perms now w w1 f refl made) (
        let (first, more, kept, others) =
          opened_again (add o path f) path 0 0 (added_Open o f same zero_count) (omega arith) in
        record { first = first; next = more; handlers = refl; timeout = kept; world = refl })

  -- A path that is not mapped, opened again.
  reopened :
      (o : OpenFiles) (flags perms now : ℕ) (w w2 : W) (g : FileBuffer)
      → o.by_path path ≡ none
      → new_file_buffer u d flags path perms o.dirty_timeout now w ≡ (ok g, w2)
      → let o' = (get_or_load u d o path flags perms now w).files in
        Open o' path o.next 1 × ((j : ℕ) → o.next ≢ j → o'.buffers j ≡ o.buffers j)
  unfolding add
  reopened o flags perms now w w2 g free made =
      let (same, zero_count) =
        new_file_buffer-Same u d flags path perms o.dirty_timeout now w g (ap (λ r. r.0) made) in
      let (first, more, kept, others) =
        opened_again (add o path g) path o.next 0 (added_Open o g same zero_count) (omega arith) in
      rw (get_or_load_new o flags perms now w w2 g free made)
        (first, λ j differ. others j differ ∙ ground arith)

  -- The handler that forgets the path, and a new buffer of it after that.
  second-Lost :
      (s : Running W) (flags perms now t : ℕ) (w w2 : W) (g : FileBuffer)
      → Stage s path 0 2 t w
      → new_file_buffer u d flags path perms s.files.dirty_timeout now s.world ≡ (ok g, w2)
      → (s' : Running W) × Run u d s s' × Lost s'.files 1
  second-Lost s flags perms now t w w2 g h made =
      let o = bind s.files path none in
      let s1 = record s { files = o; pending = set_pending s.pending 0 1 } in
      let f = h.first.buffer in
      let forgets =
        release_lem s.files 0 f h.first.at h.first.count
        ∙ ap (λ p. bind s.files p none) h.first.of_path in
      let free = bind-none s.files path in
      let (new, others) = reopened o flags perms now s.world w2 g free made in
      let s2 = opening u d s1 path flags perms now in
      (
        record s2 { files = release s2.files 0; pending = set_pending s1.pending 0 0 },
        next (subst (λ x. Step u d s (record s1 { files = x })) forgets (handled 0 1 h.handlers)) (
            next (opened path flags perms now (unmapped-Room o path free))
              (next (handled 0 0 refl) stop)),
        subst (Lost (release s2.files 0)) h.next (
            release-Lost s2.files 0 s.files.next f new.buffer
              (others 0 (λ e. omega (arith, e, h.next)) ∙ h.first.at) h.first.count new.at
              (rw new.count (omega arith)) (new.of_path ∙ sym h.first.of_path)),
      )

  -- From no open files, on any device on which the path can be opened twice in a row, this happens:
  -- the path is opened, closed, opened and closed before a handler runs, so that two are yet to run;
  -- the first one forgets the path, which is opened again with a new buffer; the second one takes
  -- that away. The new buffer is in use and the path does not reach it.
  pub two_handlers-Lost :
      (timeout flags perms now : ℕ) (w w1 w2 : W) (f g : FileBuffer)
      → let t = (new_open_files timeout).dirty_timeout in
        new_file_buffer u d flags path perms t now w ≡ (ok f, w1)
        → new_file_buffer u d flags path perms t now w1 ≡ (ok g, w2)
        → (s : Running W) × Run u d (started timeout w) s × Lost s.files 1
  two_handlers-Lost timeout flags perms now w w1 w2 f g made again =
      let t = (new_open_files timeout).dirty_timeout in
      let unopened = new_open_files-unopened timeout path in
      let s1 = opening u d (started timeout w) path flags perms now in
      let h1 = first-Stage timeout flags perms now w w1 f made in
      let (s2, step2, h2) = counted-Stage s1 0 0 t w1 h1 (omega arith) in
      let (s3, step3, h3) = opened-Stage s2 flags perms now 0 1 t w1 h2 (omega arith) in
      let (s4, step4, h4) = counted-Stage s3 0 1 t w1 h3 (omega arith) in
      let (s5, run5, lost) =
        second-Lost s4 flags perms now t w1 w2 g h4 (rw (h4.timeout, h4.world) again) in
      (
        s5,
        next (opened path flags perms now (unmapped-Room (new_open_files timeout) path unopened))
            (next step2 (next step3 (next step4 run5))),
        lost,
      )
