-- ===== src/AdbFileSystem/Unwritten.antt =====
-- adb_filesystem.go, adb_file.go, file_buffer.go and open_files.go together: no sequence of calls to
-- a filesystem that is mounted read-only changes the device.
use adbfs.Base.{
  ℕ, zero, suc, ◌≡◌, refl, ap, sym, subst, ◌∙◌, true, false, List, [], ◌∷◌, ◌++◌, some, arith,
  Option-cases, Outcome-cases, done_inj, bind_done, inl, inr, Outcome, done, panic, ◌>>=◌, Option,
}
use adbfs.Errors.{ErrUtil}
use adbfs.Device.{DeviceClient}
use adbfs.Device.Reads.{Reads}
use adbfs.FileOpenFlags.{can_write}
use adbfs.FileBuffer.{FileBuffer, is_dirty}
use adbfs.FileBuffer.Clean.{sync-is_dirty}
use adbfs.FileBuffer.Untouched.{sync_clean-view}
use adbfs.OpenFiles.{close}
use adbfs.OpenFiles.Clean.{clean_at, store-AllClean, close-AllClean}
use adbfs.Attributes.{get_attr}
use adbfs.AdbFile.{Reply, read, fsync, flush}
use adbfs.AdbFile.Guards.{access_denied, fsync-sync}
use adbfs.AdbFileSystem.{Handle, serve, to_device}
use adbfs.StatFs.{StatfsOut, stat_fs}
use adbfs.StatFs.Untouched.{stat_fs-view}
use adbfs.AdbFileSystem.ReadOnly.{serve-config, serve-view}
use adbfs.AdbFileSystem.Session.{
  Session, FileOp, read_op, write_op, get_attr_op, fsync_op, flush_op, release_op, truncate_op,
  Event, on_name, on_file, stat_fs_of, after_stat_fs, world_at_panic, handle_of, nth, after_reply,
  operate, serve_event, serve_events,
}
use adbfs.AdbFileSystem.Served.{IsReadOnly, serve-Served, all_unwritable}

all_unwritable-append :
    (hs ks : List Handle)
    → all_unwritable hs ≡ true
    → all_unwritable ks ≡ true
    → all_unwritable (hs ++ ks) ≡ true
all_unwritable-append [] ks h k = k
all_unwritable-append (x ∷ hs) ks h k =
    ground (arith, h, all_unwritable-append hs ks (ground (arith, h)) k)

nth_unwritable :
    (hs : List Handle) (k : ℕ) (h : Handle)
    → all_unwritable hs ≡ true
    → nth hs k ≡ some h
    → can_write h.flags ≡ false
nth_unwritable [] k h a e = absurd (cc)
nth_unwritable (x ∷ hs) zero h a e =
    let own : can_write x.flags ≡ false = ground (arith, a) in
    let same : x ≡ h = cc in subst (λ (y : Handle). can_write y.flags ≡ false) same own
nth_unwritable (x ∷ hs) (suc k) h a e = nth_unwritable hs k h (ground (arith, a)) e

module _ {W A : Type 0} (u : ErrUtil) (d : DeviceClient W) (view : W → A)
    (reads : Reads d view) where
  -- From one state to the next.
  abbrev Unseen : Session W → Session W → Type 0
  Unseen s t = IsReadOnly t × (view t.world ≡ view s.world)

  module _ (s : Session W) (h : IsReadOnly s) where
    -- An operation that left a buffer that is not dirty.
    after_reply-Unseen :
        (i : ℕ) (r : Reply W)
        → is_dirty r.file ≡ false
        → view r.world ≡ view s.world
        → Unseen s (after_reply u d s i r)
    after_reply-Unseen i r clean seen = (
      record {
        read_only = h.read_only;
        clean = store-AllClean s.fs.open_files i r.file h.clean clean;
        unwritable = h.unwritable;
      },
      seen,
    )

    denied-Unseen :
        (i : ℕ) (f : FileBuffer) (n status : ℕ) (o : Outcome (Reply W)) (t : Session W)
        → is_dirty f ≡ false
        → o ≡ done (record { n = n; status = status; file = f; world = s.world })
        → (o >>= λ r. done (after_reply u d s i r)) ≡ done t
        → Unseen s t
    denied-Unseen i f n status o t clean e made =
        let r : Reply W = record { n = n; status = status; file = f; world = s.world } in
        let same : after_reply u d s i r ≡ t =
          done_inj (ap (λ x. x >>= λ r. done (after_reply u d s i r)) (sym e) ∙ made) in
        subst (Unseen s) same (after_reply-Unseen i r clean refl)

    operate-Unseen :
        (x : Handle) (f : FileBuffer) (op : FileOp) (t : Session W)
        → can_write x.flags ≡ false
        → is_dirty f ≡ false
        → operate u d s x f op ≡ done t
        → Unseen s t
    unfolding get_attr
    operate-Unseen x f (read_op buf off) t c clean e =
        let (r, got, made) = bind_done (read u d x.flags f buf off) (λ r. done s) t e in
        subst (Unseen s) (done_inj made) (h, refl)
    operate-Unseen x f (write_op bytes off now later) t c clean e =
        denied-Unseen x.file_buffer f _ _ _ t clean
          ((access_denied u d x.flags f s.world c).0 bytes off now later) e
    operate-Unseen x f (truncate_op size now) t c clean e =
        denied-Unseen x.file_buffer f _ _ _ t clean
          ((access_denied u d x.flags f s.world c).1 size now) e
    operate-Unseen x f flush_op t c clean e =
        denied-Unseen x.file_buffer f _ _ (done (flush u d x.flags f s.world)) t clean
          (ap done (access_denied u d x.flags f s.world c).2) e
    operate-Unseen x f get_attr_op t c clean e = subst (Unseen s) (done_inj e) (
      record { read_only = h.read_only; clean = h.clean; unwritable = h.unwritable },
      reads.keep_stat f.path s.world,
    )
    operate-Unseen x f fsync_op t c clean e =
        let (file, world) = fsync-sync u d x.flags f s.world in
        subst (Unseen s) (done_inj e) (
          after_reply-Unseen x.file_buffer (fsync u d x.flags f s.world)
            (ap is_dirty file ∙ sync-is_dirty u d f s.world clean)
            (ap view world ∙ sync_clean-view u d view reads f s.world clean))
    operate-Unseen x f release_op t c clean e =
        let (o, closed, made) = bind_done (close s.fs.open_files x.file_buffer) _ t e in
        subst (Unseen s) (done_inj made) (
          record {
            read_only = h.read_only;
            clean = close-AllClean s.fs.open_files o x.file_buffer h.clean closed;
            unwritable = h.unwritable;
          },
          refl,
        )

    at_world-IsReadOnly : (w : W) → IsReadOnly (record s { world = w })
    at_world-IsReadOnly w = record {
      read_only = h.read_only;
      clean = h.clean;
      unwritable = h.unwritable;
    }

    stat_fs-Unseen :
        (r : Outcome (Option StatfsOut) × W) (t : Session W)
        → view r.1 ≡ view s.world
        → after_stat_fs u d s r ≡ done t
        → Unseen s t
    stat_fs-Unseen (panic, w) t same e = absurd (cc)
    stat_fs-Unseen (done out, w) t same e =
        subst (Unseen s) (done_inj e) (at_world-IsReadOnly w, same)

    panic-Unseen : (e : Event) → Unseen s (record s { world = world_at_panic u d s e })
    unfolding world_at_panic
    panic-Unseen (on_name c) = (at_world-IsReadOnly s.world, refl)
    panic-Unseen (on_file k op) = (at_world-IsReadOnly s.world, refl)
    panic-Unseen (stat_fs_of name) = (
      at_world-IsReadOnly (stat_fs u d (to_device s.fs name) s.world).1,
      stat_fs-view u d view reads (to_device s.fs name) s.world,
    )

    event-Unseen : (e : Event) (t : Session W) → serve_event u d s e ≡ done t → Unseen s t
    unfolding serve_event
    event-Unseen (on_name c) t e =
        let a = serve u d s.fs c s.world in
        let served = serve-Served u d s.fs c s.world h.clean h.read_only in
        subst (Unseen s) (done_inj e) (
          record {
            read_only = ap (λ x. x.read_only) (serve-config u d s.fs c s.world) ∙ h.read_only;
            clean = served.clean;
            unwritable =
                all_unwritable-append s.handles (handle_of a.value) h.unwritable served.unwritable;
          },
          serve-view u d view reads s.fs c s.world h.read_only,
        )
    event-Unseen (stat_fs_of name) t e =
        stat_fs-Unseen (stat_fs u d (to_device s.fs name) s.world) t
          (stat_fs-view u d view reads (to_device s.fs name) s.world) e
    event-Unseen (on_file k op) t e = elim (Option-cases (nth s.handles k)) [
      | inl closed ↦ subst (Unseen s) (done_inj (rw closed at e)) (h, refl)
      | inr (x, opened_one) ↦
          let on_one = rw opened_one at e in
          elim (Option-cases (s.fs.open_files.buffers x.file_buffer)) [
            | inl free ↦ absurd (let no = rw free at on_one in cc)
            | inr (f, at) ↦
                operate-Unseen x f op t (nth_unwritable s.handles k x h.unwritable opened_one)
                  (clean_at s.fs.open_files x.file_buffer f h.clean at) (rw at at on_one)
          ]
    ]

  -- No sequence of calls on names, `StatFs` included, and on the files that they have opened, to a filesystem that is
  -- mounted read-only and has neither a dirty buffer nor a file open to write, changes what is seen
  -- of a device whose reading calls do not, whether the calls come to their end or one of them
  -- panics; and the filesystem is as at the start in those respects.
  pub serve_events-IsReadOnly :
      (s : Session W) (es : List Event)
      → IsReadOnly s
      → let (t, panicked) = serve_events u d s es in IsReadOnly t × (view t.world ≡ view s.world)
  unfolding serve_events
  serve_events-IsReadOnly s [] h = (h, refl)
  serve_events-IsReadOnly s (x ∷ es) h = elim (Outcome-cases (serve_event u d s x)) [
    | inl fails ↦ rw fails (panic-Unseen s h x)
    | inr (r, first) ↦
        let (kept, seen) = event-Unseen s h x r first in
        let (still, same) = serve_events-IsReadOnly r es kept in rw first (still, same ∙ seen)
  ]
