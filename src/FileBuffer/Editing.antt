-- ===== src/FileBuffer/Editing.antt =====
-- file_buffer.go: `WriteAt`, `SetSize` and the reference count.
use adbfs.Base.{
  ℕ, ◌+◌, ◌-◌, ◌^◌, ◌≤◌, ◌<◌, ◌≡◌, refl, ◌↔◌, true, List, ◌++◌, length, replicate, arith, pos,
  pos_part, neg_part, ◌+ℤ◌, ℤ, int32, done, panic, Returns, Returns-done, subst,
}
use adbfs.DirtyTimestamp.{DirtyTimestamp, is_set}
use adbfs.DirtyTimestamp
use adbfs.GrowableByteSlice.{GrowableByteSlice, contents}
use adbfs.GrowableByteSlice
use adbfs.GrowableByteSlice.Shape.{IsValid}
use adbfs.GrowableByteSlice.Growing.{IsClean, resize_nat-append}
use adbfs.GrowableByteSlice.Writing.{pwrite, write_at-Written}
use adbfs.FileBuffer.{FileBuffer, is_dirty, write_at, set_size, inc_ref_count, dec_ref_count}

-- The array of the buffer fits its length and is zero past it.
pub record IsSound (f : FileBuffer) : Type 0 where
  pub valid : IsValid f.buffer
  pub clean : IsClean f.buffer

-- What an edit leaves behind: a sound and dirty buffer with the given contents, stamped at the first
-- edit since it was clean, for the same file and the same handles.
pub record Edited (f : FileBuffer) (now : ℕ) (xs : List ℕ) (g : FileBuffer) : Type 0 where
  pub sound : IsSound g
  pub held : contents g.buffer ≡ xs
  pub marked : is_dirty g ≡ true
  pub stamp : g.dirty ≡ DirtyTimestamp.set f.dirty now
  pub path : g.path ≡ f.path
  pub perms : g.perms ≡ f.perms
  pub ref_count : g.ref_count ≡ f.ref_count

set-is_set : (ts : DirtyTimestamp) (now : ℕ) → 0 < now → is_set (DirtyTimestamp.set ts now) ≡ true
unfolding is_set DirtyTimestamp.set
set-is_set ts now h = ground arith

module _ (f : FileBuffer) (now : ℕ) (v : IsSound f) (ticks : 0 < now) where
  edited :
      (b : GrowableByteSlice)
      → IsValid b
      → IsClean b
      → Edited f now (contents b) (record f { dirty = DirtyTimestamp.set f.dirty now; buffer = b })
  unfolding is_dirty
  edited b valid clean = record {
    sound = record { valid = valid; clean = clean };
    held = refl;
    marked = set-is_set f.dirty now ticks;
    stamp = refl;
    path = refl;
    perms = refl;
    ref_count = refl;
  }

  -- `WriteAt` of a sound buffer, of bytes that end below 2 ^ 62, does not panic, reports every byte,
  -- and leaves a dirty buffer with the contents of a positioned write.
  pub write_at-Edited :
      (bytes : List ℕ) (off : ℕ)
      → off + length bytes < 2 ^ 62
      → (g : FileBuffer) × (write_at f bytes (pos off) now ≡ done (g, length bytes))
        × Edited f now (pwrite off bytes (contents f.buffer)) g
  unfolding write_at
  write_at-Edited bytes off h =
      let (b, e, w) = write_at-Written f.buffer off bytes v.valid v.clean h in
      (
        record f { dirty = DirtyTimestamp.set f.dirty now; buffer = b },
        rw e,
        subst
            (λ xs.
              Edited f now xs (record f { dirty = DirtyTimestamp.set f.dirty now; buffer = b }))
            w.written (edited b w.valid w.clean),
      )

  -- `SetSize` to a size that is not smaller, and below 2 ^ 62, keeps the contents of a sound buffer and adds zeros.
  pub set_size-Edited :
      (n : ℕ)
      → f.buffer.len ≤ n
      → n < 2 ^ 62
      → Returns
          (set_size f (pos n) now)
          (Edited f now (contents f.buffer ++ replicate (n - f.buffer.len) 0))
  unfolding set_size GrowableByteSlice.resize
  set_size-Edited n h small =
      let (b, e, p) =
        Returns-done (GrowableByteSlice.resize_nat f.buffer n) _
          (resize_nat-append f.buffer n v.valid v.clean small h) in
      rw e (
        subst
          (λ xs. Edited f now xs (record f { dirty = DirtyTimestamp.set f.dirty now; buffer = b }))
          p.2 (edited b p.0 p.1))

-- While fewer than 2 ^ 31 - 1 files are open on a buffer, closing undoes opening; and closing panics
-- exactly if no file is open.
dec_ref_count-inc_ref_count :
    (f : FileBuffer) (n : ℕ)
    → f.ref_count ≡ pos n
    → n + 1 < 2 ^ 31
    → (dec_ref_count (inc_ref_count f).0 ≡ done (f, pos n))
      × ((inc_ref_count f).1 ≡ pos (n + 1))
      × ((dec_ref_count f ≡ panic) ↔ (n ≡ 0))
unfolding dec_ref_count inc_ref_count ◌+ℤ◌ int32
dec_ref_count-inc_ref_count f n e h =
    (ground arith, ground arith, (λ p. ground arith, λ z. ground arith))

-- One more file, where the count is not negative and does not wrap around.
pub inc_ref_count_lem :
    (f : FileBuffer)
    → neg_part f.ref_count ≡ 0
    → pos_part f.ref_count + 1 < 2 ^ 31
    → ((inc_ref_count f).0.path ≡ f.path)
      × (pos_part (inc_ref_count f).0.ref_count ≡ pos_part f.ref_count + 1)
unfolding inc_ref_count ◌+ℤ◌ int32
inc_ref_count_lem f e h = (refl, ground arith)

-- One file less, where there is one.
pub dec_ref_count_lem :
    (f : FileBuffer)
    → 0 < pos_part f.ref_count
    → pos_part f.ref_count < 2 ^ 31
    → let n = pos_part f.ref_count - 1 in
      dec_ref_count f ≡ done (record f { ref_count = pos n }, pos n)
unfolding dec_ref_count ◌+ℤ◌ int32
dec_ref_count_lem f e h = ground arith

-- What taking down a count that is not negative and has not wrapped around tells, if it does not
-- panic.
pub dec_ref_count_done :
    (f g : FileBuffer) (m : ℤ)
    → neg_part f.ref_count ≡ 0
    → pos_part f.ref_count < 2 ^ 31
    → dec_ref_count f ≡ done (g, m)
    → let n = pos_part f.ref_count - 1 in
      (0 < pos_part f.ref_count) × (g ≡ record f { ref_count = pos n }) × (m ≡ pos n)
unfolding dec_ref_count ◌+ℤ◌ int32
dec_ref_count_done f g m e h d = ground arith

pub inc_ref_count-pos :
    (f : FileBuffer) (n : ℕ)
    → f.ref_count ≡ pos n
    → n + 1 < 2 ^ 31
    → inc_ref_count f ≡ (record f { ref_count = pos (n + 1) }, pos (n + 1))
unfolding inc_ref_count ◌+ℤ◌ int32
inc_ref_count-pos f n e h = ground arith

pub dec_ref_count-pos :
    (f : FileBuffer) (n : ℕ)
    → f.ref_count ≡ pos (n + 1)
    → n + 1 < 2 ^ 31
    → dec_ref_count f ≡ done (record f { ref_count = pos n }, pos n)
unfolding dec_ref_count ◌+ℤ◌ int32
dec_ref_count-pos f n e h = ground arith
