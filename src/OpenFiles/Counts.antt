-- ===== src/OpenFiles/Counts.antt =====
-- open_files.go: the count of a buffer that its path reaches, when a file is opened or closed.
use adbfs.Base.{ℕ, ◌+◌, ◌^◌, ◌<◌, ◌≡◌, ◌≢◌, refl, ==_iff, some, Text, pos, done, arith}
use adbfs.FileBuffer.{FileBuffer}
use adbfs.FileBuffer.Editing.{inc_ref_count-pos, dec_ref_count-pos}
use adbfs.OpenFiles.{OpenFiles, store, retain, drop_count}

-- A buffer that its path reaches, with the number of files open on it.
pub record Open (s : OpenFiles) (path : Text) (i n : ℕ) : Type 0 where
  pub buffer : FileBuffer
  pub at : s.buffers i ≡ some buffer
  pub of_path : buffer.path ≡ path
  pub count : buffer.ref_count ≡ pos n
  pub mapped : s.by_path path ≡ some i

pub opened_again :
    (o : OpenFiles) (path : Text) (i n : ℕ)
    → Open o path i n
    → n + 1 < 2 ^ 31
    → Open (retain o i) path i (n + 1)
      × ((retain o i).next ≡ o.next)
      × ((retain o i).dirty_timeout ≡ o.dirty_timeout)
      × ((j : ℕ) → i ≢ j → (retain o i).buffers j ≡ o.buffers j)
unfolding retain
opened_again o path i n h room =
    rw (h.at, retain, inc_ref_count-pos h.buffer n h.count room)
      (
        record {
          buffer = record h.buffer { ref_count = pos (n + 1) };
          at = rw ((==_iff i i).1 refl);
          of_path = h.of_path;
          count = refl;
          mapped = h.mapped;
        },
        refl,
        refl,
        λ j differ. ground arith,
      )

pub counted_down :
    (o : OpenFiles) (path : Text) (i n : ℕ)
    → Open o path i (n + 1)
    → n + 1 < 2 ^ 31
    → (o' : OpenFiles) × (drop_count o i ≡ done (o', pos n))
      × Open o' path i n
      × (o'.next ≡ o.next)
      × (o'.dirty_timeout ≡ o.dirty_timeout)
unfolding drop_count
counted_down o path i n h room =
    let g = record h.buffer { ref_count = pos n } in
    (
      store o i g,
      rw (h.at, drop_count, dec_ref_count-pos h.buffer n h.count room),
      record {
        buffer = g;
        at = rw ((==_iff i i).1 refl);
        of_path = h.of_path;
        count = refl;
        mapped = h.mapped;
      },
      refl,
      refl,
    )
