-- ===== src/Paths/Plain.antt =====
-- adb_filesystem.go, `convertClientPathToDevicePath`: which names of the device come out.
use adbfs.Base.{
  ℕ, ◌≡◌, ◌≢◌, refl, sym, ◌∙◌, Bool, true, false, not, ◌&&◌, ◌==◌, List, [], ◌∷◌, ◌++◌, Text,
  text_eq, reverse, append_assoc, arith,
}
use mathlib.Core.List.{reverse_aux, append-nil}
use adbfs.Paths.{
  slash, dot_dot, split, attach, join_segments, is_dot, clean_segment, clean_segments, clean,
  path_join, device_path,
}

abbrev pub no_slash : Text → Bool
no_slash [] = true
no_slash (c ∷ s) = not (c == slash) && no_slash s

-- A segment that names an entry of a directory.
abbrev is_plain : Text → Bool
is_plain s = not (is_dot s) && not (text_eq s dot_dot) && no_slash s

abbrev all : (Text → Bool) → List Text → Bool
all p [] = true
all p (s ∷ ss) = p s && all p ss

abbrev pub all_plain : List Text → Bool
all_plain ss = all is_plain ss

all-attach :
    (c : ℕ) (ss : List Text)
    → (c == slash) ≡ false
    → all no_slash ss ≡ true
    → all no_slash (attach c ss) ≡ true
all-attach c [] h k = ground (arith, h)
all-attach c (s ∷ ss) h k = ground (arith, h, k)

all-split : (p : Text) → all no_slash (split p) ≡ true
unfolding split
all-split [] = refl
all-split (c ∷ s) = ground (arith, all-attach c (split s), all-split s)

all-clean_segment :
    (kept : List Text) (s : Text)
    → all_plain kept ≡ true
    → no_slash s ≡ true
    → all_plain (clean_segment true kept s) ≡ true
unfolding clean_segment
all-clean_segment [] s k h = ground (arith, h)
all-clean_segment (t ∷ kept) s k h = ground (arith, h, k)

all-clean_segments :
    (kept ss : List Text)
    → all_plain kept ≡ true
    → all no_slash ss ≡ true
    → all_plain (clean_segments true kept ss) ≡ true
unfolding clean_segments
all-clean_segments kept [] k h = k
all-clean_segments kept (s ∷ ss) k h =
    all-clean_segments (clean_segment true kept s) ss
      (all-clean_segment kept s k (ground (arith, h))) (ground (arith, h))

all-reverse :
    (xs r : List Text)
    → all_plain xs ≡ true
    → all_plain r ≡ true
    → all_plain (reverse_aux xs r) ≡ true
all-reverse [] r h k = k
all-reverse (x ∷ xs) r h k = all-reverse xs (x ∷ r) (ground (arith, h)) (ground (arith, h, k))

-- The segments of a device root.
abbrev pub base : Text → List Text
base root = reverse (clean_segments true [] (split root))

attach_some : (c : ℕ) (ss : List Text) → attach c ss ≢ []
attach_some c [] e = absurd (cc)
attach_some c (s ∷ ss) e = absurd (cc)

split_some : (s : Text) → split s ≢ []
unfolding split
split_some [] e = absurd (cc)
split_some (c ∷ s) e = ground (arith, attach_some c (split s))

attach-append : (c : ℕ) (ss ts : List Text) → ss ≢ [] → attach c (ss ++ ts) ≡ attach c ss ++ ts
attach-append c [] ts h = absurd (h refl)
attach-append c (s ∷ ss) ts h = refl

split-append : (s t : Text) → split (s ++ slash ∷ t) ≡ split s ++ split t
unfolding split
split-append [] t = refl
split-append (c ∷ s) t =
    rw (split-append s t, attach-append c (split s) (split t) (split_some s)) (ground arith)

split-no_slash : (s : Text) → no_slash s ≡ true → split s ≡ s ∷ []
unfolding split
split-no_slash [] h = refl
split-no_slash (c ∷ s) h = rw (split-no_slash s (ground (arith, h))) (ground (arith, h))

-- Splitting what was joined.
split-join_segments :
    (s : Text) (ss : List Text)
    → all_plain (s ∷ ss) ≡ true
    → split (join_segments (s ∷ ss)) ≡ s ∷ ss
unfolding join_segments
split-join_segments s [] h = split-no_slash s (ground (arith, h))
split-join_segments s (t ∷ ss) h =
    split-append s (join_segments (t ∷ ss))
    ∙ rw (split-no_slash s (ground (arith, h)), split-join_segments t ss (ground (arith, h)))

clean_segments-append :
    (rooted : Bool) (kept ss ts : List Text)
    → clean_segments rooted kept (ss ++ ts)
      ≡ clean_segments rooted (clean_segments rooted kept ss) ts
unfolding clean_segments
clean_segments-append rooted kept [] ts = refl
clean_segments-append rooted kept (s ∷ ss) ts =
    clean_segments-append rooted (clean_segment rooted kept s) ss ts

clean_segment_plain :
    (rooted : Bool) (kept : List Text) (s : Text)
    → is_plain s ≡ true
    → clean_segment rooted kept s ≡ s ∷ kept
unfolding clean_segment
clean_segment_plain rooted kept s h = ground (arith, h)

clean_segments_plain :
    (rooted : Bool) (kept ss : List Text)
    → all_plain ss ≡ true
    → clean_segments rooted kept ss ≡ reverse_aux ss kept
unfolding clean_segments
clean_segments_plain rooted kept [] h = refl
clean_segments_plain rooted kept (s ∷ ss) h =
    rw (clean_segment_plain rooted kept s (ground (arith, h)))
      (clean_segments_plain rooted (s ∷ kept) ss (ground (arith, h)))

reverse_aux-append :
    (xs r t : List Text) → reverse_aux (reverse_aux xs r) t ≡ reverse_aux r (xs ++ t)
reverse_aux-append [] r t = refl
reverse_aux-append (x ∷ xs) r t = reverse_aux-append xs (x ∷ r) t

reverse_aux_lem : (xs r : List Text) → reverse_aux xs r ≡ reverse xs ++ r
reverse_aux_lem [] r = refl
reverse_aux_lem (x ∷ xs) r =
    reverse_aux_lem xs (x ∷ r)
    ∙ rw (reverse_aux_lem xs (x ∷ [])) (sym (append_assoc (reverse xs) (x ∷ []) r))

reverse_aux-reverse : (kept ss : List Text) → reverse (reverse_aux ss kept) ≡ reverse kept ++ ss
reverse_aux-reverse kept ss =
    reverse_aux-append ss kept [] ∙ rw (append-nil ss) (reverse_aux_lem kept ss)

device_path_lem :
    (root name : Text)
    → device_path root name
      ≡ slash
        ∷ join_segments
            (reverse (clean_segments true (clean_segments true [] (split root)) (split name)))
unfolding device_path path_join clean join_segments clean_segments clean_segment split text_eq
device_path_lem root name =
    rw (split-append root name) (rw (clean_segments-append true [] (split root) (split name)) refl)

-- A name of the kernel becomes an absolute name on the device without empty segments, `.` and `..`,
-- whatever the name and the device root.
pub device_path_plain :
    (root name : Text)
    → (ss : List Text) × (device_path root name ≡ slash ∷ join_segments ss) × (all_plain ss ≡ true)
device_path_plain root name = (
  _,
  device_path_lem root name,
  all-reverse _ []
      (all-clean_segments _ (split name) (all-clean_segments [] (split root) refl (all-split root))
        (all-split name))
      refl,
)

-- A name of plain segments, as the kernel gives it, becomes those of the device root followed by
-- its own.
device_path-join_segments :
    (root : Text) (ss : List Text)
    → all_plain ss ≡ true
    → device_path root (join_segments ss) ≡ slash ∷ join_segments (base root ++ ss)
unfolding split clean_segments clean_segment join_segments text_eq
device_path-join_segments root [] h = device_path_lem root [] ∙ rw (append-nil (base root)) refl
device_path-join_segments root (s ∷ ss) h =
    device_path_lem root (join_segments (s ∷ ss))
    ∙ rw (split-join_segments s ss h) (
        rw (clean_segments_plain true (clean_segments true [] (split root)) (s ∷ ss) h)
          (rw (reverse_aux-reverse (clean_segments true [] (split root)) (s ∷ ss)) refl))
