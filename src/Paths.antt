-- ===== src/Paths.antt =====
-- The names that the kernel gives and those of the device: `convertClientPathToDevicePath` of
-- adb_filesystem.go, with what it uses of Go's package path.
pub mod Plain
pub mod Parents
mod Tests
use adbfs.Base.{
  ℕ, Bool, true, false, not, ◌&&◌, ◌||◌, if◌then◌else◌, ◌==◌, List, [], ◌∷◌, ◌++◌, Text, text_eq,
  codes, reverse,
}

abbrev pub slash : ℕ
slash = 47

abbrev pub dot : Text
dot = codes "."

abbrev pub dot_dot : Text
dot_dot = codes ".."

abbrev attach : ℕ → List Text → List Text
attach c [] = (c ∷ []) ∷ []
attach c (s ∷ ss) = (c ∷ s) ∷ ss

-- What stands between the slashes.
unfoldable pub split : Text → List Text
split [] = [] ∷ []
split (c ∷ s) = let rest = split s in if c == slash then [] ∷ rest else attach c rest

unfoldable pub join_segments : List Text → Text
join_segments [] = []
join_segments (s ∷ []) = s
join_segments (s ∷ t ∷ ss) = s ++ slash ∷ join_segments (t ∷ ss)

-- The segments kept so far, the last one first.
abbrev backtrack : Bool → List Text → List Text
backtrack rooted [] = if rooted then [] else dot_dot ∷ []
backtrack rooted (s ∷ kept) = if not rooted && text_eq s dot_dot then dot_dot ∷ s ∷ kept else kept

abbrev pub is_dot : Text → Bool
is_dot s = text_eq s [] || text_eq s dot

unfoldable pub clean_segment : Bool → List Text → Text → List Text
clean_segment rooted kept s =
    if is_dot s then kept else if text_eq s dot_dot then backtrack rooted kept else s ∷ kept

unfoldable pub clean_segments : Bool → List Text → List Text → List Text
clean_segments rooted kept [] = kept
clean_segments rooted kept (s ∷ ss) = clean_segments rooted (clean_segment rooted kept s) ss

abbrev or_dot : Text → Text
or_dot [] = dot
or_dot (c ∷ s) = c ∷ s

abbrev pub is_rooted : Text → Bool
is_rooted [] = false
is_rooted (c ∷ s) = c == slash

-- `path.Clean`.
unfoldable pub clean : Text → Text
clean p =
    let kept = join_segments (reverse (clean_segments (is_rooted p) [] (split p))) in
    if is_rooted p then slash ∷ kept else or_dot kept

-- `path.Join`: the empty names in front are dropped.
unfoldable pub path_join : List Text → Text
path_join [] = []
path_join ([] ∷ ps) = path_join ps
path_join ((c ∷ p) ∷ ps) = clean (join_segments ((c ∷ p) ∷ ps))

pub device_path : Text → Text → Text
device_path root name = path_join ((slash ∷ []) ∷ root ∷ name ∷ [])
