-- ===== src/Paths/Parents.antt =====
-- `path.Dir` and `path.Base`, which caching_device_client.go takes a name apart with.
use adbfs.Base.{Bool, true, false, ◌&&◌, not, if◌then◌else◌, ◌==◌, [], ◌∷◌, Text, drop, length}
use adbfs.Paths.{slash, dot, clean}

abbrev is_empty : Text → Bool
is_empty [] = true
is_empty (c ∷ s) = false

-- Up to the last slash, which stays.
unfoldable pub up_to_slash : Text → Text
up_to_slash [] = []
up_to_slash (c ∷ s) =
    let rest = up_to_slash s in if is_empty rest && not (c == slash) then [] else c ∷ rest

unfoldable pub strip_slashes : Text → Text
strip_slashes [] = []
strip_slashes (c ∷ s) =
    let rest = strip_slashes s in if is_empty rest && c == slash then [] else c ∷ rest

unfoldable pub path_dir : Text → Text
path_dir p = clean (up_to_slash p)

abbrev base_of : Text → Text
base_of [] = slash ∷ []
base_of (c ∷ s) = drop (length (up_to_slash (c ∷ s))) (c ∷ s)

unfoldable pub path_base : Text → Text
path_base [] = dot
path_base (c ∷ s) = base_of (strip_slashes (c ∷ s))
