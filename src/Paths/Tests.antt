-- ===== src/Paths/Tests.antt =====
-- Names at concrete device roots.
use adbfs.Base.{◌≡◌, refl, [], ◌∷◌, List, Text, text_eq, codes, true}
use adbfs.Paths.{
  split, join_segments, clean_segment, clean_segments, clean, path_join, device_path, slash,
}
use adbfs.Paths.Plain.{all_plain, device_path_plain}

mixed : device_path (codes "/sdcard/../a//b") (codes "./c/..//d") ≡ codes "/a/b/d"
unfolding device_path path_join clean join_segments clean_segments clean_segment split text_eq
mixed = refl

climbing : device_path (codes "sdcard") (codes "../../x") ≡ codes "/x"
unfolding device_path path_join clean join_segments clean_segments clean_segment split text_eq
climbing = refl

relative : path_join ([] ∷ codes "../a/../../b" ∷ codes "c" ∷ []) ≡ codes "../../b/c"
unfolding path_join clean join_segments clean_segments clean_segment split text_eq
relative = refl

device_path_plain_example :
    (ss : List Text) × (device_path (codes "/sdcard") (codes "../x/") ≡ slash ∷ join_segments ss)
    × (all_plain ss ≡ true)
device_path_plain_example = device_path_plain (codes "/sdcard") (codes "../x/")
