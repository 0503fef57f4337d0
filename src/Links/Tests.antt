-- ===== src/Links/Tests.antt =====
-- Links on devices in memory.
use adbfs.Base.{
  ℕ, zero, suc, ◌+◌, ◌≡◌, refl, ◌↔◌, true, some, if◌then◌else◌, ◌++◌, [], ◌∷◌, Text, text_eq, codes,
  pos, arith,
}
use adbfs.Errors.{ok, err, not_a_link}
use adbfs.Device.{DeviceClient, DirEntry}
use adbfs.Device.Ram.{Ram, ram, ram_errors}
use adbfs.Links.{
  read_link, read_link_recursively, trim_line_end, mode_symlink, readlink_invalid_argument,
}
use adbfs.Links.Chains.{Chain, here, link, Reached, read_link_recursively-Reached}

abbrev idle : Ram
idle = record { files = λ q. adbfs.Base.none; writing = adbfs.Base.none; reading = [] }

abbrev entry : Text → ℕ → DirEntry
entry p mode = record { name = p; mode = mode; size = pos 0; modified_at = 1 }

abbrev loop : Text
loop = codes "/loop"

-- Every name is a link to one name.
abbrev looping : DeviceClient Ram
looping = record ram {
  stat = λ p w. (ok (entry p mode_symlink), w);
  run_command = λ c args w. (ok (loop ++ 13 ∷ 10 ∷ []), w);
}

chain :
    (n : ℕ)
    → Chain ram_errors looping n loop
        (entry loop mode_symlink)
        idle
        loop
        (entry loop mode_symlink)
        idle
unfolding read_link trim_line_end text_eq
chain zero = here
chain (suc n) = link refl refl refl (chain n)

-- `/link` leads to `/target`, which is no link.
abbrev one_link : DeviceClient Ram
one_link = record ram {
  stat = λ p w. (ok (entry p (if text_eq p (codes "/link") then mode_symlink else 0)), w);
  run_command = λ c args w. (ok (codes "/target" ++ 13 ∷ 10 ∷ []), w);
}

linked_stat : one_link.stat (codes "/link") idle ≡ (ok (entry (codes "/link") mode_symlink), idle)
unfolding text_eq
linked_stat = refl

plain_file :
    (read_link ram_errors
      (record ram { run_command = λ c args w. (ok (readlink_invalid_argument ++ 13 ∷ 10 ∷ []), w) })
      loop
      idle).0
    ≡ err not_a_link
unfolding read_link trim_line_end text_eq
plain_file = refl

read_link_recursively-Reached_example :
    (read_link_recursively ram_errors one_link (codes "/link") idle
      ≡ (ok (codes "/target", entry (codes "/target") 0), idle))
    ↔ Reached ram_errors one_link 65
        (codes "/link")
        (entry (codes "/link") mode_symlink)
        idle
        (codes "/target", entry (codes "/target") 0)
        idle
read_link_recursively-Reached_example =
    read_link_recursively-Reached ram_errors one_link (codes "/link")
      (entry (codes "/link") mode_symlink) idle idle idle
      (codes "/target", entry (codes "/target") 0) linked_stat
