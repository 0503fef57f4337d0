-- ===== src/Adbfs.antt =====
-- cmd/adbfs/main.go: the program that mounts a device. Its goroutines share the flags `mounted` and
-- `unmounted`, of internal/util/atomic_bool.go.
pub mod Phases
pub mod Advances
pub mod Unmounting
pub mod Watching
pub mod Dying
pub mod StartServer
pub mod StartUp
mod Tests
use adbfs.Base.{
  ℕ, zero, suc, ◌+◌, ◌≡◌, Bool, true, false, not, ◌&&◌, ◌||◌, if◌then◌else◌, List, [], ◌∷◌, ◌++◌,
  Text, text_eq, Option, none, some, Outcome, done, panic,
}
use adbfs.Flow.{Flow, goes_on, breaks, returns, waits, in_select, Loop, for_loop}

-- `AtomicBool.CompareAndSwap`: whether it swapped, and the value after it.
abbrev same_bool : Bool → Bool → Bool
same_bool true b = b
same_bool false b = not b

unfoldable pub compare_and_swap : Bool → Bool → Bool → Bool × Bool
compare_and_swap value old_val new_val =
    if same_bool value old_val then (true, new_val) else (false, value)

-- What the goroutines share: whether `server` is set, the two flags, and how many times
-- `server.Unmount` was called.
pub record Shared : Type 0 where
  pub server : Bool
  pub mounted : Bool
  pub unmounted : Bool
  pub unmounts : ℕ

abbrev pub no_server : Shared
no_server = record { server = false; mounted = false; unmounted = false; unmounts = 0 }

-- Where a goroutine is in `handleDeviceDisconnected` and in `unmountServer`: before the reads of the
-- two flags, before the two checks, before the swap, and before the call of `server.Unmount`.
pub data Phase : Type 0 where
  at_mounted at_unmounted at_server at_mounted_check at_swap at_unmount : Phase

abbrev swapped : Shared → Bool × Bool → Shared × Option Phase
swapped s (true, b) = (record s { unmounted = b }, some at_unmount)
swapped s (false, b) = (record s { unmounted = b }, none)

-- The next step of a goroutine, which has no phase after its last one.
unfoldable pub advance : Shared → Phase → Outcome (Shared × Option Phase)
advance s at_mounted = done (s, if not s.mounted then none else some at_unmounted)
advance s at_unmounted = done (s, if s.unmounted then none else some at_server)
advance s at_server = if not s.server then panic else done (s, some at_mounted_check)
advance s at_mounted_check = if not s.mounted then panic else done (s, some at_swap)
advance s at_swap = done (swapped s (compare_and_swap s.unmounted false true))
advance s at_unmount = done (record s { unmounts = suc s.unmounts }, none)

-- Where `main` is: before `MountRoot`, before the end of `startServer`, in its loop with the flag
-- set, in its deferred `unmountServer`, and returned, where the program ends; or the program has ended
-- as `startServer` gave an error, with which `main` calls `Log.Fatal`.
pub data Main : Type 0 where
  mounting starting serving gone died : Main
  leaving : Phase → Main

abbrev main_after : Option Phase → Main
main_after none = gone
main_after (some p) = leaving p

pub record Program : Type 0 where
  pub main : Main
  pub shared : Shared
  -- The goroutines in `handleDeviceDisconnected`.
  pub phases : List Phase

abbrev pub launched : Program
launched = record { main = mounting; shared = no_server; phases = [] }

abbrev pub rest : Option Phase → List Phase
rest none = []
rest (some p) = p ∷ []

pub data Step : Program → Program → Type 0 where
  -- `MountRoot` succeeds and sets `server`, and `startServer` succeeds, after which `main` swaps the
  -- first flag.
  server_set :
      {s : Program}
      → s.main ≡ mounting
      → Step s (record s { main = starting; shared = record s.shared { server = true } })
  server_started :
      {s : Program}
      → s.main ≡ starting
      → Step s (record s {
        main = serving;
        shared = record s.shared { mounted = (compare_and_swap s.shared.mounted false true).1 };
      })
  start_failed : {s : Program} → s.main ≡ starting → Step s (record s { main = died })
  -- `main` returns.
  main_left : {s : Program} → s.main ≡ serving → Step s (record s { main = leaving at_server })
  main_advanced :
      {s : Program} (p : Phase) (h : Shared) (o : Option Phase)
      → s.main ≡ leaving p
      → advance s.shared p ≡ done (h, o)
      → Step s (record s { main = main_after o; shared = h })
  -- The device watcher or a device client finds the device disconnected, at any time.
  disconnected : {s : Program} → Step s (record s { phases = at_mounted ∷ s.phases })
  advanced :
      {s : Program} (before after : List Phase) (p : Phase) (h : Shared) (o : Option Phase)
      → s.phases ≡ before ++ p ∷ after
      → advance s.shared p ≡ done (h, o)
      → Step s (record s { shared = h; phases = before ++ rest o ++ after })

pub data Run : Program → Program → Type 0 where
  stop : {s : Program} → Run s s
  next : {r s t : Program} → Step r s → Run s t → Run r t

-- What a device watcher reports: a device, and whether it went offline.
pub record DeviceStateChangedEvent : Type 0 where
  pub serial : Text
  pub went_offline : Bool

-- The events yet to come, after which the channel is closed, and how many times
-- `handleDeviceDisconnected` was called.
pub record Watch : Type 0 where
  pub events : List DeviceStateChangedEvent
  pub calls : ℕ

abbrev pub is_disconnection : Text → DeviceStateChangedEvent → Bool
is_disconnection serial e = text_eq e.serial serial && e.went_offline

abbrev received : Text → ℕ → List DeviceStateChangedEvent → Flow Watch Unit
received serial calls [] = breaks (record { events = []; calls = calls })
received serial calls (e ∷ es) =
    goes_on (record { events = es; calls = if is_disconnection serial e then suc calls else calls })

-- So many rounds of the loop of `watchForDeviceDisconnected`.
unfoldable pub watch_for_device_disconnected :
    Text → ℕ → List DeviceStateChangedEvent → Loop Watch Unit
watch_for_device_disconnected serial n events =
    for_loop (λ (s : Watch). in_select (received serial s.calls s.events)) n
      (record { events = events; calls = 0 })
