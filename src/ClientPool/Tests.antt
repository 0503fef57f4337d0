-- ===== src/ClientPool/Tests.antt =====
-- The pool that is configured for two clients.
use adbfs.Base.{◌+◌, ◌≤◌, ◌≡◌, refl, pos}
use adbfs.ClientPool.{Pool, Step, get_quick_use_client, stop, next}
use adbfs.ClientPool.Idle.{run-one_client}

abbrev taken : Pool
taken = record { capacity = 2; idle = 0; in_use = 1 }

run-one_client_example :
    (taken.in_use ≤ 1) × (taken.idle + taken.in_use ≡ 1) × ((q : Pool) × Step taken q)
run-one_client_example = run-one_client (pos 2) taken (next (get_quick_use_client 0 refl) stop)
