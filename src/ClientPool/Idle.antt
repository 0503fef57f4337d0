-- ===== src/ClientPool/Idle.antt =====
-- adb_filesystem.go: how many device clients there are.
use adbfs.Base.{◌==◌, ◌+◌, ◌≤◌, ◌≡◌, inl, inr, ℤ, pos, ltb_ℤ, arith, Bool-cases}
use adbfs.ClientPool.{
  Pool, new_pool, Step, get_quick_use_client, recycle_quick_use_client, Run, stop, next,
}

-- One client, idle or in use, in a channel with room for it.
pub record IsPool (p : Pool) : Type 0 where
  pub one : p.idle + p.in_use ≡ 1
  pub room : 1 ≤ p.capacity

new_pool-IsPool : (configured : ℤ) → IsPool (new_pool configured)
new_pool-IsPool configured = record {
  one = omega arith;
  room = elim (Bool-cases (ltb_ℤ configured (pos 1))) [
    | inl small ↦ rw small (omega arith)
    | inr large ↦ ground (arith, large)
  ];
}

step-IsPool : {p q : Pool} → IsPool p → Step p q → IsPool q
step-IsPool h (get_quick_use_client n e) = record { one = omega (arith, h.one, e); room = h.room }
step-IsPool h (recycle_quick_use_client n e f) = record {
  one = omega (arith, h.one, e);
  room = h.room;
}

run-IsPool : {p q : Pool} → IsPool p → Run p q → IsPool q
run-IsPool h stop = h
run-IsPool h (next s r) = run-IsPool (step-IsPool h s) r

-- A call that holds a client can always give it back at once, and while no call holds one the next
-- call gets one.
enabled : (p : Pool) → IsPool p → (q : Pool) × Step p q
enabled p h = elim (Bool-cases (p.idle == 0)) [
  | inl taken ↦
      (_, recycle_quick_use_client 0 (ground (arith, h.one, taken)) (ground (arith, h.room, taken)))
  | inr there ↦ (_, get_quick_use_client 0 (ground (arith, h.one, there)))
]

-- Whatever size of the pool is configured, and whatever calls have begun and ended: there is one
-- client, so that no two calls hold one at a time; and the calls do not block each other for good:
-- if one holds the client it can give it back at once, and otherwise the next call gets it.
pub run-one_client :
    (configured : ℤ) (p : Pool)
    → Run (new_pool configured) p
    → (p.in_use ≤ 1) × (p.idle + p.in_use ≡ 1) × ((q : Pool) × Step p q)
run-one_client configured p r =
    let h = run-IsPool (new_pool-IsPool configured) r in (omega (arith, h.one), h.one, enabled p h)
