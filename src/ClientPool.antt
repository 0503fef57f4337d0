-- ===== src/ClientPool.antt =====
-- adb_filesystem.go: the pool of device clients, a buffered channel. `NewAdbFileSystem` makes and
-- fills it, and each call of the kernel takes a client from it first and gives it back at its end.
pub mod Idle
mod Tests
use adbfs.Base.{ℕ, suc, ◌+◌, ◌<◌, ◌≡◌, if◌then◌else◌, ℤ, pos, pos_part, ltb_ℤ}

-- `quickUseClientPool`: how many clients the channel has room for and how many stand in it. Beside
-- it, the calls that hold a client.
pub record Pool : Type 0 where
  pub capacity : ℕ
  pub idle : ℕ
  pub in_use : ℕ

abbrev pub pool_size : ℤ → ℤ
pool_size configured = if ltb_ℤ configured (pos 1) then pos 1 else configured

-- What `NewAdbFileSystem` makes of `ConnectionPoolSize`.
abbrev pub new_pool : ℤ → Pool
new_pool configured = record { capacity = pos_part (pool_size configured); idle = 1; in_use = 0 }

-- `getQuickUseClient` waits for a client, and `recycleQuickUseClient` for room.
pub data Step : Pool → Pool → Type 0 where
  get_quick_use_client :
      {p : Pool} (n : ℕ) → p.idle ≡ suc n → Step p (record p { idle = n; in_use = suc p.in_use })
  recycle_quick_use_client :
      {p : Pool} (n : ℕ)
      → p.in_use ≡ suc n
      → p.idle < p.capacity
      → Step p (record p { idle = suc p.idle; in_use = n })

pub data Run : Pool → Pool → Type 0 where
  stop : {p : Pool} → Run p p
  next : {p q r : Pool} → Step p q → Run q r → Run p r
