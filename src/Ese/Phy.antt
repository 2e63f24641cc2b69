-- ===== src/Ese/Phy.antt =====
-- What the T=1 layer uses of the physical driver and of the environment: PhWrite and PhRead, the
-- heap, the clock, and the thread that may call DoReadTerminate. Ese/Driver fills the two calls
-- from the operating system's.
use android_vendor_tms.Prelude.{ℕ, ◌≤◌, Bool, Option, some, List, ◌≡◌, length}

-- `D` is the state of the world. `write` returns whether PhWrite did not return -1. `read` asks
-- for a number of bytes and returns those that arrived, or `none` for a negative result; read(2)
-- returns at most what was asked for. `alloc` says whether the allocations made at a point succeed: it
-- is asked once for each transmission, each frame sent and each block received. At the end of a
-- polling round, `read_done` says that DoReadTerminate has been called and `elapsed` is the time in seconds since the loop
-- began; `interrupted` says that errno is EINTR.
pub record Phy (D : Type 0) : Type 0 where
  pub write : D → List ℕ → D × Bool
  pub read : D → ℕ → D × Option (List ℕ)
  pub read_at_most : (d : D) (n : ℕ) (bs : List ℕ) → (read d n).1 ≡ some bs → length bs ≤ n
  pub alloc : D → D × Bool
  pub read_done : D → Bool
  pub elapsed : D → ℕ
  pub interrupted : D → Bool
