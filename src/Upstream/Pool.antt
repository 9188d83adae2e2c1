-- ===== src/Upstream/Pool.antt =====
-- The pool of idle connections.
use border_dns.Prelude.{ℕ, ◌-◌, ◌≤◌, ◌≡◌, false, List, [], ◌∷◌, length, AnyOf, leb}
use border_dns.Upstream.{ConnPool, take_conn, put_conn}

-- A connection taken from the pool or put back into it, at a time.
pub data PoolOp (T : Type 0) : Type 0 where
  taken : ℕ → PoolOp T
  returned : ℕ → T → PoolOp T

module _ {T : Type 0} where
  unfoldable pub run_op : PoolOp T → ConnPool T → ConnPool T
  run_op (taken now) pool = (take_conn now pool).1
  run_op (returned now conn) pool = put_conn now conn pool

  unfoldable pub run_ops : List (PoolOp T) → ConnPool T → ConnPool T
  run_ops [] pool = pool
  run_ops (op ∷ ops) pool = run_ops ops (run_op op pool)

  record Bounded (pool : ConnPool T) (max_idle idle_timeout : ℕ) : Type 0 where
    bound : length pool.idle ≤ max_idle
    same : pool.max_idle ≡ max_idle
    kept : pool.idle_timeout ≡ idle_timeout

  -- The connection is idle and was put back less than the timeout ago.
  abbrev pub Live : ℕ → ℕ → T → List (ℕ × T) → Type 0
  Live now idle_timeout conn idle =
      AnyOf (λ e. (e.1 ≡ conn) × (leb idle_timeout (now - e.0) ≡ false)) idle
