-- ===== src/Claimer/Backoff.antt =====
-- `exponentialBackoff` (cmd/claimer/main.go). Durations are nanoseconds in an `int64`; here they are
-- natural numbers, as every duration that the code makes is at least zero.
pub mod Delays
use openfilter_pipelines_con.Base.{ℕ, zero, suc, ◌*◌, ltb, if◌then◌else◌, List, [], ◌∷◌}

abbrev pub second : ℕ
second = 1000000000

pub record ExponentialBackoff : Type 0 where
  pub min : ℕ
  pub max : ℕ
  pub current : ℕ

-- A limit below one second is raised to it.
unfoldable pub new_exponential_backoff : ℕ → ExponentialBackoff
new_exponential_backoff max = record {
  min = second;
  max = if ltb max second then second else max;
  current = second;
}

-- The next delay, and the backoff behind it.
unfoldable pub next : ExponentialBackoff → ℕ × ExponentialBackoff
next b =
    let doubled = b.current * 2 in
    let raised = if ltb b.max doubled then b.max else doubled in
    (b.current, record b { current = if ltb b.current b.max then raised else b.current })

unfoldable pub reset : ExponentialBackoff → ExponentialBackoff
reset b = record b { current = b.min }

-- The delays of the first `n` retries.
pub delays : ℕ → ExponentialBackoff → List ℕ
unfolding next
delays zero b = []
delays (suc n) b = (next b).0 ∷ delays n (next b).1
