-- ===== src/Server/Rates.antt =====
-- crates/voipc-server/src/state.rs: `RateLimiter`, a token bucket. The values of `f64` are their bit
-- patterns, and the arithmetic on them is the processor's and so a parameter.
use vo_ipc.Prelude.{ℕ, ◌-◌, Bool, true, false, if◌then◌else◌}

-- The time of a request, in the nanoseconds of `Instant`, and what the bucket uses of `Duration` and
-- `f64`: `as_secs_f64` of a duration in nanoseconds, the literals by their number of tenths, and the
-- operations `+`, `-`, `*`, `min` and `>=`.
pub record Clock : Type 0 where
  pub now : ℕ
  pub as_secs_f64 : ℕ → ℕ
  pub tenths : ℕ → ℕ
  pub plus : ℕ → ℕ → ℕ
  pub minus : ℕ → ℕ → ℕ
  pub times : ℕ → ℕ → ℕ
  pub least : ℕ → ℕ → ℕ
  pub at_least : ℕ → ℕ → Bool

pub record RateLimiter : Type 0 where
  pub tokens : ℕ
  pub max_tokens : ℕ
  pub refill_rate : ℕ
  pub last_refill : ℕ

unfoldable pub new : ℕ → ℕ → Clock → RateLimiter
new max_tokens refill_rate c = record {
  tokens = max_tokens;
  max_tokens = max_tokens;
  refill_rate = refill_rate;
  last_refill = c.now;
}

-- The tokens at the time of the request, before one is taken. `duration_since` gives 0 for an earlier
-- time.
abbrev pub refilled : RateLimiter → Clock → ℕ
refilled r c =
    let elapsed = c.as_secs_f64 (c.now - r.last_refill) in
    c.least (c.plus r.tokens (c.times elapsed r.refill_rate)) r.max_tokens

unfoldable pub try_consume : RateLimiter → Clock → RateLimiter × Bool
try_consume r c =
    let one = c.tenths 10 in
    if c.at_least (refilled r c) one
    then (record r { tokens = c.minus (refilled r c) one; last_refill = c.now }, true)
    else (record r { tokens = refilled r c; last_refill = c.now }, false)
