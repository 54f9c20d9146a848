-- ===== src/Policy/Limits.antt =====
-- What the two rate limiters of internal/policy share: config.RateLimit, the result of a check, and
-- the choice of the snapshot that is reported. A rate is a positive finite float64, which stands here
-- as the number that its 64 bits spell: these are ordered as the rates are.
use stile.Prelude.{ℕ, Option, List, [], ◌∷◌, ltb, if◌then◌else◌}

pub record RateLimit : Type 0 where
  pub rate : ℕ
  pub burst : ℕ
  pub count : ℕ
  pub window : ℕ

-- Denial
pub data Level : Type 0 where
  caller tool upstream : Level

-- RateLimitResult; times are in nanoseconds
pub record RateLimitResult : Type 0 where
  pub denial : Option Level
  pub limit : ℕ
  pub remaining : ℕ
  pub reset_at : ℕ
  pub retry_after : ℕ

-- The first snapshot with the fewest requests left, `best` so far.
unfoldable pub most_restrictive : {A : Type 0} → (A → ℕ) → A → List A → A
most_restrictive remaining best [] = best
most_restrictive remaining best (s ∷ ss) =
    let better = most_restrictive remaining s ss in
    let same = most_restrictive remaining best ss in
    if ltb (remaining s) (remaining best) then better else same
