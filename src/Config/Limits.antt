-- ===== src/Config/Limits.antt =====
-- `ParseRateLimit` of internal/config/config.go: texts such as "100/min". A float64 is a number that
-- spells its bits, and the operations on it are those of `Floats`.
pub mod Exact
use stile.Prelude.{
  ℕ, ◌≡◌, ◌⊎◌, inl, inr, String, Bool, ◌||◌, Option, none, some, ◌==◌, str_eq, if◌then◌else◌,
  Option-cases, Bool-cases, arith, subst,
}
use stile.Prelude.Split.{split_first}
use stile.Prelude.Int.{ℤ, pos, IsPositive, positive_or, positive_or-IsPositive}
use stile.Config.Error.{LimitError, expected_format, count_not_positive, bad_unit}

pub record RateLimit : Type 0 where
  pub rate : ℕ
  pub burst : ℤ
  pub count : ℤ
  pub window : ℕ

-- strconv.ParseFloat(s, 64), `x <= 0`, `x / 60` and the like, int(math.Ceil(x)); `x < 0 || x > 1`,
-- `x == 0` and the bits of 1.0
pub record Floats : Type 0 where
  pub parse_float : String → Option ℕ
  pub at_most_zero : ℕ → Bool
  pub divide : ℕ → ℕ → ℕ
  pub ceiling : ℕ → ℤ
  pub outside_unit : ℕ → Bool
  pub is_zero : ℕ → Bool
  pub one : ℕ

-- the text before the first slash and the text after it
abbrev pub split_slash : String → Option (String × String)
split_slash = split_first "/"

-- the window of a unit in seconds
unfoldable pub window_of : String → Option ℕ
window_of unit =
    if str_eq unit "sec" || str_eq unit "second"
    then some 1
    else if str_eq unit "min" || str_eq unit "minute"
    then some 60
    else if str_eq unit "hour"
    then some 3600
    else none

pub data Parsed : Type 0 where
  parsed : RateLimit → Parsed
  rejected : LimitError → Parsed

module _ (f : Floats) where
  per_second : ℕ → ℕ → ℕ
  per_second count window = if window == 1 then count else f.divide count window

  with_window : String → ℕ → Option ℕ → Parsed
  unfolding per_second positive_or
  with_window s count none = rejected (bad_unit s)
  with_window s count (some window) = parsed (record {
    rate = per_second count window;
    burst = positive_or (pos 1) (f.ceiling (per_second count window));
    count = f.ceiling count;
    window = window;
  })

  with_count : String → String → Option ℕ → Parsed
  unfolding with_window window_of
  with_count s unit none = rejected (count_not_positive s)
  with_count s unit (some count) =
      if f.at_most_zero count
      then rejected (count_not_positive s)
      else with_window s count (window_of unit)

  with_parts : String → Option (String × String) → Parsed
  unfolding with_count
  with_parts s none = rejected (expected_format s)
  with_parts s (some (count, unit)) = with_count s unit (f.parse_float count)

  unfoldable pub parse_rate_limit : String → Parsed
  unfolding with_parts split_first
  parse_rate_limit s = with_parts s (split_slash s)

abbrev pub IsWindow : ℕ → Type 0
IsWindow w = (w ≡ 1) ⊎ (w ≡ 60) ⊎ (w ≡ 3600)

-- A window of a second, a minute or an hour, and a bucket that holds a request.
pub record IsUsable (r : RateLimit) : Type 0 where
  pub burst_positive : IsPositive r.burst
  pub window_known : IsWindow r.window

abbrev Usable : Parsed → Type 0
Usable (parsed r) = IsUsable r
Usable (rejected e) = Unit

window_of-IsWindow : (unit : String) (w : ℕ) → window_of unit ≡ some w → IsWindow w
unfolding window_of
window_of-IsWindow unit w h = ground arith

module _ (f : Floats) (s : String) where
  with_window-Usable : (count : ℕ) (unit : String) → Usable (with_window f s count (window_of unit))
  unfolding with_window
  with_window-Usable count unit = elim (Option-cases (window_of unit)) [
    | inl missing ↦ rw missing tt
    | inr (w, found) ↦ rw found (record {
      burst_positive =
          positive_or-IsPositive (pos 1) (f.ceiling (per_second f count w)) (omega arith);
      window_known = window_of-IsWindow unit w found;
    })
  ]

  with_count-Usable : (unit : String) (count : Option ℕ) → Usable (with_count f s unit count)
  unfolding with_count
  with_count-Usable unit none = tt
  with_count-Usable unit (some count) = elim (Bool-cases (f.at_most_zero count)) [
    | inl t ↦ rw t tt
    | inr u ↦ rw u (with_window-Usable count unit)
  ]

  with_parts-Usable : (parts : Option (String × String)) → Usable (with_parts f s parts)
  unfolding with_parts
  with_parts-Usable none = tt
  with_parts-Usable (some (count, unit)) = with_count-Usable unit (f.parse_float count)

pub parse_rate_limit-IsUsable :
    (f : Floats) (s : String) (r : RateLimit) → parse_rate_limit f s ≡ parsed r → IsUsable r
unfolding parse_rate_limit
parse_rate_limit-IsUsable f s r h = subst Usable h (with_parts-Usable f s (split_slash s))
