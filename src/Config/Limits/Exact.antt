-- ===== src/Config/Limits/Exact.antt =====
-- The texts that are rate limits, and what each means.
use Prim.Native.String.{◌++◌}
use package.text.Mathlib.TextLemmas.{nil-append, cons-append}
use stile.Prelude.{
  ℕ, ◌≡◌, ◌↔◌, ◌⊎◌, inl, inr, refl, sym, ◌∙◌, ap, subst, String, false, Option, none, some, eq_iff,
  arith, Bool-cases, ◌==◌, if◌then◌else◌,
}
use stile.Prelude.Int.{pos, positive_or}
use stile.Prelude.Split.{split_first-append, split_first-parts}
use stile.Config.Error.{LimitError}
use stile.Config.Limits.{
  Floats, RateLimit, split_slash, window_of, parsed, rejected, per_second, with_window, with_count,
  with_parts, parse_rate_limit,
}

-- a unit with its window in seconds
abbrev pub IsUnit : String → ℕ → Type 0
IsUnit unit window =
    (((unit ≡ "sec") ⊎ (unit ≡ "second")) × (window ≡ 1))
    ⊎ (((unit ≡ "min") ⊎ (unit ≡ "minute")) × (window ≡ 60))
    ⊎ ((unit ≡ "hour") × (window ≡ 3600))

window_of-IsUnit : (unit : String) (window : ℕ) → window_of unit ≡ some window → IsUnit unit window
unfolding window_of
window_of-IsUnit unit window h = ground (
  arith,
  eq_iff unit "sec",
  eq_iff unit "second",
  eq_iff unit "min",
  eq_iff unit "minute",
  eq_iff unit "hour",
)

IsUnit-window_of : (unit : String) (window : ℕ) → IsUnit unit window → window_of unit ≡ some window
unfolding window_of
IsUnit-window_of unit window (inl (inl u, w)) = rw (u, w) refl
IsUnit-window_of unit window (inl (inr u, w)) = rw (u, w) refl
IsUnit-window_of unit window (inr (inl (inl u, w))) = rw (u, w) refl
IsUnit-window_of unit window (inr (inl (inr u, w))) = rw (u, w) refl
IsUnit-window_of unit window (inr (inr (u, w))) = rw (u, w) refl

slash-append : (t : String) → "/" ++ t ≡ String.◌∷◌ "/" t
slash-append t = rw (cons-append, nil-append) refl

parsed_value : (r r' : RateLimit) → parsed r ≡ parsed r' → r ≡ r'
parsed_value r r' h = cc

not_parsed : (e : LimitError) (r : RateLimit) → ¬ (rejected e ≡ parsed r)
not_parsed e r h = cc

module _ (f : Floats) where
  -- The text is a number that is not at most 0, a slash and a unit. The limit has the number per window of the
  -- unit as its rate per second, the number rounded up as its count, and as burst the rate rounded
  -- up, or one where that is not positive.
  pub record Means (s : String) (r : RateLimit) : Type 0 where
    pub number : String
    pub unit : String
    pub count : ℕ
    pub written : s ≡ number ++ ("/" ++ unit)
    pub first_slash : split_slash number ≡ none
    pub parses : f.parse_float number ≡ some count
    pub above_zero : f.at_most_zero count ≡ false
    pub of_unit : IsUnit unit r.window
    pub per_window : r.rate ≡ (if r.window == 1 then count else f.divide count r.window)
    pub rounded : r.count ≡ f.ceiling count
    pub at_once : r.burst ≡ positive_or (pos 1) (f.ceiling r.rate)

  -- the limit that the code builds
  abbrev built : ℕ → ℕ → RateLimit
  built count window = record {
    rate = per_second f count window;
    burst = positive_or (pos 1) (f.ceiling (per_second f count window));
    count = f.ceiling count;
    window = window;
  }

  with_window-Means :
      (s number unit : String) (count : ℕ) (o : Option ℕ) (r : RateLimit)
      → split_slash s ≡ some (number, unit)
      → f.parse_float number ≡ some count
      → f.at_most_zero count ≡ false
      → window_of unit ≡ o
      → with_window f s count o ≡ parsed r
      → Means s r
  unfolding with_window per_second
  with_window-Means s number unit count none r a b p w h = absurd (not_parsed _ r h)
  with_window-Means s number unit count (some window) r a b p w h =
      let (written, first) = split_first-parts "/" s number unit a in
      let means : Means s (built count window) = record {
        number = number;
        unit = unit;
        count = count;
        written = rw (slash-append unit) written;
        first_slash = first;
        parses = b;
        above_zero = p;
        of_unit = window_of-IsUnit unit window w;
        per_window = refl;
        rounded = refl;
        at_once = refl;
      } in
      subst (Means s) (parsed_value (built count window) r h) means

  with_count-Means :
      (s number unit : String) (o : Option ℕ) (r : RateLimit)
      → split_slash s ≡ some (number, unit)
      → f.parse_float number ≡ o
      → with_count f s unit o ≡ parsed r
      → Means s r
  unfolding with_count
  with_count-Means s number unit none r a b h = absurd (not_parsed _ r h)
  with_count-Means s number unit (some count) r a b h = elim (Bool-cases (f.at_most_zero count)) [
    | inl t ↦ absurd (not_parsed _ r (rw t at h))
    | inr p ↦ with_window-Means s number unit count (window_of unit) r a b p refl (rw p at h)
  ]

  with_parts-Means :
      (s : String) (o : Option (String × String)) (r : RateLimit)
      → split_slash s ≡ o
      → with_parts f s o ≡ parsed r
      → Means s r
  unfolding with_parts
  with_parts-Means s none r a h = absurd (not_parsed _ r h)
  with_parts-Means s (some (number, unit)) r a h =
      with_count-Means s number unit (f.parse_float number) r a refl h

  Means-parse_rate_limit :
      (s : String) (r : RateLimit) → Means s r → parse_rate_limit f s ≡ parsed r
  unfolding parse_rate_limit with_parts with_count with_window per_second
  Means-parse_rate_limit s r m =
      let split : split_slash s ≡ some (m.number, m.unit) =
        rw (m.written, slash-append m.unit)
          (split_first-append "/" m.number m.unit m.first_slash) in
      let window = IsUnit-window_of m.unit r.window m.of_unit in
      let bursts =
        ap (λ (x : ℕ). positive_or (pos 1) (f.ceiling x)) (sym m.per_window) ∙ sym m.at_once in
      let same : built m.count r.window ≡ r = λ i. record {
        rate = sym m.per_window i;
        burst = bursts i;
        count = sym m.rounded i;
        window = r.window;
      } in
      rw (split, m.parses, m.above_zero, window) (ap (λ (x : RateLimit). parsed x) same)

  -- A text parses to a rate limit exactly where it is a number that is not at most 0, a slash and a
  -- unit, which is sec or second, min or minute, or hour, and the limit has the number, divided by the
  -- seconds of a unit longer than one, as its rate, the number rounded up as its count, the seconds as
  -- its window, and as burst the rate rounded up, or one where that is not positive.
  pub parse_rate_limit_exact :
      (s : String) (r : RateLimit) → (parse_rate_limit f s ≡ parsed r) ↔ Means s r
  unfolding parse_rate_limit
  parse_rate_limit_exact s r =
      (with_parts-Means s (split_slash s) r refl, Means-parse_rate_limit s r)
