-- ===== src/Prelude/Split.antt =====
-- strings.SplitN(s, sep, 2) for a separator of one character: the text before its first place and the
-- text after it.
use Prim.Native.Char.{Char, code}
use Prim.Native.String.{String, ◌++◌}
use package.text.Mathlib.TextLemmas.{nil-append, cons-append}
use package.text.Mathlib.TextEquality.{Char-path}
use mathlib.Core.Path.{◌≡◌, refl, sym, ap, ◌∙◌, subst}
use mathlib.Core.Logic.{inl, inr}
use mathlib.Core.Bool.{true, false}
use mathlib.Core.Option.{Option, none, some}
use native.Mathlib.Omega.{arith}
use stile.Prelude.Tests.{if◌then◌else◌, ◌==◌, Bool-cases}

with_first : Char → Option (String × String) → Option (String × String)
with_first c none = none
with_first c (some (before, after)) = some (String.◌∷◌ c before, after)

unfoldable pub split_first : Char → String → Option (String × String)
unfolding with_first
split_first sep String.[] = none
split_first sep (String.◌∷◌ c s) =
    let rest = split_first sep s in if code c == code sep then some ("", s) else with_first c rest

with_first-none : (c : Char) (o : Option (String × String)) → with_first c o ≡ none → o ≡ none
unfolding with_first
with_first-none c none h = refl
with_first-none c (some (a, b)) h = cc

with_first-some :
    (c : Char) (o : Option (String × String)) (a b : String)
    → with_first c o ≡ some (a, b)
    → (rest : String) × (o ≡ some (rest, b)) × (String.◌∷◌ c rest ≡ a)
unfolding with_first
with_first-some c none a b h = cc
with_first-some c (some (r, t)) a b h =
    let head : String.◌∷◌ c r ≡ a = cc in
    let tail : t ≡ b = cc in (r, ap (λ (x : String). some (r, x)) tail, head)

module _ (sep : Char) where
  -- a text without the separator ends at the first one after it
  pub split_first-append :
      (s t : String)
      → split_first sep s ≡ none
      → split_first sep (s ++ String.◌∷◌ sep t) ≡ some (s, t)
  unfolding split_first with_first
  split_first-append String.[] t h =
      let here : (code sep == code sep) ≡ true = ground arith in rw (nil-append, here) refl
  split_first-append (String.◌∷◌ c s) t h = elim (Bool-cases (code c == code sep)) [
    | inl e ↦ absurd (ground arith)
    | inr f ↦
        let later : split_first sep s ≡ none = with_first-none c (split_first sep s) (rw f at h) in
        rw (cons-append, f, split_first-append s t later) refl
  ]

  pub split_first-other :
      (c : Char) (s : String)
      → (code c == code sep) ≡ false
      → split_first sep s ≡ none
      → split_first sep (String.◌∷◌ c s) ≡ none
  unfolding split_first with_first
  split_first-other c s f h = rw (f, h) refl

  -- the parts of a text around its first separator
  pub split_first-parts :
      (s a b : String)
      → split_first sep s ≡ some (a, b)
      → (s ≡ a ++ String.◌∷◌ sep b) × (split_first sep a ≡ none)
  unfolding split_first
  split_first-parts String.[] a b h = cc
  split_first-parts (String.◌∷◌ c s) a b h = elim (Bool-cases (code c == code sep)) [
    | inl e ↦
        let split : some ("", s) ≡ some (a, b) = rw e at h in
        let start : "" ≡ a = cc in
        let rest : s ≡ b = cc in
        let same : c ≡ sep = Char-path c sep (ground arith) in
        let here : String.◌∷◌ c s ≡ "" ++ String.◌∷◌ sep s =
          rw nil-append (ap (λ (x : Char). String.◌∷◌ x s) same) in
        (
          subst (λ (x : String). String.◌∷◌ c s ≡ x ++ String.◌∷◌ sep b) start
              (subst (λ (x : String). String.◌∷◌ c s ≡ "" ++ String.◌∷◌ sep x) rest here),
          subst (λ (x : String). split_first sep x ≡ none) start refl,
        )
    | inr f ↦
        let (before, found, longer) = with_first-some c (split_first sep s) a b (rw f at h) in
        let (parts, clear) = split_first-parts s before b found in
        (
          ap (λ (x : String). String.◌∷◌ c x) parts
              ∙ sym (cons-append c before (String.◌∷◌ sep b))
              ∙ ap (λ (x : String). x ++ String.◌∷◌ sep b) longer,
          subst (λ (x : String). split_first sep x ≡ none) longer
              (split_first-other c before f clear),
        )
  ]
