-- ===== src/Prelude/Dict.antt =====
-- Go's `map[string]V`: a chain of bindings, newest first, of which `put` and `remove` leave at most
-- one for a key. The order in which Go ranges over a map is not modelled: what ranges over one says
-- so.
use Prim.Native.String.{String}
use mathlib.Core.Path.{◌≡◌, refl}
use mathlib.Core.Option.{Option, none, some}
use mathlib.Core.List.{List, [], ◌∷◌}
use native.Mathlib.Omega.{arith}
use text.Mathlib.Text.{◌==◌}
use text.Mathlib.TextEquality.{eq_iff}
use Prim.Native.Nat.{ℕ, ◌+◌, ◌≤◌}
use mathlib.Core.Bool.{true}
use stile.Prelude.Tests.{if◌then◌else◌, is_some}

pub data Dict {ℓ} (V : Type ℓ) : Type ℓ where
  no_bindings : Dict V
  binding : String → V → Dict V → Dict V

module _ {ℓ} {V : Type ℓ} where
  unfoldable pub empty : Dict V
  empty = no_bindings

  -- m[k], with the test of presence
  unfoldable pub get : Dict V → String → Option V
  get no_bindings key = none
  get (binding held v older) key = if held == key then some v else get older key

  -- delete(m, k)
  unfoldable pub remove : Dict V → String → Dict V
  remove no_bindings key = no_bindings
  remove (binding held v older) key =
      let others = remove older key in if held == key then others else binding held v others

  -- m[k] = v
  unfoldable pub put : Dict V → String → V → Dict V
  unfolding remove
  put m key v = binding key v (remove m key)

  -- len(m)
  abbrev pub size : Dict V → ℕ
  size no_bindings = 0
  size (binding held v older) = size older + 1

  -- the values, in the order of the chain
  abbrev pub values : Dict V → List V
  values no_bindings = []
  values (binding held v older) = v ∷ values older

  pub get-remove :
      (m : Dict V) (key asked : String)
      → get (remove m key) asked ≡ (if key == asked then none else get m asked)
  unfolding get remove
  get-remove no_bindings key asked = ground arith
  get-remove (binding held v older) key asked =
      ground
        (arith, get-remove older key asked, eq_iff held key, eq_iff held asked, eq_iff key asked)

  pub get-put :
      (m : Dict V) (key asked : String) (v : V)
      → get (put m key v) asked ≡ (if key == asked then some v else get m asked)
  unfolding get put
  get-put m key asked v = ground (arith, get-remove m key asked)

  remove_absent : (m : Dict V) (key : String) → get m key ≡ none → remove m key ≡ m
  unfolding get remove
  remove_absent no_bindings key h = refl
  remove_absent (binding held v older) key h = ground (arith, remove_absent older key)

  pub size-put_new :
      (m : Dict V) (key : String) (v : V) → get m key ≡ none → size (put m key v) ≡ size m + 1
  unfolding put
  size-put_new m key v h = rw (remove_absent m key h)

  size-remove_le : (m : Dict V) (key : String) → size (remove m key) ≤ size m
  unfolding remove
  size-remove_le no_bindings key = omega arith
  size-remove_le (binding held v older) key = ground (arith, size-remove_le older key)

  size-remove_held :
      (m : Dict V) (key : String) → is_some (get m key) ≡ true → size (remove m key) + 1 ≤ size m
  unfolding get remove
  size-remove_held no_bindings key h = cc
  size-remove_held (binding held v older) key h =
      ground (arith, size-remove_le older key, size-remove_held older key)

  -- putting makes a map longer by one binding at most, and by none where the key was held
  pub size-put_le : (m : Dict V) (key : String) (v : V) → size (put m key v) ≤ size m + 1
  unfolding put
  size-put_le m key v = omega (arith, size-remove_le m key)

  pub size-put_held :
      (m : Dict V) (key : String) (v : V) → is_some (get m key) ≡ true → size (put m key v) ≤ size m
  unfolding put
  size-put_held m key v h = omega (arith, size-remove_held m key h)

  pub get-empty : (key : String) → get empty key ≡ none
  unfolding get empty
  get-empty key = refl

pub ruleset dict_laws = (get-empty, get-remove, get-put)
