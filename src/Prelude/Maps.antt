-- ===== src/Prelude/Maps.antt =====
-- Go's maps with string keys, as association lists. A write replaces the entry in its place or adds
-- one at the end; the order of the list is one order in which `range` may visit the map.
use Prim.Native.String.{String}
use mathlib.Core.Path.{◌≡◌, refl}
use mathlib.Core.Logic.{◌≢◌, inl, inr}
use mathlib.Core.Bool.{Bool, true, false}
use mathlib.Core.Option.{Option, none, some}
use mathlib.Core.List.{List, [], ◌∷◌, map}
use native.Mathlib.Omega.{arith}
use text.Mathlib.Text.{◌==◌}
use text.Mathlib.TextEquality.{eq_iff}
use optipilot_ai.Prelude.Tests.{if◌then◌else◌, Bool-cases}

abbrev pub str_eq : String → String → Bool
str_eq s t = s == t

pub str_eq_refl : (s : String) → str_eq s s ≡ true
str_eq_refl s = (eq_iff s s).1 refl

pub str_eq-false : (s t : String) → s ≢ t → str_eq s t ≡ false
str_eq-false s t h = elim (Bool-cases (str_eq s t)) [
  | inl e ↦ absurd (h ((eq_iff s t).0 e))
  | inr e ↦ e
]

pub eq_of_str_eq : (s t : String) → str_eq s t ≡ true → s ≡ t
eq_of_str_eq s t h = (eq_iff s t).0 h

abbrev pub Map {ℓ} : Type ℓ → Type ℓ
Map V = List (String × V)

module _ {ℓ} {V : Type ℓ} where
  -- `v, ok := m[key]`
  unfoldable pub lookup : String → Map V → Option V
  lookup key [] = none
  lookup key (entry ∷ rest) = if str_eq entry.0 key then some entry.1 else lookup key rest

  -- `m[key] = x`
  unfoldable pub insert : String → V → Map V → Map V
  insert key x [] = (key, x) ∷ []
  insert key x (entry ∷ rest) =
      if str_eq entry.0 key then (key, x) ∷ rest else entry ∷ insert key x rest

  -- `delete(m, key)`
  unfoldable pub erase : String → Map V → Map V
  erase key [] = []
  erase key (entry ∷ rest) = if str_eq entry.0 key then erase key rest else entry ∷ erase key rest

  -- `m[key]`, with the zero value for a missing key.
  abbrev pub lookup_or : V → String → Map V → V
  lookup_or d key m = elim (lookup key m) [ none ↦ d | some v ↦ v ]

  abbrev pub keys : Map V → List String
  keys m = map (λ entry. entry.0) m

  module _ (key other : String) where
    pub lookup-insert :
        (x : V) (m : Map V)
        → lookup other (insert key x m) ≡ (if str_eq key other then some x else lookup other m)
    unfolding lookup insert
    lookup-insert x [] = refl
    lookup-insert x (entry ∷ rest) =
        ground
          (arith, lookup-insert x rest, eq_iff entry.0 key, eq_iff entry.0 other, eq_iff key other)

    pub lookup-erase :
        (m : Map V)
        → lookup other (erase key m) ≡ (if str_eq key other then none else lookup other m)
    unfolding lookup erase
    lookup-erase [] = ground arith
    lookup-erase (entry ∷ rest) =
        ground
          (arith, lookup-erase rest, eq_iff entry.0 key, eq_iff entry.0 other, eq_iff key other)
