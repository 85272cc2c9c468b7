-- ===== src/Prelude/Float.antt =====
-- Go's float64, of which the program uses the operations below. A value that is not `<=` itself is
-- a NaN. `lit m k` is the literal m / 10 ^ k; `of_int` converts an integer; `round` is the integer
-- that `int64(math.Round(x))` gives.
use Prim.Native.Nat.{ℕ}
use mathlib.Core.Path.{◌≡◌}
use mathlib.Core.Logic.{◌⊎◌}
use mathlib.Core.Bool.{Bool, true, false}
use native.Mathlib.Omega.{arith}
use optipilot_ai.Prelude.Int.{ℤ}

pub record Float64 (F : Type 0) : Type 0 where
  pub lt : F → F → Bool
  pub le : F → F → Bool
  pub eq : F → F → Bool
  pub add : F → F → F
  pub sub : F → F → F
  pub mul : F → F → F
  pub div : F → F → F
  pub sqrt : F → F
  pub max : F → F → F
  pub min : F → F → F
  pub of_int : ℤ → F
  pub round : F → ℤ
  pub lit : ℕ → ℕ → F

abbrev pub IsNumber : {F : Type 0} ⦃fl : Float64 F⦄ → F → Type 0
IsNumber ⦃fl⦄ x = fl.le x x ≡ true

-- The order of IEEE 754: comparisons with a NaN are false, and the other values are in line.
pub record IsOrdered (F : Type 0) ⦃fl : Float64 F⦄ : Type 0 where
  pub lt_irrefl : (x : F) → fl.lt x x ≡ false
  pub lt_trans : (x y z : F) → fl.lt x y ≡ true → fl.lt y z ≡ true → fl.lt x z ≡ true
  pub lt_total :
      (x y : F)
      → IsNumber x
      → IsNumber y
      → (fl.lt x y ≡ true) ⊎ (fl.eq x y ≡ true) ⊎ (fl.lt y x ≡ true)
  pub le_iff : (x y : F) → (fl.le x y ≡ true) → (fl.lt x y ≡ true) ⊎ (fl.eq x y ≡ true)
  pub le_of_lt : (x y : F) → fl.lt x y ≡ true → fl.le x y ≡ true
  pub le_of_eq : (x y : F) → fl.eq x y ≡ true → fl.le x y ≡ true
  pub eq_symm : (x y : F) → fl.eq x y ≡ true → fl.eq y x ≡ true
  pub eq_trans : (x y z : F) → fl.eq x y ≡ true → fl.eq y z ≡ true → fl.eq x z ≡ true
  pub lt-eq : (x y z : F) → fl.lt x y ≡ true → fl.eq y z ≡ true → fl.lt x z ≡ true
  pub eq-lt : (x y z : F) → fl.eq x y ≡ true → fl.lt y z ≡ true → fl.lt x z ≡ true
  pub number_of_lt : (x y : F) → fl.lt x y ≡ true → IsNumber x × IsNumber y

module _ {F : Type 0} ⦃fl : Float64 F⦄ (laws : IsOrdered F) where
  open laws use {lt_irrefl, lt_trans, lt_total, lt-eq, eq-lt, eq_symm, eq_trans}

  -- For numbers, "not below" is transitive, and a strict step on the way makes it strict.
  pub ge_trans :
      (x y z : F)
      → IsNumber x
      → IsNumber y
      → IsNumber z
      → fl.lt x y ≡ false
      → fl.lt y z ≡ false
      → fl.lt x z ≡ false
  ge_trans x y z nx ny nz p q = ground (
    arith,
    lt_total x y nx ny,
    lt_total y z ny nz,
    lt-eq x z y,
    eq-lt y x z,
    lt_trans y x z,
    eq_symm x y,
    eq_symm y z,
    lt_trans x z y,
  )

  pub gt-ge :
      (x y z : F)
      → IsNumber y
      → IsNumber z
      → fl.lt y x ≡ true
      → fl.lt y z ≡ false
      → fl.lt z x ≡ true
  gt-ge x y z ny nz p q =
      ground (arith, lt_total y z ny nz, eq-lt z y x, lt_trans z y x, eq_symm y z)

  pub ge-gt :
      (x y z : F)
      → IsNumber x
      → IsNumber y
      → fl.lt x y ≡ false
      → fl.lt z y ≡ true
      → fl.lt z x ≡ true
  ge-gt x y z nx ny p q =
      ground (arith, lt_total x y nx ny, lt-eq z y x, lt_trans z y x, eq_symm x y)
