-- ===== src/Prelude/Thousandths.antt =====
-- Whole thousandths as a float64: numbers at which the hypotheses about floats can be met and the
-- definitions evaluated. Products and quotients are rounded towards zero, `x / 0` is 0, and
-- `sqrt` is the integer square root of a value below 2 ^ 40.
use optipilot_ai.Prelude.{
  ℕ, zero, suc, ◌+◌, ◌-◌, ◌*◌, ◌/◌, ◌^◌, ◌≡◌, ◌⊎◌, true, arith, leb, if◌then◌else◌, ℤ, pos, negsuc,
  pos_part, neg_part, sub_ℕ, ltb_ℤ, leb_ℤ, eqb_ℤ, Float64, IsOrdered,
}

abbrev pub Thousandths : Type 0
Thousandths = ℤ

-- The binary digits of the root, from the highest.
abbrev root_below : ℕ → ℕ → ℕ → ℕ
root_below zero r n = r
root_below (suc k) r n = root_below k (if leb ((r + 2 ^ k) * (r + 2 ^ k)) n then r + 2 ^ k else r) n

abbrev quotient : ℕ → ℕ → ℕ → ℤ
quotient p q d = if leb q p then pos ((p - q) / d) else sub_ℕ 0 ((q - p) / d)

abbrev mul : ℤ → ℤ → ℤ
mul a b =
    quotient (pos_part a * pos_part b + neg_part a * neg_part b)
      (pos_part a * neg_part b + neg_part a * pos_part b) 1000

abbrev div : ℤ → ℤ → ℤ
div a (pos d) = quotient (1000 * pos_part a) (1000 * neg_part a) d
div a (negsuc d) = quotient (1000 * neg_part a) (1000 * pos_part a) (suc d)

instance abbrev pub thousandths : Float64 Thousandths
thousandths = record {
  lt = ltb_ℤ;
  le = leb_ℤ;
  eq = eqb_ℤ;
  add = λ a b. sub_ℕ (pos_part a + pos_part b) (neg_part a + neg_part b);
  sub = λ a b. sub_ℕ (pos_part a + neg_part b) (neg_part a + pos_part b);
  mul = mul;
  div = div;
  sqrt = λ a. pos (root_below 20 0 (1000 * pos_part a));
  max = λ a b. if ltb_ℤ a b then b else a;
  min = λ a b. if ltb_ℤ a b then a else b;
  of_int = λ a. sub_ℕ (1000 * pos_part a) (1000 * neg_part a);
  round = λ a.
      if ltb_ℤ a (pos 0)
      then sub_ℕ 0 ((neg_part a + 500) / 1000)
      else pos ((pos_part a + 500) / 1000);
  lit = λ m k. pos (1000 * m / 10 ^ k);
}

lt_total : (x y : ℤ) → (ltb_ℤ x y ≡ true) ⊎ (eqb_ℤ x y ≡ true) ⊎ (ltb_ℤ y x ≡ true)
lt_total x y = ground arith

pub Thousandths-IsOrdered : IsOrdered Thousandths
Thousandths-IsOrdered = record {
  lt_irrefl = λ x. ground arith;
  lt_trans = λ x y z p q. ground arith;
  lt_total = λ x y p q. lt_total x y;
  le_iff = λ x y p. ground arith;
  le_of_lt = λ x y p. ground arith;
  le_of_eq = λ x y p. ground arith;
  eq_symm = λ x y p. ground arith;
  eq_trans = λ x y z p q. ground arith;
  lt-eq = λ x y z p q. ground arith;
  eq-lt = λ x y z p q. ground arith;
  number_of_lt = λ x y p. ground arith;
}
