-- ===== src/Prelude/Wrap.antt =====
-- Sums of int32 values: only the bits of the operands count.
use optipilot_ai.Prelude.{
  ℕ, ℤ, pos, negsuc, ◌+ℤ◌, ◌-ℤ◌, pos_part, neg_part, wrap32, ◌≡◌, arith, eq_of_parts, +ℤ_parts, ◌+◌,
  -ℤ_parts, ◌*◌, ◌⊎◌, if◌then◌else◌, inl, inr, refl, ltb, sym, ◌%◌, ◌/◌, suc, ◌-◌,
}

pub +ℤ_comm : (a b : ℤ) → a +ℤ b ≡ b +ℤ a
+ℤ_comm a b = eq_of_parts (a +ℤ b) (b +ℤ a) (omega (arith, +ℤ_parts a b, +ℤ_parts b a))

pub +ℤ_assoc : (a b c : ℤ) → (a +ℤ b) +ℤ c ≡ a +ℤ (b +ℤ c)
+ℤ_assoc a b c =
    eq_of_parts ((a +ℤ b) +ℤ c) (a +ℤ (b +ℤ c))
      (omega (arith, +ℤ_parts a b, +ℤ_parts b c, +ℤ_parts (a +ℤ b) c, +ℤ_parts a (b +ℤ c)))

pub +ℤ_zero : (a : ℤ) → a +ℤ pos 0 ≡ a
+ℤ_zero a = eq_of_parts (a +ℤ pos 0) a (omega (arith, +ℤ_parts a (pos 0)))

pub +ℤ-sub : (a b : ℤ) → a +ℤ (b -ℤ a) ≡ b
+ℤ-sub a b = eq_of_parts (a +ℤ (b -ℤ a)) b (omega (arith, +ℤ_parts a (b -ℤ a), -ℤ_parts b a))

-- Numbers that differ by a multiple of 2 ^ 32 have the same int32.
wrap32_of_bits :
    (a b : ℤ) (k : ℕ)
    → pos_part a + neg_part b ≡ pos_part b + neg_part a + 4294967296 * k
    → wrap32 a ≡ wrap32 b
unfolding wrap32
wrap32_of_bits (pos m) (pos n) k h = ground arith
wrap32_of_bits (pos m) (negsuc n) k h = ground arith
wrap32_of_bits (negsuc m) (pos n) k h = ground arith
wrap32_of_bits (negsuc m) (negsuc n) k h = ground arith

-- b is a, or below it or above it by that many turns of 2 ^ 32.
abbrev Turns : ℤ → ℤ → ℕ → Type 0
Turns a b k =
    (pos_part b + neg_part a + 4294967296 * k ≡ pos_part a + neg_part b)
    ⊎ (pos_part b + neg_part a ≡ pos_part a + neg_part b + 4294967296 * k)

wrap32_of_Turns : (a b : ℤ) (k : ℕ) → Turns a b k → wrap32 a ≡ wrap32 b
wrap32_of_Turns a b k (inl h) = wrap32_of_bits a b k (omega (arith, h))
wrap32_of_Turns a b k (inr h) = sym (wrap32_of_bits b a k (omega (arith, h)))

turns : ℤ → ℕ
turns (pos n) = if ltb (n % 4294967296) 2147483648 then n / 4294967296 else suc (n / 4294967296)
turns (negsuc n) =
    if ltb (4294967295 - n % 4294967296) 2147483648 then suc (n / 4294967296) else n / 4294967296

wrap32-Turns : (a : ℤ) → Turns a (wrap32 a) (turns a)
unfolding wrap32 turns
wrap32-Turns (pos n) = ground arith
wrap32-Turns (negsuc n) = ground arith

-- Wrapping a summand first changes nothing.
pub wrap32-+ℤ : (a b : ℤ) → wrap32 (wrap32 a +ℤ b) ≡ wrap32 (a +ℤ b)
wrap32-+ℤ a b = sym (wrap32_of_Turns (a +ℤ b) (wrap32 a +ℤ b) (turns a) (moved (wrap32-Turns a)))
  where
    moved : Turns a (wrap32 a) (turns a) → Turns (a +ℤ b) (wrap32 a +ℤ b) (turns a)
    moved (inl h) = inl (omega (arith, h, +ℤ_parts a b, +ℤ_parts (wrap32 a) b))
    moved (inr h) = inr (omega (arith, h, +ℤ_parts a b, +ℤ_parts (wrap32 a) b))

pub wrap32-+ℤ_right : (a b : ℤ) → wrap32 (a +ℤ wrap32 b) ≡ wrap32 (a +ℤ b)
wrap32-+ℤ_right a b = rw (+ℤ_comm a (wrap32 b), wrap32-+ℤ b a, +ℤ_comm b a) refl
