-- ===== src/Global/Weights/Clamp.antt =====
-- How far clampWeights moves one weight before it looks at the sum.
use optipilot_ai.Prelude.{
  ℕ, pos, wrap32, wrap32-eq, ◌≤◌, ◌+◌, ◌≡◌, ◌+ℤ◌, ◌-ℤ◌, arith, if◌then◌else◌, ◌<◌, leb, negsuc, ◌-◌,
  ltb, false, ◌∙◌, Bool-cases, inl, inr, refl,
}
use optipilot_ai.Global.Weights.{shift_of, clamp_weight}

difference :
    (m n : ℕ)
    → m ≤ 100
    → n ≤ 100
    → wrap32 (pos n -ℤ pos m) ≡ (if leb m n then pos (n - m) else negsuc (m - n - 1))
unfolding ◌-ℤ◌
difference m n a b = rw (wrap32-eq (pos n -ℤ pos m) (ground arith)) (ground arith)

moved_up : (m n : ℕ) → m ≤ 100 → n ≤ 100 → wrap32 (pos m +ℤ pos n) ≡ pos (m + n)
unfolding ◌+ℤ◌
moved_up m n a b = rw (wrap32-eq (pos m +ℤ pos n) (ground arith)) (ground arith)

moved_down :
    (m n : ℕ)
    → m ≤ 100
    → n < 100
    → wrap32 (pos m +ℤ negsuc n) ≡ (if leb (n + 1) m then pos (m - n - 1) else negsuc (n - m))
unfolding ◌+ℤ◌
moved_down m n a b = rw (wrap32-eq (pos m +ℤ negsuc n) (ground arith)) (ground arith)

above : (m n : ℕ) → n < m → leb m n ≡ false
above m n h = ground arith

-- For a bound of 1 to 100 and before the sum is considered, a weight in 0 to 100 takes the value nearest to
-- the desired one, also in 0 to 100, that is within the bound of the current one.
pub clamp_weight_lem :
    (max_shift old new : ℕ)
    → 1 ≤ max_shift
    → max_shift ≤ 100
    → old ≤ 100
    → new ≤ 100
    → clamp_weight (pos max_shift) (pos old) (pos new)
      ≡ pos (
          if ltb (old + max_shift) new
          then old + max_shift
          else if ltb (new + max_shift) old
          then old - max_shift
          else new)
unfolding clamp_weight shift_of
clamp_weight_lem max_shift old new z a b c =
    let least : wrap32 (pos 0 -ℤ pos max_shift) ≡ negsuc (max_shift - 1) =
      difference max_shift 0 a (omega arith) ∙ ground arith in
    elim (Bool-cases (leb old new)) [
      | inl e ↦
          let up : wrap32 (pos new -ℤ pos old) ≡ pos (new - old) =
            difference old new b c ∙ rw e refl in
          rw (up, least)
            (ground (arith, moved_up old max_shift b a, moved_up old (new - old) b (omega arith)))
      | inr e ↦
          let down : wrap32 (pos new -ℤ pos old) ≡ negsuc (old - new - 1) =
            difference old new b c ∙ rw e refl in
          rw (down, least)
            (ground (
              arith,
              moved_down old (max_shift - 1) b (omega arith),
              moved_down old (old - new - 1) b (ground arith),
            ))
    ]
