-- ===== src/Global/Weights/Total.antt =====
-- What the weights add up to.
use optipilot_ai.Prelude.{
  String, ℤ, Map, insert, wrap32, lookup_or, lookup, ◌≡◌, pos, ◌+ℤ◌, [], refl, ◌-ℤ◌, ◌∷◌,
  Bool-cases, ◌∙◌, ap, str_eq, inl, inr, wrap32-eq, arith,
}
use optipilot_ai.Prelude.Wrap.{+ℤ_comm, +ℤ_assoc, +ℤ-sub, +ℤ_zero, wrap32-+ℤ, wrap32-+ℤ_right}
use optipilot_ai.Global.Weights.{sum_weights, adjust}

add_last : (a b d : ℤ) → wrap32 (a +ℤ wrap32 (b +ℤ d)) ≡ wrap32 (wrap32 (a +ℤ b) +ℤ d)
add_last a b d = rw (wrap32-+ℤ_right a (b +ℤ d), wrap32-+ℤ (a +ℤ b) d, +ℤ_assoc a b d) refl

add_first : (v s d : ℤ) → wrap32 (wrap32 (v +ℤ d) +ℤ s) ≡ wrap32 (wrap32 (v +ℤ s) +ℤ d)
add_first v s d =
    rw (wrap32-+ℤ (v +ℤ d) s, wrap32-+ℤ (v +ℤ s) d, +ℤ_assoc v d s, +ℤ_assoc v s d, +ℤ_comm d s)
      refl

-- Raising one entry raises the sum.
sum_weights-insert :
    (key : String) (d : ℤ) (m : Map ℤ) (v : ℤ)
    → lookup_or (pos 0) key m ≡ v
    → sum_weights (insert key (wrap32 (v +ℤ d)) m) ≡ wrap32 (sum_weights m +ℤ d)
unfolding sum_weights insert lookup
sum_weights-insert key d [] v q =
    rw (← q) (wrap32-+ℤ (pos 0 +ℤ d) (pos 0) ∙ ap wrap32 (+ℤ_zero (pos 0 +ℤ d)))
sum_weights-insert key d (e ∷ es) v q = elim (Bool-cases (str_eq e.0 key)) [
  | inl h ↦
      let q' : e.1 ≡ v = rw (lookup_or, h) at q in rw (h, ← q') (add_first e.1 (sum_weights es) d)
  | inr h ↦
      let q' : lookup_or (pos 0) key es ≡ v = rw (lookup_or, h) at q in
      rw (h, sum_weights-insert key d es v q') (add_last e.1 (sum_weights es) d)
]

pub sum_weights-adjust :
    (best : String) (m : Map ℤ) → sum_weights (adjust best (sum_weights m) m) ≡ pos 100
unfolding adjust
sum_weights-adjust best m =
    sum_weights-insert best (wrap32 (pos 100 -ℤ sum_weights m)) m (lookup_or (pos 0) best m) refl
    ∙ wrap32-+ℤ_right (sum_weights m) (pos 100 -ℤ sum_weights m)
    ∙ ap wrap32 (+ℤ-sub (sum_weights m) (pos 100))
    ∙ wrap32-eq (pos 100) (omega arith, omega arith)
