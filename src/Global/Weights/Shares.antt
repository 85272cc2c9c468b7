-- ===== src/Global/Weights/Shares.antt =====
-- The weights of a solver's cycle, and the rebalancing of clampWeights for one backend.
use optipilot_ai.Prelude.{
  String, ℤ, List, Map, Float64, pos, wrap32, wrap32-eq, wrap32-Int32, ◌≡◌, ◌∷◌, [], true, false,
  ltb_ℤ, if◌then◌else◌, lookup_or, eqb_ℤ, Bool-cases, inl, inr, arith, insert, not, lookup, ◌&&◌,
  refl, str_eq_refl, ◌-ℤ◌, ◌+ℤ◌, ◌∙◌, ap,
}
use optipilot_ai.Prelude.Wrap.{+ℤ_zero, +ℤ-sub, wrap32-+ℤ_right}
use optipilot_ai.Global.Weights.{
  sum_weights, adjust, clamp_weight, clamp_each, largest, clamp_weights, ClusterScore, total_score,
  rounded_weights, shift_of, best_cluster, scores_to_weights,
}
use optipilot_ai.Global.Weights.Total.{sum_weights-adjust}

adjusted_sum :
    (best : String) (out : Map ℤ)
    → sum_weights
        (if eqb_ℤ (sum_weights out) (pos 100) then out else adjust best (sum_weights out) out)
      ≡ pos 100
adjusted_sum best out = elim (Bool-cases (eqb_ℤ (sum_weights out) (pos 100))) [
  | inl e ↦ rw e (ground arith)
  | inr e ↦ rw e (sum_weights-adjust best out)
]

module _ {F : Type 0} ⦃fl : Float64 F⦄ where
  -- scoresToWeights gives weights that add up to 100, in int32 arithmetic, whenever there is a cluster and
  -- the scores do not add up to 0.
  pub scores_to_weights_sum :
      (sc : ClusterScore F) (scs : List (ClusterScore F)) (max_shift_percent : ℤ)
      → fl.eq (total_score (fl.of_int (pos 0)) (sc ∷ scs)) (fl.of_int (pos 0)) ≡ false
      → sum_weights (scores_to_weights (sc ∷ scs) max_shift_percent) ≡ pos 100
  unfolding scores_to_weights
  scores_to_weights_sum sc scs max_shift_percent h = rw h (
      adjusted_sum (best_cluster sc scs)
        (rounded_weights (sc ∷ scs) max_shift_percent (total_score (fl.of_int (pos 0)) (sc ∷ scs))))

nonnegative-wrap32 :
    (z : ℤ)
    → wrap32 (if ltb_ℤ (wrap32 z) (pos 0) then pos 0 else wrap32 z)
      ≡ (if ltb_ℤ (wrap32 z) (pos 0) then pos 0 else wrap32 z)
nonnegative-wrap32 z = elim (Bool-cases (ltb_ℤ (wrap32 z) (pos 0))) [
  | inl e ↦ rw e (wrap32-eq (pos 0) (omega arith, omega arith))
  | inr e ↦ rw e (wrap32-eq (wrap32 z) (wrap32-Int32 z))
]

insert_alone : (name : String) (v x : ℤ) → insert name x ((name, v) ∷ []) ≡ (name, x) ∷ []
unfolding insert
insert_alone name v x = rw (str_eq_refl name) refl

lookup_alone : (name : String) (v : ℤ) → lookup_or (pos 0) name ((name, v) ∷ []) ≡ v
unfolding lookup
lookup_alone name v = rw (lookup_or, str_eq_refl name) refl

adjust_alone : (name : String) (v : ℤ) → adjust name v ((name, v) ∷ []) ≡ (name, pos 100) ∷ []
unfolding adjust
adjust_alone name v = rw (lookup_alone name v) (
    insert_alone name v (wrap32 (v +ℤ wrap32 (pos 100 -ℤ v)))
    ∙ ap (λ x. (name, x) ∷ [])
        (wrap32-+ℤ_right v (pos 100 -ℤ v)
          ∙ ap wrap32 (+ℤ-sub v (pos 100))
          ∙ wrap32-eq (pos 100) (omega arith, omega arith)))

rebalanced_alone :
    (name : String) (v : ℤ)
    → wrap32 v ≡ v
    → ltb_ℤ (pos 0) v ≡ true
    → (if not (eqb_ℤ (sum_weights ((name, v) ∷ [])) (pos 100))
          && ltb_ℤ (pos 0) (sum_weights ((name, v) ∷ []))
        then adjust
            (largest ("", pos 0) ((name, v) ∷ [])).0
            (sum_weights ((name, v) ∷ []))
            ((name, v) ∷ [])
        else (name, v) ∷ [])
      ≡ (name, pos 100) ∷ []
unfolding sum_weights largest
rebalanced_alone name v w h = elim (Bool-cases (eqb_ℤ v (pos 100))) [
  | inl e ↦ let full : v ≡ pos 100 = ground arith in rw (+ℤ_zero v, w, e, full) refl
  | inr e ↦ rw (+ℤ_zero v, w, e, h) (adjust_alone name v)
]

module _ (max_shift : ℤ) (current : Map ℤ) (name : String) (new : ℤ) where
  abbrev clamped_alone : ℤ
  clamped_alone = clamp_weight max_shift (lookup_or (pos 0) name current) new

  clamped_alone-wrap32 : wrap32 clamped_alone ≡ clamped_alone
  unfolding clamp_weight
  clamped_alone-wrap32 =
      nonnegative-wrap32
        (lookup_or (pos 0) name current +ℤ shift_of max_shift (lookup_or (pos 0) name current) new)

  -- A plan that names one backend puts it at 100, whatever the bound on a shift, as soon as its clamped
  -- weight is above 0.
  pub single_backend_takes_all :
      ltb_ℤ (pos 0) (clamp_weight max_shift (lookup_or (pos 0) name current) new) ≡ true
      → clamp_weights max_shift current ((name, new) ∷ []) ≡ (name, pos 100) ∷ []
  unfolding clamp_weights clamp_each
  single_backend_takes_all h = rebalanced_alone name clamped_alone clamped_alone-wrap32 h
