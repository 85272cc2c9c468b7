-- ===== src/Tuning/Choice/Next.antt =====
-- Which parameter NextParameterToTune picks.
use optipilot_ai.Prelude.{
  String, List, ℕ, [], ◌∷◌, some, Memᴰ, ◌≡◌, ◌≢◌, ◌≤◌, Bool, str_eq, suc, ◌+◌, get_elem?, refl,
  true, eq_of_str_eq, false, Bool-cases, inl, inr, arith, str_eq_refl, sym, ap, ◌∙◌, All-mem,
}
use optipilot_ai.Prelude.Sorting.{IsOrderedBy, IsStrictWeakOn, Sorts}
use optipilot_ai.Tuning.Types.{TunableParameter, ParameterObservation}
use optipilot_ai.Tuning.Choice.{
  Ranked, count_of, rank_from, first_other, fewer, chosen_index, next_parameter_to_tune,
}

-- The first element that is not for the active parameter, if there is one.
first_other_lem :
    (active : String) (rs : List Ranked) (r : Ranked)
    → IsOrderedBy fewer rs
    → Memᴰ r rs
    → r.name ≢ active
    → (x : Ranked) × (first_other active rs ≡ some x)
      × Memᴰ x rs
      × (x.name ≢ active)
      × (x.count ≤ r.count)
unfolding first_other
first_other_lem active [] r ord m h = elim m [ ]
first_other_lem active (y ∷ ys) r ord m h = elim (Bool-cases (str_eq y.name active)) [
  | inl e ↦
      let later = first_other_lem active ys r ord.1 (in_rest m e) h in
      rw e (later.0, later.1, Memᴰ.tail later.2, later.3, later.4)
  | inr e ↦ rw e (y, refl, Memᴰ.head refl, not_active e, no_more m)
]
  where
    not_active : str_eq y.name active ≡ false → y.name ≢ active
    not_active e q = let t : str_eq y.name active ≡ true = rw q (str_eq_refl active) in cc

    no_more : Memᴰ r (y ∷ ys) → y.count ≤ r.count
    no_more (Memᴰ.head q) = omega (arith, ap (λ z. z.count) q)
    no_more (Memᴰ.tail m') =
        let later : fewer r y ≡ false = All-mem (λ z. fewer z y ≡ false) r ys ord.0 m' in
        ground arith

    in_rest : Memᴰ r (y ∷ ys) → str_eq y.name active ≡ true → Memᴰ r ys
    in_rest (Memᴰ.head q) e = absurd (h (rw q (eq_of_str_eq y.name active e)))
    in_rest (Memᴰ.tail m') e = m'

rank_of_mem :
    {F : Type 0} (i : ℕ) (params : List TunableParameter) (obs : List (ParameterObservation F))
    (r : Ranked)
    → Memᴰ r (rank_from i params obs)
    → (p : TunableParameter) × (k : ℕ) × (r.idx ≡ i + k)
      × (get_elem? params k ≡ some p)
      × (r.name ≡ p.name)
      × (r.count ≡ count_of p.name obs)
unfolding rank_from
rank_of_mem i [] obs r m = elim m [ ]
rank_of_mem i (p ∷ ps) obs r (Memᴰ.head e) =
    (p, 0, omega (arith, ap (λ z. z.idx) e), refl, rw e refl, rw e refl)
rank_of_mem i (p ∷ ps) obs r (Memᴰ.tail m) =
    let (q, k, a, b, c, d) = rank_of_mem (suc i) ps obs r m in (q, suc k, omega (arith, a), b, c, d)

mem-rank :
    {F : Type 0} (i : ℕ) (params : List TunableParameter) (obs : List (ParameterObservation F))
    (p : TunableParameter)
    → Memᴰ p params
    → (r : Ranked) × Memᴰ r (rank_from i params obs)
      × (r.name ≡ p.name)
      × (r.count ≡ count_of p.name obs)
unfolding rank_from
mem-rank i [] obs p m = elim m [ ]
mem-rank i (x ∷ xs) obs p (Memᴰ.head e) = (
  record { idx = i; name = x.name; count = count_of x.name obs },
  Memᴰ.head refl,
  rw e refl,
  rw e refl,
)
mem-rank i (x ∷ xs) obs p (Memᴰ.tail m) =
    let (r, m', a, b) = mem-rank (suc i) xs obs p m in (r, Memᴰ.tail m', a, b)

chosen_of_first :
    (active : String) (rs : List Ranked) (x : Ranked)
    → first_other active rs ≡ some x
    → chosen_index active rs ≡ some x.idx
unfolding chosen_index
chosen_of_first active [] x e = absurd (none_ne e)
  where
    none_ne : first_other active [] ≡ some x → ⊥
    none_ne q = unfold first_other in cc
chosen_of_first active (r ∷ rs) x e = rw (chosen_index, e) refl

-- Numbers of observations can be sorted.
IsStrictWeakOn-fewer : (rs : List Ranked) → IsStrictWeakOn fewer rs
IsStrictWeakOn-fewer rs = record {
  asym = λ x y mx my h. ground arith;
  trans = λ x y z mx my mz h k. ground arith;
}

-- When sort.Slice sorts and some parameter is not the active one, NextParameterToTune gives the index of
-- a parameter that is not the active one either, and that has been observed no more often than any
-- parameter that is not the active one.
pub next_parameter_to_tune_lem :
    {F : Type 0} (sort : (Ranked → Ranked → Bool) → List Ranked → List Ranked)
    (sorts : Sorts fewer (sort fewer)) (params : List TunableParameter) (active : String)
    (obs : List (ParameterObservation F)) (p : TunableParameter)
    → Memᴰ p params
    → p.name ≢ active
    → (k : ℕ) × (x : TunableParameter) × (next_parameter_to_tune sort params active obs ≡ some k)
      × (get_elem? params k ≡ some x)
      × (x.name ≢ active)
      × (count_of x.name obs ≤ count_of p.name obs)
unfolding next_parameter_to_tune
next_parameter_to_tune_lem sort sorts params active obs p m h =
    let ranked = rank_from 0 params obs in
    let (r, rm, rn, rc) = mem-rank 0 params obs p m in
    let (x, first, xm, xn, xc) =
      first_other_lem active (sort fewer ranked) r
        (sorts.orders ranked (IsStrictWeakOn-fewer ranked)) (sorts.keeps ranked r rm)
        (λ q. h (sym rn ∙ q)) in
    let (y, k, yi, yk, yn, yc) = rank_of_mem 0 params obs x (sorts.invents_none ranked x xm) in
    let index : x.idx ≡ k = omega (arith, yi) in
    (
      k,
      y,
      chosen_of_first active (sort fewer ranked) x first ∙ ap some index,
      yk,
      λ q. xn (yn ∙ q),
      omega (arith, xc, rc, yc),
    )
