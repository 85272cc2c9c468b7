-- ===== src/Storage/Best.antt =====
-- Which class Recommend recommends.
use optipilot_ai.Prelude.{
  subst, Float64, List, Memᴰ, Option, [], ◌∷◌, ◌≡◌, ap, some, false, ◌∙◌, sym, IsOrdered, All-mem,
  refl, IsNumber, ge_trans, arith,
}
use optipilot_ai.Prelude.Sorting.{Sorts, IsOrderedBy, IsStrictWeakOn}
use optipilot_ai.Storage.{
  PvcMetrics, WorkloadProfile, StorageClassProfile, Recommendation, ScoredClass, StorageTexts,
  classify_profile, class_score, score_classes, lower_score, default_catalog, new_recommender,
  recommend_class, recommend,
}

module _ {F : Type 0} ⦃fl : Float64 F⦄ where
  mem-score_classes :
      (m : PvcMetrics F) (profile : WorkloadProfile) (catalog : List (StorageClassProfile F))
      (c : StorageClassProfile F)
      → Memᴰ c catalog
      → Memᴰ
          (record { class = c; score = class_score m profile c })
          (score_classes m profile catalog)
  unfolding score_classes
  mem-score_classes m profile [] c k = elim k [ ]
  mem-score_classes m profile (x ∷ xs) c (Memᴰ.head e) =
      Memᴰ.head (ap (λ z. record { class = z; score = class_score m profile z }) e)
  mem-score_classes m profile (x ∷ xs) c (Memᴰ.tail k) =
      Memᴰ.tail (mem-score_classes m profile xs c k)

  scored_of_mem :
      (m : PvcMetrics F) (profile : WorkloadProfile) (catalog : List (StorageClassProfile F))
      (s : ScoredClass F)
      → Memᴰ s (score_classes m profile catalog)
      → Memᴰ s.class catalog × (s.score ≡ class_score m profile s.class)
  unfolding score_classes
  scored_of_mem m profile [] s k = elim k [ ]
  scored_of_mem m profile (x ∷ xs) s (Memᴰ.head e) = (
    Memᴰ.head (ap (λ z. z.class) e),
    ap (λ z. z.score) e ∙ ap (class_score m profile) (sym (ap (λ z. z.class) e)),
  )
  scored_of_mem m profile (x ∷ xs) s (Memᴰ.tail k) =
      let (r, t) = scored_of_mem m profile xs s k in (Memᴰ.tail r, t)

  -- The recommendation is for a class of the catalog, and no class of the catalog has a lower score.
  abbrev pub Recommends :
      StorageTexts F
      → List (StorageClassProfile F)
      → PvcMetrics F
      → Option (Recommendation F)
      → Type 0
  Recommends texts catalog m rec' =
      let profile = classify_profile m in
      (best : StorageClassProfile F) × Memᴰ best catalog
      × (rec' ≡ some (recommend_class texts catalog m profile best))
      × ((c : StorageClassProfile F)
          → Memᴰ c catalog
          → fl.lt (class_score m profile c) (class_score m profile best) ≡ false)

  -- The scores of a catalog are numbers, none is a NaN.
  abbrev pub HaveScores : List (StorageClassProfile F) → PvcMetrics F → Type 0
  HaveScores catalog m =
      (c : StorageClassProfile F) → Memᴰ c catalog → IsNumber (class_score m (classify_profile m) c)

  module _ (laws : IsOrdered F) where
    first_lowest :
        (b s : ScoredClass F) (rs : List (ScoredClass F))
        → IsOrderedBy lower_score (b ∷ rs)
        → Memᴰ s (b ∷ rs)
        → fl.lt s.score b.score ≡ false
    first_lowest b s rs o (Memᴰ.head e) = ap (λ z. fl.lt z.score b.score) e ∙ laws.lt_irrefl b.score
    first_lowest b s rs o (Memᴰ.tail k) = All-mem (λ y. lower_score y b ≡ false) s rs o.0 k

    module _ (texts : StorageTexts F) (sort : List (ScoredClass F) → List (ScoredClass F))
        (sorts : Sorts lower_score sort) where
      -- Scores that are numbers can be sorted.
      IsStrictWeakOn-lower_score :
          (rs : List (ScoredClass F))
          → ((s : ScoredClass F) → Memᴰ s rs → IsNumber s.score)
          → IsStrictWeakOn lower_score rs
      IsStrictWeakOn-lower_score rs numbers = record {
        asym = λ x y mx my h.
            ground (arith, laws.lt_trans x.score y.score x.score, laws.lt_irrefl x.score);
        trans = λ x y z mx my mz h k.
            ge_trans laws z.score y.score x.score (numbers z mz) (numbers y my) (numbers x mx) k h;
      }

      by_sorted :
          (catalog : List (StorageClassProfile F)) (m : PvcMetrics F) (c : StorageClassProfile F)
          (rs : List (ScoredClass F))
          → Memᴰ c catalog
          → HaveScores catalog m
          → sort (score_classes m (classify_profile m) catalog) ≡ rs
          → Recommends texts catalog m (recommend texts sort catalog m)
      unfolding recommend
      by_sorted catalog m c [] k numbers e =
          let profile = classify_profile m in
          let kept =
            sorts.keeps (score_classes m profile catalog) _
              (mem-score_classes m profile catalog c k) in
          absurd (
            elim (subst (λ ys. Memᴰ (record { class = c; score = class_score m profile c }) ys) e
              kept) [ ])
      by_sorted catalog m c (b ∷ rest) k numbers e =
          let profile = classify_profile m in
          let scored = score_classes m profile catalog in
          let ordered = subst (IsOrderedBy lower_score) e (
            sorts.orders scored (
              IsStrictWeakOn-lower_score scored (λ s ms.
                let (there, same) = scored_of_mem m profile catalog s ms in
                subst IsNumber (sym same) (numbers s.class there)))) in
          let (known, score) =
            scored_of_mem m profile catalog b
              (sorts.invents_none scored b (subst (λ ys. Memᴰ b ys) (sym e) (Memᴰ.head refl))) in
          (
            b.class,
            known,
            rw (recommend, e) refl,
            λ c' k'.
                let there =
                  subst (λ ys. Memᴰ (record { class = c'; score = class_score m profile c' }) ys) e
                    (sorts.keeps scored _ (mem-score_classes m profile catalog c' k')) in
                ap (fl.lt (class_score m profile c')) (sym score)
                ∙ first_lowest b (record { class = c'; score = class_score m profile c' }) rest
                    ordered there,
          )

      -- With a sort.Slice that sorts by a strict weak order, a recommender of a catalog, of the default one
      -- when that is empty, recommends whenever the scores of its catalog are numbers, and what it
      -- recommends is a class of its catalog such that none of the catalog has a lower score.
      pub recommend-Recommends :
          (given : List (StorageClassProfile F)) (m : PvcMetrics F)
          → HaveScores (new_recommender given) m
          → Recommends texts
              (new_recommender given)
              m
              (recommend texts sort (new_recommender given) m)
      unfolding new_recommender
      recommend-Recommends [] m numbers =
          by_sorted default_catalog m _ _ (Memᴰ.head refl) numbers refl
      recommend-Recommends (c ∷ cs) m numbers =
          by_sorted (c ∷ cs) m c _ (Memᴰ.head refl) numbers refl
