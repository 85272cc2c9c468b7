-- ===== src/Storage.antt =====
-- internal/storage/recommender.go. sort.Slice, strings.EqualFold and the formats of numbers are arguments.
pub mod Best
mod Tests
use optipilot_ai.Prelude.{
  Float64, String, List, Option, Map, Bool, [], false, filterb, if◌then◌else◌, map, none, some, ℕ,
  ◌∷◌, not, pos, str_eq, ◌&&◌, true,
}

-- PVCMetrics
pub record PvcMetrics (F : Type 0) : Type 0 where
  pub namespace : String
  pub pvc_name : String
  pub read_iops : F
  pub write_iops : F
  pub read_throughput_mbs : F
  pub write_throughput_mbs : F
  pub read_latency_ms : F
  pub write_latency_ms : F
  pub queue_depth : F
  pub current_storage_class : String
  pub capacity_gib : F

-- WorkloadProfile
pub data WorkloadProfile : Type 0 where
  read_heavy write_heavy mixed sequential random bursty idle_profile : WorkloadProfile

-- The texts of the constants.
unfoldable pub profile_text : WorkloadProfile → String
profile_text read_heavy = "read-heavy"
profile_text write_heavy = "write-heavy"
profile_text mixed = "mixed"
profile_text sequential = "sequential"
profile_text random = "random"
profile_text bursty = "bursty"
profile_text idle_profile = "idle"

-- StorageClassProfile
pub record StorageClassProfile (F : Type 0) : Type 0 where
  pub name : String
  pub max_iops : F
  pub max_throughput : F
  pub avg_latency_ms : F
  pub cost_per_gib_month : F
  pub best_for : List WorkloadProfile

-- Recommendation
pub record Recommendation (F : Type 0) : Type 0 where
  pub pvc_namespace : String
  pub pvc_name : String
  pub current_class : String
  pub recommended_class : String
  pub profile : WorkloadProfile
  pub reason : String
  pub est_monthly_cost_cur : F
  pub est_monthly_cost_new : F
  pub est_monthly_savings : F
  pub annotations : Map String

-- scoredClass
pub record ScoredClass (F : Type 0) : Type 0 where
  pub class : StorageClassProfile F
  pub score : F

-- strings.EqualFold, the text of buildReason and `%.2f`.
pub record StorageTexts (F : Type 0) : Type 0 where
  pub equal_fold : String → String → Bool
  pub reason : PvcMetrics F → WorkloadProfile → StorageClassProfile F → String
  pub two_decimals : F → String

-- profileMatch
unfoldable pub profile_match : List WorkloadProfile → WorkloadProfile → Bool
unfolding profile_text
profile_match [] target = false
profile_match (p ∷ ps) target =
    if str_eq (profile_text p) (profile_text target) then true else profile_match ps target

module _ {F : Type 0} ⦃fl : Float64 F⦄ where
  abbrev pub whole : ℕ → F
  whole n = fl.of_int (pos n)

  -- TotalIOPS, TotalThroughput
  abbrev pub total_iops : PvcMetrics F → F
  total_iops m = fl.add m.read_iops m.write_iops

  abbrev pub total_throughput : PvcMetrics F → F
  total_throughput m = fl.add m.read_throughput_mbs m.write_throughput_mbs

  -- AvgLatency
  unfoldable pub avg_latency : PvcMetrics F → F
  avg_latency m =
      let reads = fl.lt (whole 0) m.read_latency_ms in
      let writes = fl.lt (whole 0) m.write_latency_ms in
      let total = if reads then fl.add (whole 0) m.read_latency_ms else whole 0 in
      let count = if reads then fl.add (whole 0) (whole 1) else whole 0 in
      if fl.eq m.read_latency_ms (whole 0) && fl.eq m.write_latency_ms (whole 0)
      then whole 0
      else fl.div (if writes then fl.add total m.write_latency_ms else total)
          (if writes then fl.add count (whole 1) else count)

  -- The part of ClassifyProfile from the ratio of reads on.
  unfoldable pub classify_ratio : F → F → F → WorkloadProfile
  classify_ratio iops read_ratio avg_io_size_kb =
      if fl.lt (fl.lit 7 1) read_ratio
      then read_heavy
      else if fl.lt read_ratio (fl.lit 3 1)
      then write_heavy
      else if fl.lt (whole 500) iops && fl.lt avg_io_size_kb (whole 32)
      then random
      else mixed

  -- ClassifyProfile
  unfoldable pub classify_profile : PvcMetrics F → WorkloadProfile
  unfolding classify_ratio
  classify_profile m =
      let iops = total_iops m in
      let busy = fl.lt (whole 0) iops in
      let avg_io_size_kb = fl.div (fl.mul (total_throughput m) (whole 1024)) iops in
      if fl.lt iops (whole 1) && fl.lt (total_throughput m) (fl.lit 1 1)
      then idle_profile
      else if busy && fl.lt (fl.lit 5 2) (fl.div m.queue_depth iops)
      then bursty
      else if busy && fl.lt (whole 128) avg_io_size_kb
      then sequential
      else classify_ratio iops (if busy then fl.div m.read_iops iops else whole 0)
          (if busy then avg_io_size_kb else whole 0)

  -- DefaultCatalog
  abbrev pub default_catalog : List (StorageClassProfile F)
  default_catalog =
      record {
        name = "gp3";
        max_iops = whole 16000;
        max_throughput = whole 1000;
        avg_latency_ms = fl.lit 15 1;
        cost_per_gib_month = fl.lit 8 2;
        best_for = mixed ∷ read_heavy ∷ idle_profile ∷ [];
      }
      ∷ record {
        name = "io2";
        max_iops = whole 64000;
        max_throughput = whole 1000;
        avg_latency_ms = fl.lit 5 1;
        cost_per_gib_month = fl.lit 125 3;
        best_for = random ∷ bursty ∷ [];
      }
      ∷ record {
        name = "st1";
        max_iops = whole 500;
        max_throughput = whole 500;
        avg_latency_ms = whole 5;
        cost_per_gib_month = fl.lit 45 3;
        best_for = sequential ∷ write_heavy ∷ [];
      }
      ∷ []

  -- NewRecommender: its catalog.
  unfoldable pub new_recommender : List (StorageClassProfile F) → List (StorageClassProfile F)
  new_recommender [] = default_catalog
  new_recommender (c ∷ cs) = c ∷ cs

  -- What is added to the score for a need above a limit.
  unfoldable pub penalised : F → F → F → F
  penalised score limit need =
      if fl.lt (whole 0) limit && fl.lt limit need
      then fl.add score (fl.mul (whole 50) (fl.div need limit))
      else score

  -- classScore
  unfoldable pub class_score : PvcMetrics F → WorkloadProfile → StorageClassProfile F → F
  unfolding profile_match penalised
  class_score m profile c =
      let affinity =
        if not (profile_match c.best_for profile) then fl.add (whole 0) (whole 100) else whole 0 in
      let score =
        penalised (penalised affinity c.max_iops (total_iops m)) c.max_throughput
          (total_throughput m) in
      fl.add (if fl.lt (whole 0) c.avg_latency_ms then fl.add score c.avg_latency_ms else score)
        (fl.mul c.cost_per_gib_month (whole 10))

  -- scoreClasses
  unfoldable pub score_classes :
      PvcMetrics F → WorkloadProfile → List (StorageClassProfile F) → List (ScoredClass F)
  unfolding class_score
  score_classes m profile catalog =
      map (λ c. record { class = c; score = class_score m profile c }) catalog

  abbrev pub lower_score : ScoredClass F → ScoredClass F → Bool
  lower_score a b = fl.lt a.score b.score

  -- findClass
  unfoldable pub find_class :
      (String → String → Bool)
      → String
      → List (StorageClassProfile F)
      → Option (StorageClassProfile F)
  find_class equal_fold name [] = none
  find_class equal_fold name (c ∷ cs) =
      if equal_fold c.name name then some c else find_class equal_fold name cs

  -- buildAnnotations
  unfoldable pub build_annotations : StorageTexts F → Recommendation F → Map String
  unfolding profile_text
  build_annotations texts rec =
      ("optipilot.ai/storage-profile", profile_text rec.profile)
      ∷ ("optipilot.ai/storage-recommended", rec.recommended_class)
      ∷ ("optipilot.ai/storage-cost-current", texts.two_decimals rec.est_monthly_cost_cur)
      ∷ ("optipilot.ai/storage-cost-new", texts.two_decimals rec.est_monthly_cost_new)
      ∷ ("optipilot.ai/storage-savings", texts.two_decimals rec.est_monthly_savings)
      ∷ []

  -- Recommend from the best class on.
  unfoldable pub recommend_class :
      StorageTexts F
      → List (StorageClassProfile F)
      → PvcMetrics F
      → WorkloadProfile
      → StorageClassProfile F
      → Recommendation F
  unfolding find_class build_annotations
  recommend_class texts catalog m profile best =
      let cap = if fl.le m.capacity_gib (whole 0) then whole 1 else m.capacity_gib in
      let cost_cur : F = elim (find_class texts.equal_fold m.current_storage_class catalog) [
        | none ↦ whole 0
        | some c ↦ fl.mul c.cost_per_gib_month cap
      ] in
      let cost_new = fl.mul best.cost_per_gib_month cap in
      let rec : Recommendation F = record {
        pvc_namespace = m.namespace;
        pvc_name = m.pvc_name;
        current_class = m.current_storage_class;
        recommended_class = best.name;
        profile = profile;
        reason = texts.reason m profile best;
        est_monthly_cost_cur = cost_cur;
        est_monthly_cost_new = cost_new;
        est_monthly_savings = fl.sub cost_cur cost_new;
        annotations = [];
      } in
      record rec { annotations = build_annotations texts rec }

  -- Recommend; `none` for the panic of an empty catalog.
  unfoldable pub recommend :
      StorageTexts F
      → (List (ScoredClass F) → List (ScoredClass F))
      → List (StorageClassProfile F)
      → PvcMetrics F
      → Option (Recommendation F)
  unfolding classify_profile score_classes recommend_class
  recommend texts sort catalog m =
      let profile = classify_profile m in
      elim (sort (score_classes m profile catalog)) [
        | [] ↦ none
        | best ∷ rest ↦ some (recommend_class texts catalog m profile best.class)
      ]

  -- RecommendAll, with none where one Recommend panics.
  unfoldable pub recommend_all :
      StorageTexts F
      → (List (ScoredClass F) → List (ScoredClass F))
      → List (StorageClassProfile F)
      → List (PvcMetrics F)
      → Option (List (Recommendation F))
  unfolding recommend
  recommend_all texts sort catalog [] = some []
  recommend_all texts sort catalog (m ∷ ms) =
      let rest = recommend_all texts sort catalog ms in
      elim (recommend texts sort catalog m) [
        | none ↦ none
        | some r ↦ elim rest [ none ↦ none | some rs ↦ some (r ∷ rs) ]
      ]

  -- ChangesOnly
  unfoldable pub changes_only :
      (String → String → Bool) → List (Recommendation F) → List (Recommendation F)
  changes_only equal_fold recs =
      filterb (λ r. not (equal_fold r.current_class r.recommended_class)) recs
