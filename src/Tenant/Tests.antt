-- ===== src/Tenant/Tests.antt =====
-- Runs of the tenants' parts, and their theorems there.
use optipilot_ai.Prelude.{
  String, List, Option, [], map, pos, some, ℤ, ◌∷◌, ◌≡◌, Bool, false, if◌then◌else◌, none, refl,
  true, str_eq, ◌↔◌,
}
use optipilot_ai.Prelude.Thousandths.{Thousandths, thousandths}
use optipilot_ai.Tenant.Types.{TenantBudgets, TenantProfile, TenantState}
use optipilot_ai.Tenant.Quota.{
  check_quota, allowed, denied, cores_exceeded, ResourceDelta, WithinBudgets, check_quota_iff,
}
use optipilot_ai.Tenant.Shares.{FairShareInput, compute_fair_shares}
use optipilot_ai.Tenant.Noisy.{
  NoisyNeighborAlert, NoisyNeighborDetector, DetectorCall, records, asks_noisy,
  new_noisy_neighbor_detector, call_all, detect, is_noisy,
}
use optipilot_ai.Tenant.Noisy.Retained.{Retains, detector-Retains}
use optipilot_ai.Tenant.Manager.{Manager, new_manager, update_profiles, get_state}
use optipilot_ai.Tenant.Manager.Tracked.{last_named, tracked, update_profiles_lem}

abbrev input : String → ℤ → ℤ → Bool → ℤ → FairShareInput Thousandths
input name weight percent burstable cap = record {
  name = name;
  weight = weight;
  guaranteed_cores_percent = percent;
  burstable = burstable;
  max_burst_percent = cap;
  current_cores = pos 0;
}

-- The first tenant's guarantee is above its cap and the second is capped; the shares of the three add up to
-- twice the cluster.
abbrev inputs : List (FairShareInput Thousandths)
inputs =
    input "a" (pos 10) (pos 30) false (pos 20)
    ∷ input "b" (pos 10) (pos 10) true (pos 20)
    ∷ input "c" (pos 10) (pos 10) true (pos 0)
    ∷ []

shares_total :
    map (λ s. s.total_cores) (compute_fair_shares (pos 100_000) inputs)
    ≡ pos 30_000 ∷ pos 20_000 ∷ pos 150_000 ∷ []
unfolding compute_fair_shares
shares_total = refl

abbrev usage : List (DetectorCall Thousandths)
usage =
    records 1000 "a" (pos 2000)
    ∷ records 1000 "b" (pos 3000)
    ∷ records 2000 "a" (pos 4000)
    ∷ records 2000 "b" (pos 1000)
    ∷ asks_noisy 2000 "a"
    ∷ []

abbrev detector : NoisyNeighborDetector Thousandths
detector = call_all new_noisy_neighbor_detector usage

abbrev guarantees : List (String × Thousandths)
guarantees = ("a", pos 2000) ∷ ("b", pos 3000) ∷ []

abbrev cores : List (String × Thousandths)
cores = ("a", pos 4000) ∷ ("b", pos 1000) ∷ []

abbrev alarm : NoisyNeighborAlert Thousandths
alarm = record {
  aggressor = "a";
  aggressor_growth = pos 1000;
  victims = "b" ∷ [];
  timestamp = 3000;
}

noisy_then : (is_noisy 4000 (detect 3000 detector guarantees cores).0 "a").1 ≡ true
unfolding new_noisy_neighbor_detector call_all detect is_noisy
noisy_then = refl

detector-Retains_example : Retains (call_all (new_noisy_neighbor_detector {F = Thousandths}) usage)
detector-Retains_example = detector-Retains usage

abbrev parse : String → Option Thousandths
parse s = if str_eq s "500" then some (pos 500_000) else none

abbrev profile : String → TenantProfile
profile cost = record {
  name = "a";
  spec = record {
    tier = "gold";
    weight = pos 10;
    namespaces = "shop" ∷ [];
    budgets = some (record {
      max_monthly_cost_usd = cost;
      max_cores = pos 8;
      max_memory_gib = pos 0;
      max_gpus = pos 0;
    });
    fair_share_policy = none;
  };
}

abbrev manager : Manager Thousandths
manager = update_profiles parse new_manager (profile "500" ∷ [])

update_profiles_lem_example :
    get_state (update_profiles parse manager (profile "500" ∷ profile "" ∷ [])) "a"
    ≡ tracked parse "a"
        (last_named "a" none (profile "500" ∷ profile "" ∷ []))
        (get_state manager "a")
update_profiles_lem_example =
    update_profiles_lem parse manager (profile "500" ∷ profile "" ∷ []) "a"

abbrev state : TenantState Thousandths
state = record {
  name = "a";
  tier = "gold";
  weight = pos 10;
  namespaces = "shop" ∷ [];
  current_cores = pos 0;
  current_memory_gib = pos 0;
  current_cost_usd = pos 0;
  max_cores = pos 8;
  max_memory_gib = pos 0;
  max_monthly_cost_usd = pos 500_000;
  guaranteed_cores_percent = pos 0;
  burstable = false;
  max_burst_percent = pos 0;
  fairness_score = pos 0;
  allocation_status = "";
  last_refreshed = none;
}

abbrev budget : TenantBudgets
budget = record {
  max_monthly_cost_usd = "unlimited";
  max_cores = pos 8;
  max_memory_gib = pos 0;
  max_gpus = pos 0;
}

manager_has : get_state manager "a" ≡ some state
unfolding update_profiles new_manager get_state
manager_has = refl

quota_denies :
    check_quota (some state) (record {
      additional_cores = pos 9_000;
      additional_memory_gib = pos 0;
      additional_cost_usd = pos 0;
    })
    ≡ denied (cores_exceeded (pos 9_000) (pos 8_000))
unfolding check_quota
quota_denies = refl

abbrev growth : ResourceDelta Thousandths
growth = record {
  additional_cores = pos 4_000;
  additional_memory_gib = pos 0;
  additional_cost_usd = pos 600_000;
}

check_quota_iff_example :
    (check_quota (some state) growth ≡ allowed)
    ↔ ((s : TenantState Thousandths) × (some state ≡ some s) × WithinBudgets s growth)
check_quota_iff_example = check_quota_iff (some state) growth
