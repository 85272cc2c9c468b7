-- ===== src/Storage/Tests.antt =====
-- Runs of the storage recommender, and its theorem there.
use optipilot_ai.Prelude.{[], arith, pos, str_eq, ◌≡◌, refl}
use optipilot_ai.Prelude.Thousandths.{Thousandths, thousandths, Thousandths-IsOrdered}
use optipilot_ai.Prelude.Sorting.{insertion_sort, insertion_sort_lem}
use optipilot_ai.Storage.{
  PvcMetrics, StorageTexts, new_recommender, recommend, lower_score, classify_profile, random,
}
use optipilot_ai.Storage.Best.{Recommends, recommend-Recommends}

abbrev texts : StorageTexts Thousandths
texts = record { equal_fold = str_eq; reason = λ m profile best. best.name; two_decimals = λ x. "" }

-- Many small reads and writes.
abbrev database : PvcMetrics Thousandths
database = record {
  namespace = "shop";
  pvc_name = "data";
  read_iops = pos 3_000_000;
  write_iops = pos 3_000_000;
  read_throughput_mbs = pos 20_000;
  write_throughput_mbs = pos 20_000;
  read_latency_ms = pos 2_000;
  write_latency_ms = pos 2_000;
  queue_depth = pos 8_000;
  current_storage_class = "st1";
  capacity_gib = pos 100_000;
}

database_random : classify_profile database ≡ random
unfolding classify_profile
database_random = refl

recommend-Recommends_example :
    Recommends texts
      (new_recommender [])
      database
      (recommend texts (insertion_sort lower_score) (new_recommender []) database)
recommend-Recommends_example =
    recommend-Recommends Thousandths-IsOrdered texts (insertion_sort lower_score)
      (insertion_sort_lem lower_score) [] database (λ c k. ground arith)
