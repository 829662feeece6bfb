-- ===== src/Bpsec/Statistics.antt =====
-- core/dtn7/src/core/bpsec/statistics.rs: counters of what the security rules did. A u64 that is added
-- to wraps.
use dtn7_rs.Prelude.{ℕ, ◌+◌, ◌%◌, String, Option, none, some, [], ◌∷◌, string_eq}
use dtn7_rs.Map.{Map, lookup}
use dtn7_rs.Map
use dtn7_rs.BundlePack.{u64_mod}

pub data Event : Type 0 where
  signed verified accepted encrypted decrypted missing failed dropped : Event

pub record RuleStatistics : Type 0 where
  pub signed : ℕ
  pub verified : ℕ
  pub accepted : ℕ
  pub encrypted : ℕ
  pub decrypted : ℕ
  pub missing : ℕ
  pub failed : ℕ
  pub dropped : ℕ

abbrev pub nothing : RuleStatistics
nothing = record {
  signed = 0;
  verified = 0;
  accepted = 0;
  encrypted = 0;
  decrypted = 0;
  missing = 0;
  failed = 0;
  dropped = 0;
}

abbrev pub add_u64 : ℕ → ℕ → ℕ
add_u64 m n = (m + n) % u64_mod

unfoldable pub add_events : Event → ℕ → RuleStatistics → RuleStatistics
add_events Event.signed n r = record r { signed = add_u64 r.signed n }
add_events Event.verified n r = record r { verified = add_u64 r.verified n }
add_events Event.accepted n r = record r { accepted = add_u64 r.accepted n }
add_events Event.encrypted n r = record r { encrypted = add_u64 r.encrypted n }
add_events Event.decrypted n r = record r { decrypted = add_u64 r.decrypted n }
add_events Event.missing n r = record r { missing = add_u64 r.missing n }
add_events Event.failed n r = record r { failed = add_u64 r.failed n }
add_events Event.dropped n r = record r { dropped = add_u64 r.dropped n }

unfoldable pub add : RuleStatistics → RuleStatistics → RuleStatistics
add other r = record {
  signed = add_u64 r.signed other.signed;
  verified = add_u64 r.verified other.verified;
  accepted = add_u64 r.accepted other.accepted;
  encrypted = add_u64 r.encrypted other.encrypted;
  decrypted = add_u64 r.decrypted other.decrypted;
  missing = add_u64 r.missing other.missing;
  failed = add_u64 r.failed other.failed;
  dropped = add_u64 r.dropped other.dropped;
}

abbrev pub Statistics : Type 0
Statistics = Map String RuleStatistics

abbrev or_default : Option RuleStatistics → RuleStatistics
or_default none = nothing
or_default (some r) = r

-- `rule`, and the value behind `entry(..).or_default()`
unfoldable pub rule_statistics : String → Statistics → RuleStatistics
rule_statistics name statistics = or_default (lookup name statistics)

unfoldable pub record_n : String → Event → ℕ → Statistics → Statistics
record_n name event n statistics =
    Map.insert name (add_events event n (rule_statistics name statistics)) statistics

abbrev pub record_one : String → Event → Statistics → Statistics
record_one name event statistics = record_n name event 1 statistics

unfoldable pub merge : Statistics → Statistics → Statistics
merge [] statistics = statistics
merge ((name, r) ∷ other) statistics =
    merge other (Map.insert name (add r (rule_statistics name statistics)) statistics)
