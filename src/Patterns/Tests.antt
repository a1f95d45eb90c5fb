-- ===== src/Patterns/Tests.antt =====
-- Runs of the pattern library, and the instances of its theorems.
use vai.Common.{
  ℕ, zero, suc, nat_eq, if◌then◌else◌, ◌*◌, ◌<◌, ◌≤◌, ◌≡◌, refl, some, true, false, List, [], ◌∷◌,
  String,
}
use vai.Common.Table.{find_key, update_key}
use vai.Patterns.{MergePattern, ConflictRecord, classify_text, concurrent_textual_modification}
use vai.Patterns.Store.{
  PatternStore, empty_store, find_by_hash, record_resolution, check_auto_resolution,
  update_promotion, hash_of,
}
use vai.Patterns.Store.Counts.{total, standing}
use vai.Patterns.Store.Sound.{IsSound}
use vai.Patterns.Store.Runs.{
  Call, resolution_call, run_calls, run_calls-IsSound, check_auto_resolution-safe,
}

abbrev same_text : String → String
same_text s = s

-- A hash that tells the levels 1 to 3 apart is enough here.
abbrev level_hash : String → ℕ → String
level_hash t level = if nat_eq level 1 then "1" else if nat_eq level 2 then "2" else t

abbrev conflict : ℕ → ConflictRecord
conflict id = record {
  conflict_id = id;
  workspace_id = 7;
  merge_level = 1;
  description = "both change line 3";
}

abbrev resolutions : ℕ → List (Call same_text level_hash)
resolutions zero = []
resolutions (suc n) = resolution_call (conflict (suc n)) "manual" false ∷ resolutions n

abbrev empty-IsSound : IsSound empty_store
empty-IsSound = (tt, tt, (tt, tt, tt, tt, tt))

abbrev after_twelve : PatternStore
after_twelve = run_calls same_text level_hash (resolutions 12) empty_store

run_calls-IsSound_example : IsSound after_twelve
run_calls-IsSound_example =
    run_calls-IsSound same_text level_hash (resolutions 12) empty_store empty-IsSound

abbrev twelve_enabled : MergePattern
twelve_enabled = record {
  id = 1;
  pattern_type = concurrent_textual_modification;
  pattern_hash = "1";
  description = "Concurrent line-level modifications to the same file region";
  instance_count = 12;
  success_count = 12;
  auto_resolution_enabled = true;
  disabled_by_human = false;
}

twelve_promote :
    (check_auto_resolution same_text level_hash (conflict 40) after_twelve) ≡ some twelve_enabled
unfolding check_auto_resolution record_resolution find_by_hash update_promotion find_key update_key
    classify_text
twelve_promote = refl

check_auto_resolution-safe_example :
    (twelve_enabled.pattern_hash ≡ hash_of same_text level_hash (conflict 40))
    × (twelve_enabled.disabled_by_human ≡ false)
    × (10 < total twelve_enabled.id after_twelve.instances)
    × (9 * total twelve_enabled.id after_twelve.instances
        ≤ 10 * standing twelve_enabled.id after_twelve.instances)
check_auto_resolution-safe_example =
    check_auto_resolution-safe same_text level_hash (conflict 40) after_twelve twelve_enabled
      (run_calls-IsSound same_text level_hash (resolutions 12) empty_store empty-IsSound)
      twelve_promote
