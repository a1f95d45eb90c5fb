-- ===== src/Patterns/Store.antt =====
-- `MergePatternStore` of src/merge_patterns/mod.rs: its two tables, whose keys are given out in order
-- (AUTOINCREMENT), and its operations. `to_lowercase` of Unicode and the hash function are parameters.
pub mod Counts
pub mod Sound
pub mod Steps
pub mod Record
pub mod Runs
use vai.Common.{
  ℕ, suc, ◌+◌, ◌-◌, Option, none, some, Bool, true, false, not, ◌&&◌, List, [], ◌∷◌, ◌++◌, String,
  ◌==◌, nat_eq, if◌then◌else◌,
}
use vai.Common.Eq.{string_equality}
use vai.Common.Table.{find_key, update_key}
use vai.Patterns.{
  PatternType, MergePattern, ResolutionInstance, ConflictRecord, classify_text, as_str,
  description_of, meets_promotion_criteria,
}

pub record PatternStore : Type 0 where
  pub patterns : List MergePattern
  pub instances : List ResolutionInstance
  pub next_pattern : ℕ
  pub next_instance : ℕ

abbrev pub empty_store : PatternStore
empty_store = record { patterns = []; instances = []; next_pattern = 1; next_instance = 1 }

abbrev pub pattern_key : MergePattern → ℕ
pattern_key p = p.id

abbrev pub instance_key : ResolutionInstance → ℕ
instance_key i = i.id

-- `none` is `MergePatternError::NotFound`.
abbrev pub get_pattern : ℕ → PatternStore → Option MergePattern
get_pattern id s = find_key pattern_key id s.patterns

abbrev pub set_pattern : ℕ → (MergePattern → MergePattern) → PatternStore → PatternStore
set_pattern id set s = record s { patterns = update_key pattern_key id set s.patterns }

unfoldable pub find_by_hash : String → List MergePattern → Option MergePattern
find_by_hash hash [] = none
find_by_hash hash (p ∷ ps) =
    let rest = find_by_hash hash ps in if p.pattern_hash == hash then some p else rest

-- The decision that `update_promotion` takes on the pattern that it reads.
abbrev pub promoted : ℕ → PatternStore → Option MergePattern → PatternStore
promoted id s none = s
promoted id s (some p) =
    if p.disabled_by_human
    then s
    else set_pattern id (λ q. record q { auto_resolution_enabled = meets_promotion_criteria p }) s

unfoldable pub update_promotion : ℕ → PatternStore → PatternStore
update_promotion id s = promoted id s (get_pattern id s)

-- `WHERE conflict_id = ? AND rolled_back = 0 LIMIT 1`, in the order of the rows.
unfoldable pub find_active : ℕ → List ResolutionInstance → Option ResolutionInstance
find_active conflict [] = none
find_active conflict (i ∷ is) =
    let rest = find_active conflict is in
    if nat_eq i.conflict_id conflict && not i.rolled_back then some i else rest

module _ (to_lowercase : String → String) (sha256 : String → ℕ → String) where
  abbrev pub classify : ConflictRecord → PatternType
  classify c = classify_text c.merge_level (to_lowercase c.description)

  abbrev pub compute_hash : PatternType → ℕ → String
  compute_hash t merge_level = sha256 (as_str t) merge_level

  abbrev pub hash_of : ConflictRecord → String
  hash_of c = compute_hash (classify c) c.merge_level

  -- The row of the pattern: one more resolution, or a new row; with the key of the row.
  abbrev pub upserted : ConflictRecord → PatternStore → Option MergePattern → PatternStore × ℕ
  upserted c s (some p) = (
    set_pattern p.id
        (λ q. record q {
          instance_count = q.instance_count + 1;
          success_count = q.success_count + 1;
        })
        s,
    p.id,
  )
  upserted c s none = (
    record s {
      patterns =
          s.patterns
          ++ record {
            id = s.next_pattern;
            pattern_type = classify c;
            pattern_hash = hash_of c;
            description = description_of (classify c);
            instance_count = 1;
            success_count = 1;
            auto_resolution_enabled = false;
            disabled_by_human = false;
          }
            ∷ [];
      next_pattern = s.next_pattern + 1;
    },
    s.next_pattern,
  )

  abbrev pub with_instance : ConflictRecord → String → Bool → PatternStore × ℕ → PatternStore × ℕ
  with_instance c strategy was_auto_resolved (s, id) = (
    record s {
      instances =
          s.instances
          ++ record {
            id = s.next_instance;
            pattern_id = id;
            conflict_id = c.conflict_id;
            workspace_id = c.workspace_id;
            strategy = strategy;
            was_auto_resolved = was_auto_resolved;
            rolled_back = false;
          }
            ∷ [];
      next_instance = s.next_instance + 1;
    },
    id,
  )

  abbrev pub finish : PatternStore × ℕ → PatternStore × Option MergePattern
  finish (s, id) = let after = update_promotion id s in (after, get_pattern id after)

  unfoldable pub record_resolution :
      ConflictRecord → String → Bool → PatternStore → PatternStore × Option MergePattern
  record_resolution c strategy was_auto_resolved s = finish (
      with_instance c strategy was_auto_resolved
        (upserted c s (find_by_hash (hash_of c) s.patterns)))

  unfoldable pub check_auto_resolution : ConflictRecord → PatternStore → Option MergePattern
  check_auto_resolution c s = elim (find_by_hash (hash_of c) s.patterns) [
    | none ↦ none
    | some p ↦ if p.auto_resolution_enabled then some p else none
  ]

abbrev pub rolled : ResolutionInstance → PatternStore → PatternStore
rolled i s =
    let marked = update_key instance_key i.id (λ j. record j { rolled_back = true }) s.instances in
    set_pattern i.pattern_id (λ q. record q { success_count = q.success_count - 1 })
      (record s { instances = marked })

-- An answer `none` is `Ok(None)`: there was nothing to roll back.
unfoldable pub record_rollback : ℕ → PatternStore → PatternStore × Option MergePattern
record_rollback conflict s = elim (find_active conflict s.instances) [
  | none ↦ (s, none)
  | some i ↦
      let after = update_promotion i.pattern_id (rolled i s) in
      (after, get_pattern i.pattern_id after)
]

unfoldable pub disable_pattern : ℕ → PatternStore → PatternStore × Option MergePattern
disable_pattern id s = elim (get_pattern id s) [
  | none ↦ (s, none)
  | some p ↦
      let after =
        set_pattern id (λ q. record q { disabled_by_human = true; auto_resolution_enabled = false })
          s in
      (after, get_pattern id after)
]

unfoldable pub enable_pattern : ℕ → PatternStore → PatternStore × Option MergePattern
enable_pattern id s = elim (get_pattern id s) [
  | none ↦ (s, none)
  | some p ↦
      let after =
        update_promotion id (set_pattern id (λ q. record q { disabled_by_human = false }) s) in
      (after, get_pattern id after)
]
