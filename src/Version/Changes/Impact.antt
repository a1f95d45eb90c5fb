-- ===== src/Version/Changes/Impact.antt =====
-- `analyze_rollback_impact` of src/version/mod.rs.
use vai.Common.{
  ℕ, Option, none, some, not, ◌&&◌, List, [], ◌∷◌, String, leb, if◌then◌else◌, keep, is_empty, map,
}
use vai.Common.Sets.{contains, set_of}
use vai.EventLog.{Event}
use vai.EventLog.Store.{EventLog}
use vai.Issue.{unwrap_or}
use vai.Version.{VersionMeta, Result, ok, ◌>>=◌, number_of, parse_version_number, list_versions}
use vai.Version.Changes.{VersionChanges, get_version_changes}

pub data RiskLevel : Type 0 where
  low medium high : RiskLevel

pub record ImpactItem : Type 0 where
  pub version_id : String
  pub intent : String
  pub overlapping_entities : List String
  pub overlapping_files : List String
  pub risk : RiskLevel

pub record ImpactAnalysis : Type 0 where
  pub target_version : VersionMeta
  pub target_changes : VersionChanges
  pub downstream_impacts : List ImpactItem

abbrev pub entity_ids : VersionChanges → List String
entity_ids c = set_of (map (λ e. e.entity_id) c.entity_changes)

abbrev pub file_paths : VersionChanges → List String
file_paths c = set_of (map (λ f. f.path) c.file_changes)

abbrev pub overlapping_entities_in : List String → VersionChanges → List String
overlapping_entities_in ids c =
    map (λ e. unwrap_or e.entity_id e.qualified_name)
      (keep (λ e. contains e.entity_id ids) c.entity_changes)

abbrev pub overlapping_files_in : List String → VersionChanges → List String
overlapping_files_in paths c = map (λ f. f.path) (keep (λ f. contains f.path paths) c.file_changes)

abbrev pub risk_of : List String → RiskLevel
risk_of entities = if not (is_empty entities) then high else low

-- The item of a later version, if it shares anything with the target.
unfoldable pub impact_of : VersionChanges → VersionMeta → VersionChanges → Option ImpactItem
impact_of target v changes =
    let entities = overlapping_entities_in (entity_ids target) changes in
    let files = overlapping_files_in (file_paths target) changes in
    if is_empty entities && is_empty files
    then none
    else some (record {
      version_id = v.version_id;
      intent = v.intent;
      overlapping_entities = entities;
      overlapping_files = files;
      risk = risk_of entities;
    })

abbrev pub push_item : Option ImpactItem → List ImpactItem → List ImpactItem
push_item none items = items
push_item (some i) items = i ∷ items

module _ (to_json : Event → List ℕ) (from_json : List ℕ → Option Event) (log : EventLog) where
  unfoldable pub impact_loop :
      VersionChanges → ℕ → List VersionMeta → List VersionMeta → Result (List ImpactItem)
  impact_loop target n versions [] = ok []
  impact_loop target n versions (v ∷ listed) =
      let rest = impact_loop target n versions listed in
      if leb (number_of v) n
      then rest
      else (get_version_changes to_json from_json log v.version_id versions >>= λ c.
          rest >>= λ items. ok (push_item (impact_of target v c) items))

  unfoldable pub analyze_rollback_impact : String → List VersionMeta → Result ImpactAnalysis
  analyze_rollback_impact version_id versions =
      get_version_changes to_json from_json log version_id versions >>= λ target.
      impact_loop target (parse_version_number version_id) versions (list_versions versions)
      >>= λ items. ok (record {
        target_version = target.version;
        target_changes = target;
        downstream_impacts = items;
      })
