-- ===== src/Conflict.antt =====
-- src/conflict/mod.rs: the footprints of the workspaces in flight and the overlaps between them.
-- A `HashSet<String>` is a list without order; a `HashMap` keyed by the workspace id is an association
-- list, and the order in which it is walked is left to the list.
pub mod Classify
pub mod Engine
mod Tests
use vai.Common.{
  ℕ, suc, Option, none, some, Bool, true, false, not, ◌&&◌, ◌||◌, List, [], ◌∷◌, ◌++◌, map, String,
  any, keep, is_empty, length, nat_eq, leb, ltb, if◌then◌else◌,
}
use vai.Common.Sort.{sort_by_key}
use vai.Common.Sets.{contains, intersection, dedup, sort_text}

pub record WorkspaceScope : Type 0 where
  pub workspace_id : ℕ
  pub intent : String
  pub write_files : List String
  pub write_entities : List String
  pub blast_radius : List String

pub data OverlapLevel : Type 0 where
  no_overlap low medium high critical : OverlapLevel

-- The derived `Ord`: the order of declaration.
abbrev pub rank : OverlapLevel → ℕ
rank no_overlap = 0
rank low = 1
rank medium = 2
rank high = 3
rank critical = 4

-- The recommendation is a fixed text for each level around the other workspace's id and intent.
pub data Recommendation : Type 0 where
  coordinate submit_in_sequence review_chain verify_overwrites : ℕ → String → Recommendation
  empty_text : Recommendation

pub record OverlapResult : Type 0 where
  pub level : OverlapLevel
  pub your_workspace : ℕ
  pub other_workspace : ℕ
  pub other_intent : String
  pub overlapping_files : List String
  pub overlapping_entities : List String
  pub recommendation : Recommendation

-- The ids of `a`'s writes that `b` reaches and does not write.
abbrev pub in_blast : WorkspaceScope → WorkspaceScope → List String
in_blast a b =
    sort_text (
      keep (λ id. contains id b.blast_radius && not (contains id b.write_entities))
        a.write_entities)

unfoldable pub classify_overlap : WorkspaceScope → WorkspaceScope → OverlapResult
classify_overlap a b =
    let overlapping_files = sort_text (intersection a.write_files b.write_files) in
    let shared_entities = sort_text (intersection a.write_entities b.write_entities) in
    let referential_entities = dedup (dedup (sort_text (in_blast a b ++ in_blast b a))) in
    let result : OverlapLevel → List String → List String → Recommendation → OverlapResult =
      λ level files entities text. record {
        level = level;
        your_workspace = a.workspace_id;
        other_workspace = b.workspace_id;
        other_intent = b.intent;
        overlapping_files = files;
        overlapping_entities = entities;
        recommendation = text;
      } in
    if ltb 1 (length shared_entities)
    then result critical overlapping_files shared_entities (coordinate b.workspace_id b.intent)
    else if not (is_empty shared_entities)
    then result medium overlapping_files shared_entities
        (submit_in_sequence b.workspace_id b.intent)
    else if not (is_empty referential_entities)
    then result high overlapping_files referential_entities (review_chain b.workspace_id b.intent)
    else if not (is_empty overlapping_files)
    then result low overlapping_files [] (verify_overwrites b.workspace_id b.intent)
    else result no_overlap [] [] empty_text
