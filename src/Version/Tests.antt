-- ===== src/Version/Tests.antt =====
-- Runs of the versions, and the instances of their theorems.
use vai.Common.{
  ℕ, ◌+◌, ◌-◌, ◌≡◌, refl, Option, none, some, false, List, [], ◌∷◌, String, ◌==◌, if◌then◌else◌,
  nat_eq, keep, All, arith,
}
use vai.Common.Eq.{string_equality}
use vai.Common.Decimal.{show_u64, parse_u64}
use vai.Common.Sets.{contains, set_of}
use vai.EventLog.{
  Event, EventKind, file_added, file_modified, entity_modified, merge_completed, workspace_id,
}
use vai.EventLog.Lines.{brace, read_line, trim_end}
use vai.EventLog.Store.{
  EventLog, opened, same_id, get_by_id, query_index, load_events, read_event_at, find_segment,
  append, write_to_segment, append_line, file_size, current_segment, index_event,
}
use vai.Common.Sort.{sort_by_key}
use vai.EventLog.Store.Reads.{IsReadable}
use vai.EventLog.Store.Replay.{append_all, numbered}
use vai.EventLog.Store.History.{append_all-Answers}
use vai.Version.{
  VersionMeta, ok, list_versions, parse_version_number, new_version, get_version, next_version_id,
}
use vai.Version.Changes.{
  VersionChanges, VersionChangeType, VersionFileChangeType, bare_change, get_version_changes,
  get_versions_diff, collect_changes, put_change, sort_by_path,
}
use vai.Version.Changes.Diff.{both, get_versions_diff-between}
use vai.Version.Changes.Events.{get_version_changes-last_change, last_change, find_change}
use vai.Version.Changes.Impact.{
  ImpactAnalysis, analyze_rollback_impact, impact_loop, impact_of, high,
}
use vai.Version.Changes.Risk.{IsDownstream, IsShown, analyze_rollback_impact-IsDownstream}
use vai.Version.Rollback.{Repo, FileTree, rollback}
use vai.Version.Rollback.Undo.{rollback-undoes}
use vai.Version.Rollback.Filter.{rollback-filtered}

abbrev added_a : EventKind
added_a = file_added 7 "a" "h1"

abbrev modified_b : EventKind
modified_b = file_modified 7 "b" "h0" "h2"

abbrev changed_e : EventKind
changed_e = entity_modified 7 "e1" "d"

abbrev merged : EventKind
merged = merge_completed 7 "v2" 0

abbrev code_of : EventKind → ℕ
code_of (file_added w p h) = 65
code_of (file_modified w p h k) = 66
code_of (entity_modified w e d) = 67
code_of k = 68

abbrev kind_of : ℕ → EventKind
kind_of n =
    if nat_eq n 65
    then added_a
    else if nat_eq n 66
    then modified_b
    else if nat_eq n 67
    then changed_e
    else merged

-- A codec for these four events: an object of three characters.
abbrev to_bytes : Event → List ℕ
to_bytes e = (e.id + 100) ∷ (e.timestamp + 100) ∷ code_of e.kind ∷ brace ∷ []

abbrev from_bytes : List ℕ → Option Event
from_bytes (i ∷ t ∷ k ∷ b ∷ []) =
    some (record { id = i - 100; timestamp = t - 100; kind = kind_of k })
from_bytes bs = none

abbrev calls : List (EventKind × ℕ)
calls = (added_a, 5) ∷ (modified_b, 5) ∷ (changed_e, 5) ∷ (merged, 6) ∷ []

abbrev log : EventLog
log = append_all to_bytes from_bytes calls opened

calls-IsReadable : All (IsReadable to_bytes from_bytes) (numbered 1 calls)
calls-IsReadable = (
  (omega arith, (101 ∷ 105 ∷ 65 ∷ [], refl), refl),
  (
    (omega arith, (102 ∷ 105 ∷ 66 ∷ [], refl), refl),
    (
      (omega arith, (103 ∷ 105 ∷ 67 ∷ [], refl), refl),
      ((omega arith, (104 ∷ 106 ∷ 68 ∷ [], refl), refl), tt),
    ),
  ),
)

abbrev version_one : VersionMeta
version_one = new_version "v1" none "init" "agent" none 1

abbrev version_two : VersionMeta
version_two = new_version "v2" (some "v1") "fix" "agent" (some 4) 6

abbrev versions : List VersionMeta
versions = version_two ∷ version_one ∷ []

third : next_version_id versions ≡ "v3"
unfolding next_version_id parse_version_number show_u64 parse_u64 sort_by_key
third = refl

abbrev changes : VersionChanges
changes = record {
  version = version_two;
  entity_changes = bare_change "e1" VersionChangeType.modified (some "d") ∷ [];
  file_changes =
      record { path = "a"; change_type = VersionFileChangeType.added; hash = some "h1" }
      ∷ record { path = "b"; change_type = VersionFileChangeType.modified; hash = some "h2" }
      ∷ [];
}

read_changes : get_version_changes to_bytes from_bytes log "v2" versions ≡ ok changes
unfolding get_version_changes get_version get_by_id query_index load_events read_event_at
    find_segment read_line trim_end append_all append write_to_segment append_line file_size
    current_segment index_event sort_by_key collect_changes put_change sort_by_path
read_changes = refl

get_versions_diff-between_example :
    get_versions_diff to_bytes from_bytes log "v0" "v2" versions
    ≡ both
        (get_versions_diff to_bytes from_bytes log "v0" "v1" versions)
        (get_versions_diff to_bytes from_bytes log "v1" "v2" versions)
unfolding parse_version_number parse_u64
get_versions_diff-between_example =
    get_versions_diff-between to_bytes from_bytes log "v0" "v1" "v2" versions (omega arith)
      (omega arith)

get_version_changes-last_change_example :
    (c : VersionChanges) × (get_version_changes to_bytes from_bytes log "v2" versions ≡ ok c)
    × ((p : String)
        → find_change p c.file_changes
          ≡ last_change p (keep (λ e. same_id (workspace_id e.kind) 7) (numbered 1 calls)))
unfolding get_version
get_version_changes-last_change_example =
    get_version_changes-last_change to_bytes from_bytes log (numbered 1 calls) "v2" versions
      version_two 4 7 (record { id = 4; timestamp = 6; kind = merged })
      (append_all-Answers to_bytes from_bytes calls calls-IsReadable) refl refl refl refl

-- The files before version two: only b.
abbrev old_files : FileTree
old_files = λ p. if p == "b" then some (2 ∷ []) else none

abbrev repo : Repo
repo = record {
  versions = versions;
  log = log;
  head = some "v2";
  files = λ p. if p == "a" then some (1 ∷ []) else if p == "b" then some (2 ∷ 2 ∷ []) else none;
  snapshots = λ v p. if p == "b" then some (2 ∷ []) else none;
}

unchanged : (p : String) → contains p ("a" ∷ "b" ∷ []) ≡ false → repo.files p ≡ old_files p
unchanged p h = ground (arith, h)

rollback-undoes_example :
    (rollback to_bytes from_bytes "v2" none 9 repo).0.files "a" ≡ old_files "a"
rollback-undoes_example =
    rollback-undoes to_bytes from_bytes "v2" 9 repo changes old_files read_changes
      (refl, ((2 ∷ [], refl, refl), tt)) unchanged "a"

rollback-filtered_example :
    (rollback to_bytes from_bytes "v2" (some "e1") 9 repo).0.files ≡ repo.files
rollback-filtered_example =
    rollback-filtered to_bytes from_bytes "v2" "e1" 9 repo changes read_changes ((λ e. cc), tt)

-- A third version of the same workspace.
abbrev version_three : VersionMeta
version_three = new_version "v3" (some "v2") "again" "agent" (some 4) 8

abbrev analysis : ImpactAnalysis
analysis = record {
  target_version = version_two;
  target_changes = changes;
  downstream_impacts =
      record {
        version_id = "v3";
        intent = "again";
        overlapping_entities = "e1" ∷ [];
        overlapping_files = "a" ∷ "b" ∷ [];
        risk = high;
      }
      ∷ [];
}

analyzed :
    analyze_rollback_impact to_bytes from_bytes log "v2" (version_three ∷ versions) ≡ ok analysis
unfolding analyze_rollback_impact impact_loop impact_of set_of parse_version_number parse_u64
    get_version_changes get_version get_by_id query_index load_events read_event_at find_segment
    read_line trim_end append_all append write_to_segment append_line file_size current_segment
    index_event sort_by_key collect_changes put_change sort_by_path
analyzed = refl

analyze_rollback_impact-IsDownstream_example :
    (get_version_changes to_bytes from_bytes log "v2" (version_three ∷ versions)
      ≡ ok analysis.target_changes)
    × All
        (IsDownstream to_bytes from_bytes log
          (version_three ∷ versions)
          analysis.target_changes
          (parse_version_number "v2"))
        analysis.downstream_impacts
    × All
        (IsShown to_bytes from_bytes log
          (version_three ∷ versions)
          analysis.target_changes
          (parse_version_number "v2")
          analysis.downstream_impacts)
        (list_versions (version_three ∷ versions))
analyze_rollback_impact-IsDownstream_example =
    analyze_rollback_impact-IsDownstream to_bytes from_bytes log (version_three ∷ versions) "v2"
      analysis analyzed
