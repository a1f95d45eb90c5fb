-- ===== src/Conflict/Engine.antt =====
-- `ConflictEngine` of src/conflict/mod.rs: a map from workspace ids to footprints.
pub mod Map
pub mod Reports
use vai.Common.{
  ℕ, ◌-◌, Option, none, some, Bool, true, false, not, List, [], ◌∷◌, map, String, keep, nat_eq,
  if◌then◌else◌,
}
use vai.Common.Sort.{sort_by_key}
use vai.Common.Sets.{set_of}
use vai.Conflict.{WorkspaceScope, OverlapLevel, no_overlap, rank, OverlapResult, classify_overlap}

abbrev pub ConflictEngine : Type 0
ConflictEngine = List (ℕ × WorkspaceScope)

abbrev pub new : ConflictEngine
new = []

unfoldable pub get_scope : ℕ → ConflictEngine → Option WorkspaceScope
get_scope id [] = none
get_scope id ((j, s) ∷ m) = if nat_eq j id then some s else get_scope id m

unfoldable pub remove_workspace : ℕ → ConflictEngine → ConflictEngine
remove_workspace id [] = []
remove_workspace id ((j, s) ∷ m) =
    let rest = remove_workspace id m in if nat_eq j id then rest else (j, s) ∷ rest

unfoldable pub all_scopes : ConflictEngine → List WorkspaceScope
all_scopes m = map (λ entry. entry.1) m

abbrev pub blank : ℕ → String → WorkspaceScope
blank id intent = record {
  workspace_id = id;
  intent = intent;
  write_files = [];
  write_entities = [];
  blast_radius = [];
}

abbrev pub rewritten : String → List String → WorkspaceScope → WorkspaceScope
rewritten intent path_list s = record s { intent = intent; write_files = set_of path_list }

-- `entry(id).or_insert_with(...)`, and the two assignments through the reference that it returns.
unfoldable pub write_scope : ℕ → String → List String → ConflictEngine → ConflictEngine
write_scope id intent path_list [] = (id, rewritten intent path_list (blank id intent)) ∷ []
write_scope id intent path_list ((j, s) ∷ m) =
    let rest = write_scope id intent path_list m in
    if nat_eq j id then (j, rewritten intent path_list s) ∷ m else (j, s) ∷ rest

abbrev pub rewrite_found : ℕ → String → List String → Option WorkspaceScope → WorkspaceScope
rewrite_found id intent path_list none = rewritten intent path_list (blank id intent)
rewrite_found id intent path_list (some s) = rewritten intent path_list s

-- The clone of the entry that was written.
abbrev pub updated : ℕ → String → List String → ConflictEngine → WorkspaceScope
updated id intent path_list m = rewrite_found id intent path_list (get_scope id m)

abbrev pub is_overlap : OverlapResult → Bool
is_overlap r = not (nat_eq (rank r.level) (rank no_overlap))

-- `b.level.cmp(&a.level)`: a higher level sorts first.
abbrev pub descending : OverlapResult → ℕ
descending r = 4 - rank r.level

unfoldable pub update_scope :
    ℕ → String → List String → ConflictEngine → ConflictEngine × List OverlapResult
update_scope id intent path_list m =
    let scopes = write_scope id intent path_list m in
    let mine = updated id intent path_list m in
    let others = keep (λ s. not (nat_eq s.workspace_id id)) (all_scopes scopes) in
    (scopes, sort_by_key descending (keep is_overlap (map (classify_overlap mine) others)))
