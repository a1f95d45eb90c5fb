-- ===== src/Conflict/Tests.antt =====
-- Runs of the conflict engine, and the instances of its theorems.
use mathlib.Core.List.{Perm}
use vai.Common.{◌≡◌, refl, some, map, [], ◌∷◌}
use vai.Common.Sets.{sort_text, dedup}
use vai.Common.Sort.{IsSorted}
use vai.Conflict.{WorkspaceScope, medium, classify_overlap}
use vai.Conflict.Classify.{level-classify_overlap, level_of, shared, reaches, shares_file, IsScope}
use vai.Conflict.Engine.{ConflictEngine, get_scope, update_scope}
use vai.Conflict.Engine.Map.{IsKeyed}
use vai.Conflict.Engine.Reports.{update_scope-reports, due, others, reading, position, IsUpdated}

abbrev here : WorkspaceScope
here = record {
  workspace_id = 1;
  intent = "auth";
  write_files = "auth.rs" ∷ [];
  write_entities = "login" ∷ "logout" ∷ [];
  blast_radius = "login" ∷ "logout" ∷ "session" ∷ [];
}

abbrev there : WorkspaceScope
there = record {
  workspace_id = 2;
  intent = "sessions";
  write_files = "session.rs" ∷ [];
  write_entities = "login" ∷ "session" ∷ [];
  blast_radius = "login" ∷ "session" ∷ "logout" ∷ [];
}

-- One shared entity and references both ways: the level is `medium`, below `high`.
medium_hides_high : (classify_overlap here there).level ≡ medium
unfolding classify_overlap sort_text dedup
medium_hides_high = refl

level-classify_overlap_example :
    (classify_overlap here there).level
    ≡ level_of (shared here there) (reaches here there) (shares_file here there)
level-classify_overlap_example = level-classify_overlap here there

here-IsScope : IsScope here
here-IsScope = record { files = (refl, tt); entities = (refl, (refl, tt)) }

there-IsScope : IsScope there
there-IsScope = record { files = (refl, tt); entities = (refl, (refl, tt)) }

abbrev tracked : ConflictEngine
tracked = (1, here) ∷ (2, there) ∷ []

tracked-IsKeyed : IsKeyed tracked
tracked-IsKeyed = (refl, refl, here-IsScope, (refl, refl, there-IsScope, tt))

update_scope-reports_example :
    (mine : WorkspaceScope) × (get_scope 1 (update_scope 1 "auth" ("session.rs" ∷ []) tracked).0
      ≡ some mine)
    × IsUpdated 1 "auth" ("session.rs" ∷ []) mine
    × IsSorted position (update_scope 1 "auth" ("session.rs" ∷ []) tracked).1
    × Perm
        (map reading (update_scope 1 "auth" ("session.rs" ∷ []) tracked).1)
        (due mine (others 1 tracked))
update_scope-reports_example =
    update_scope-reports 1 "auth" ("session.rs" ∷ []) tracked tracked-IsKeyed
