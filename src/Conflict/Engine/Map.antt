-- ===== src/Conflict/Engine/Map.antt =====
-- The engine as a map: what each operation does to the footprint of each id.
use vai.Common.{
  ℕ, ◌≡◌, refl, ◌∙◌, inl, inr, none, some, Bool, false, List, [], ◌∷◌, String, any, nat_eq,
  if◌then◌else◌, arith, Bool-cases,
}
use vai.Common.Sets.{set_of-IsDistinct}
use vai.Conflict.Classify.{IsScope}
use vai.Conflict.Engine.{
  ConflictEngine, get_scope, remove_workspace, write_scope, updated, update_scope,
}

-- After `update_scope` the id has the new intent and exactly the given files, and keeps the entities
-- and the blast radius that it had (none if it is new); every other id has the footprint it had.
pub get_scope-update_scope :
    (id j : ℕ) (intent : String) (path_list : List String) (m : ConflictEngine)
    → get_scope j (update_scope id intent path_list m).0
      ≡ (if nat_eq id j then some (updated id intent path_list m) else get_scope j m)
unfolding update_scope write_scope get_scope
get_scope-update_scope id j intent path_list [] = ground arith
get_scope-update_scope id j intent path_list ((k, s) ∷ m) =
    ground (arith, get_scope-update_scope id j intent path_list m)

-- After `remove_workspace` the id has no footprint, and every other id has the one it had.
pub get_scope-remove_workspace :
    (id j : ℕ) (m : ConflictEngine)
    → get_scope j (remove_workspace id m) ≡ (if nat_eq id j then none else get_scope j m)
unfolding remove_workspace get_scope
get_scope-remove_workspace id j [] = ground arith
get_scope-remove_workspace id j ((k, s) ∷ m) = ground (arith, get_scope-remove_workspace id j m)

-- No entry has the key.
abbrev pub has_key : ℕ → ConflictEngine → Bool
has_key id m = any (λ entry. nat_eq entry.0 id) m

-- Each footprint stands under its own id, no id stands twice, and the sets are proper.
abbrev pub IsKeyed : ConflictEngine → Type 0
IsKeyed [] = Unit
IsKeyed ((j, s) ∷ m) = (s.workspace_id ≡ j) × (has_key j m ≡ false) × IsScope s × IsKeyed m

has_key-write_scope :
    (id j : ℕ) (intent : String) (path_list : List String) (m : ConflictEngine)
    → nat_eq id j ≡ false
    → has_key j (write_scope id intent path_list m) ≡ has_key j m
unfolding write_scope
has_key-write_scope id j intent path_list [] h = ground arith
has_key-write_scope id j intent path_list ((k, s) ∷ m) h =
    ground (arith, has_key-write_scope id j intent path_list m h)

write_scope-IsKeyed :
    (id : ℕ) (intent : String) (path_list : List String) (m : ConflictEngine)
    → IsKeyed m
    → IsKeyed (write_scope id intent path_list m)
unfolding write_scope
write_scope-IsKeyed id intent path_list [] k =
    (refl, refl, record { files = set_of-IsDistinct path_list; entities = tt }, tt)
write_scope-IsKeyed id intent path_list ((j, s) ∷ m) k = elim (Bool-cases (nat_eq j id)) [
  | inl same ↦
      rw same
        (k.0, k.1, record { files = set_of-IsDistinct path_list; entities = k.2.entities }, k.3)
  | inr other ↦ rw other (
    k.0,
    has_key-write_scope id j intent path_list m (ground arith) ∙ k.1,
    k.2,
    write_scope-IsKeyed id intent path_list m k.3,
  )
]

has_key-remove_workspace :
    (id j : ℕ) (m : ConflictEngine)
    → has_key j m ≡ false
    → has_key j (remove_workspace id m) ≡ false
unfolding remove_workspace
has_key-remove_workspace id j [] h = refl
has_key-remove_workspace id j ((k, s) ∷ m) h = ground (arith, has_key-remove_workspace id j m)

remove_workspace-IsKeyed :
    (id : ℕ) (m : ConflictEngine) → IsKeyed m → IsKeyed (remove_workspace id m)
unfolding remove_workspace
remove_workspace-IsKeyed id [] k = tt
remove_workspace-IsKeyed id ((j, s) ∷ m) k = elim (Bool-cases (nat_eq j id)) [
  | inl same ↦ rw same (remove_workspace-IsKeyed id m k.3)
  | inr other ↦
      rw other (k.0, has_key-remove_workspace id j m k.1, k.2, remove_workspace-IsKeyed id m k.3)
]

-- Both operations keep an engine in which each footprint stands under its own id, no id stands twice,
-- and the sets of files and entities hold each text once.
pub engine-IsKeyed :
    (id : ℕ) (intent : String) (path_list : List String) (m : ConflictEngine)
    → IsKeyed m
    → IsKeyed (update_scope id intent path_list m).0 × IsKeyed (remove_workspace id m)
unfolding update_scope
engine-IsKeyed id intent path_list m k =
    (write_scope-IsKeyed id intent path_list m k, remove_workspace-IsKeyed id m k)
