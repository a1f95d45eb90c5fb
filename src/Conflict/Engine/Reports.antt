-- ===== src/Conflict/Engine/Reports.antt =====
-- What `update_scope` reports.
use mathlib.Core.Path.{subst}
use mathlib.Core.List.{Perm}
use mathlib.Core.List.Perm
use vai.Common.{
  ℕ, ◌-◌, ◌≤◌, ◌||◌, ◌≡◌, refl, sym, ap, Bool, true, false, some, Option-cases, nat_eq_iff,
  if◌then◌else◌, ◌∙◌, inl, inr, not, List, [], ◌∷◌, map, String, keep, nat_eq, arith, Bool-cases,
}
use vai.Common.Sort.{IsSorted, sort_by_key, sort_by_key-IsSorted, perm-sort_by_key}
use vai.Common.Sets.{contains, contains-set_of}
use vai.Common.Table.{All-weaken}
use vai.Conflict.{
  WorkspaceScope, OverlapLevel, critical, high, medium, low, no_overlap, rank, OverlapResult,
  classify_overlap,
}
use vai.Conflict.Classify.{level_of, shared, reaches, shares_file, level-classify_overlap}
use vai.Conflict.Engine.{
  ConflictEngine, get_scope, blank, rewritten, rewrite_found, all_scopes, write_scope, updated,
  is_overlap, descending, update_scope,
}
use vai.Conflict.Engine.Map.{IsKeyed, get_scope-update_scope}

-- The footprints that stand under other ids.
abbrev pub others : ℕ → ConflictEngine → List WorkspaceScope
others id m = map (λ entry. entry.1) (keep (λ entry. not (nat_eq entry.0 id)) m)

keep-all_scopes :
    (id : ℕ) (m : ConflictEngine)
    → IsKeyed m
    → keep (λ s. not (nat_eq s.workspace_id id)) (all_scopes m) ≡ others id m
unfolding all_scopes
keep-all_scopes id [] k = refl
keep-all_scopes id ((j, s) ∷ m) k =
    let own : nat_eq s.workspace_id id ≡ nat_eq j id = ap (λ (x : ℕ). nat_eq x id) k.0 in
    elim (Bool-cases (nat_eq j id)) [
      | inl same ↦ rw same (rw (own ∙ same) (keep-all_scopes id m k.3))
      | inr other ↦ rw other (rw (own ∙ other) (ap (λ l. s ∷ l) (keep-all_scopes id m k.3)))
    ]

others-write_scope :
    (id : ℕ) (intent : String) (path_list : List String) (m : ConflictEngine)
    → IsKeyed m
    → keep (λ s. not (nat_eq s.workspace_id id)) (all_scopes (write_scope id intent path_list m))
      ≡ others id m
unfolding write_scope all_scopes
others-write_scope id intent path_list [] k = ground arith
others-write_scope id intent path_list ((j, s) ∷ m) k =
    let own : nat_eq s.workspace_id id ≡ nat_eq j id = ap (λ (x : ℕ). nat_eq x id) k.0 in
    elim (Bool-cases (nat_eq j id)) [
      | inl same ↦ rw same (rw (own ∙ same) (keep-all_scopes id m k.3))
      | inr other ↦
          rw other
            (rw (own ∙ other) (ap (λ l. s ∷ l) (others-write_scope id intent path_list m k.3)))
    ]

-- Who is told of whom, and of what level.
abbrev pub Reading : Type 0
Reading = ℕ × ℕ × OverlapLevel

abbrev pub reading : OverlapResult → Reading
reading r = (r.your_workspace, r.other_workspace, r.level)

-- Highest first.
abbrev place : OverlapLevel → ℕ
place critical = 0
place high = 1
place medium = 2
place low = 3
place no_overlap = 4

abbrev pub position : OverlapResult → ℕ
position r = place r.level

abbrev is_above : OverlapLevel → Bool
is_above no_overlap = false
is_above _ = true

abbrev pub level_between : WorkspaceScope → WorkspaceScope → OverlapLevel
level_between a b = level_of (shared a b) (reaches a b || reaches b a) (shares_file a b)

-- One reading for each footprint whose overlap has a level, by the numbers of what is shared.
abbrev pub due : WorkspaceScope → List WorkspaceScope → List Reading
due mine [] = []
due mine (s ∷ ss) =
    if is_above (level_between mine s)
    then (mine.workspace_id, s.workspace_id, level_between mine s) ∷ due mine ss
    else due mine ss

place-rank : (l : OverlapLevel) → 4 - rank l ≡ place l
place-rank critical = refl
place-rank high = refl
place-rank medium = refl
place-rank low = refl
place-rank no_overlap = refl

is_above-rank : (l : OverlapLevel) → not (nat_eq (rank l) (rank no_overlap)) ≡ is_above l
is_above-rank critical = refl
is_above-rank high = refl
is_above-rank medium = refl
is_above-rank low = refl
is_above-rank no_overlap = refl

descending-position : (rs : List OverlapResult) → IsSorted descending rs → IsSorted position rs
descending-position [] a = tt
descending-position (r ∷ rs) a = (
  All-weaken (λ q. descending r ≤ descending q) (λ q. position r ≤ position q) rs
      (λ q h. omega (arith, place-rank r.level, place-rank q.level)) a.0,
  descending-position rs a.1,
)

your_workspace-classify_overlap :
    (a b : WorkspaceScope) → (classify_overlap a b).your_workspace ≡ a.workspace_id
unfolding classify_overlap
your_workspace-classify_overlap a b = ground arith

other_workspace-classify_overlap :
    (a b : WorkspaceScope) → (classify_overlap a b).other_workspace ≡ b.workspace_id
unfolding classify_overlap
other_workspace-classify_overlap a b = ground arith

reading-classify_overlap :
    (a b : WorkspaceScope)
    → reading (classify_overlap a b) ≡ (a.workspace_id, b.workspace_id, level_between a b)
reading-classify_overlap a b =
    let mine = your_workspace-classify_overlap a b in
    let other = other_workspace-classify_overlap a b in let l = level-classify_overlap a b in cc

is_overlap-classify_overlap :
    (a b : WorkspaceScope) → is_overlap (classify_overlap a b) ≡ is_above (level_between a b)
is_overlap-classify_overlap a b =
    is_above-rank (classify_overlap a b).level ∙ ap is_above (level-classify_overlap a b)

map-reading :
    (mine : WorkspaceScope) (ss : List WorkspaceScope)
    → map reading (keep is_overlap (map (classify_overlap mine) ss)) ≡ due mine ss
map-reading mine [] = refl
map-reading mine (s ∷ ss) =
    let same = is_overlap-classify_overlap mine s in
    elim (Bool-cases (is_above (level_between mine s))) [
      | inl above ↦ rw (same ∙ above) (
          rw above (
            ap (λ r. r ∷ map reading (keep is_overlap (map (classify_overlap mine) ss)))
              (reading-classify_overlap mine s)
            ∙ ap (λ l. (mine.workspace_id, s.workspace_id, level_between mine s) ∷ l)
                (map-reading mine ss)))
      | inr below ↦ rw (same ∙ below) (rw below (map-reading mine ss))
    ]

get_scope-IsKeyed :
    (id : ℕ) (m : ConflictEngine) (s : WorkspaceScope)
    → IsKeyed m
    → get_scope id m ≡ some s
    → s.workspace_id ≡ id
unfolding get_scope
get_scope-IsKeyed id [] s k h = cc
get_scope-IsKeyed id ((j, r) ∷ m) s k h =
    ground (arith, k.0, get_scope-IsKeyed id m s k.3, nat_eq_iff j id)

-- The footprint after the update: the id, the intent and the files that were given.
pub record IsUpdated (id : ℕ) (intent : String) (path_list : List String) (s : WorkspaceScope)
    : Type 0 where
  pub own : s.workspace_id ≡ id
  pub new_intent : s.intent ≡ intent
  pub new_files : (f : String) → contains f s.write_files ≡ contains f path_list

rewritten-IsUpdated :
    (id : ℕ) (intent : String) (path_list : List String) (s : WorkspaceScope)
    → s.workspace_id ≡ id
    → IsUpdated id intent path_list (rewritten intent path_list s)
rewritten-IsUpdated id intent path_list s h = record {
  own = h;
  new_intent = refl;
  new_files = λ f. contains-set_of f path_list;
}

updated-IsUpdated :
    (id : ℕ) (intent : String) (path_list : List String) (m : ConflictEngine)
    → IsKeyed m
    → IsUpdated id intent path_list (updated id intent path_list m)
updated-IsUpdated id intent path_list m k = elim (Option-cases (get_scope id m)) [
  | inl new ↦
      subst (IsUpdated id intent path_list) (sym (ap (rewrite_found id intent path_list) new))
        (rewritten-IsUpdated id intent path_list (blank id intent) refl)
  | inr (s, old) ↦
      subst (IsUpdated id intent path_list) (sym (ap (rewrite_found id intent path_list) old))
        (rewritten-IsUpdated id intent path_list s (get_scope-IsKeyed id m s k old))
]

-- After `update_scope` the id has a footprint with the given intent and files, and the reports are, highest level
-- first, one for each other workspace's footprint that shares something with this new footprint, with the level
-- that the numbers of shared entities, references and files determine, and nothing else.
pub update_scope-reports :
    (id : ℕ) (intent : String) (path_list : List String) (m : ConflictEngine)
    → IsKeyed m
    → (mine : WorkspaceScope) × (get_scope id (update_scope id intent path_list m).0 ≡ some mine)
      × IsUpdated id intent path_list mine
      × IsSorted position (update_scope id intent path_list m).1
      × Perm (map reading (update_scope id intent path_list m).1) (due mine (others id m))
unfolding update_scope
update_scope-reports id intent path_list m k =
    let mine = updated id intent path_list m in
    (
      mine,
      get_scope-update_scope id id intent path_list m ∙ (ground arith),
      updated-IsUpdated id intent path_list m k,
      descending-position (update_scope id intent path_list m).1
          (sort_by_key-IsSorted descending _),
      rw (others-write_scope id intent path_list m k) (
          subst
            (Perm (
              map reading (
                sort_by_key descending
                  (keep is_overlap (map (classify_overlap mine) (others id m))))))
            (map-reading mine (others id m)) (Perm.map reading (perm-sort_by_key descending _))),
    )
