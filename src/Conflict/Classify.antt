-- ===== src/Conflict/Classify.antt =====
-- The level that `classify_overlap` of src/conflict/mod.rs gives two footprints.
use vai.Common.{
  ℕ, ◌≡◌, refl, Bool, true, false, not, ◌&&◌, ◌||◌, ◌++◌, any, is_empty, length, ltb, if◌then◌else◌,
  arith,
}
use vai.Common.Sets.{
  contains, IsDistinct, intersection, sort_text, dedup, length-sort_text, is_empty-sort_text,
  is_empty-dedup, is_empty-append, is_empty-keep, length-intersection_comm,
}
use vai.Conflict.{
  WorkspaceScope, OverlapLevel, no_overlap, low, medium, high, critical, in_blast, classify_overlap,
}

abbrev pub shared : WorkspaceScope → WorkspaceScope → ℕ
shared a b = length (intersection a.write_entities b.write_entities)

-- One side writes what the other reaches and does not write.
abbrev pub reaches : WorkspaceScope → WorkspaceScope → Bool
reaches a b =
    any (λ id. contains id b.blast_radius && not (contains id b.write_entities)) a.write_entities

abbrev pub shares_file : WorkspaceScope → WorkspaceScope → Bool
shares_file a b = any (λ f. contains f b.write_files) a.write_files

-- The level as a function of three facts about the pair.
abbrev pub level_of : ℕ → Bool → Bool → OverlapLevel
level_of n reference file =
    if ltb 1 n
    then critical
    else if ltb 0 n
    then medium
    else if reference
    then high
    else if file
    then low
    else no_overlap

de_morgan : (x y : Bool) → (not x && not y) ≡ not (x || y)
de_morgan true y = refl
de_morgan false y = refl

referential_empty :
    (a b : WorkspaceScope)
    → is_empty (dedup (dedup (sort_text (in_blast a b ++ in_blast b a))))
      ≡ not (reaches a b || reaches b a)
referential_empty a b = rw is_empty-dedup (
    rw is_empty-dedup (
      rw is_empty-sort_text (
        rw is_empty-append (
          rw is_empty-sort_text (
            rw is_empty-sort_text
              (rw is_empty-keep (rw is_empty-keep (de_morgan (reaches a b) (reaches b a)))))))))

-- The level depends only on how many entities both write, on whether one side writes what the other
-- reaches without writing it, and on whether they share a file: two shared entities or more are
-- critical, one is medium, then a reference is high, then a shared file is low.
pub level-classify_overlap :
    (a b : WorkspaceScope)
    → (classify_overlap a b).level
      ≡ level_of (shared a b) (reaches a b || reaches b a) (shares_file a b)
unfolding classify_overlap
level-classify_overlap a b = ground (
  arith,
  length-sort_text (intersection a.write_entities b.write_entities),
  is_empty-sort_text (intersection a.write_entities b.write_entities),
  is_empty-sort_text (intersection a.write_files b.write_files),
  is_empty-keep (λ f. contains f b.write_files) a.write_files,
  referential_empty a b,
)

-- The sets of a footprint hold each text once.
pub record IsScope (s : WorkspaceScope) : Type 0 where
  pub files : IsDistinct s.write_files
  pub entities : IsDistinct s.write_entities

shares_file-intersection :
    (a b : WorkspaceScope)
    → shares_file a b ≡ ltb 0 (length (intersection a.write_files b.write_files))
shares_file-intersection a b =
    ground (arith, is_empty-keep (λ f. contains f b.write_files) a.write_files)

-- Two footprints with proper sets get the same level from either side.
pub level_symmetric :
    (a b : WorkspaceScope)
    → IsScope a
    → IsScope b
    → (classify_overlap a b).level ≡ (classify_overlap b a).level
level_symmetric a b p q = rw (level-classify_overlap a b) (
    rw (level-classify_overlap b a) (
      ground (
        arith,
        length-intersection_comm a.write_entities b.write_entities p.entities q.entities,
        length-intersection_comm a.write_files b.write_files p.files q.files,
        shares_file-intersection a b,
        shares_file-intersection b a,
      )))
