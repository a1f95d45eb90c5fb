-- ===== src/Diff/Entities.antt =====
-- The entity changes that `compute_entity_diff` of src/diff/mod.rs reports for one file.
use text.Mathlib.TextEquality.{eq_iff}
use vai.Common.{
  ◌↔◌, ◌≢◌, ◌∙◌, ap, sym, Option-cases, ℕ, Option, none, some, ◌≡◌, refl, inl, inr, Bool, true,
  false, not, ◌&&◌, List, [], ◌∷◌, ◌++◌, String, ◌==◌, any, keep, Bool-cases, arith,
}
use vai.Common.Eq.{string_equality}
use vai.Common.Any.{any-append}
use vai.Graph.{Entity, Relationship}
use vai.Graph.Update.{last_entity}
use vai.Diff.Spans.{
  has, has-to_map, has-lookup, bytes_of, span-bytes_of, same_bytes_iff, lookup-last_entity,
  lookup-id, passes, any-lookup,
}
use vai.Diff.{
  EntityChange, EntityChangeType, to_map, lookup, span, same_bytes, change_against, changed,
  all_changes, compute_entity_diff,
}

abbrev same_type : EntityChangeType → EntityChangeType → Bool
same_type EntityChangeType.added EntityChangeType.added = true
same_type EntityChangeType.modified EntityChangeType.modified = true
same_type EntityChangeType.removed EntityChangeType.removed = true
same_type _ _ = false

abbrev pub has_change : String → EntityChangeType → List EntityChange → Bool
has_change id t cs = any (λ c. c.entity_id == id && same_type c.change_type t) cs

-- The bytes of the entity in the file are not those of its namesake in the base.
abbrev differs : List ℕ → List ℕ → Entity → Option Entity → Bool
differs content base e none = false
differs content base e (some b) = not (same_bytes (span base b) (span content e))

abbrev expected : EntityChangeType → List ℕ → List ℕ → Entity → Option Entity → Bool
expected EntityChangeType.added content base e none = true
expected EntityChangeType.added content base e (some b) = false
expected EntityChangeType.modified content base e o = differs content base e o
expected EntityChangeType.removed content base e o = false

has_change-change_against :
    (path : String) (content base : List ℕ) (e : Entity) (o : Option Entity) (id : String)
    (t : EntityChangeType)
    → has_change id t (change_against path content base e o)
      ≡ ((e.id == id) && expected t content base e o)
has_change-change_against path content base e none id EntityChangeType.added = ground arith
has_change-change_against path content base e none id EntityChangeType.modified = ground arith
has_change-change_against path content base e none id EntityChangeType.removed = ground arith
has_change-change_against path content base e (some b) id EntityChangeType.added = ground arith
has_change-change_against path content base e (some b) id EntityChangeType.modified = ground arith
has_change-change_against path content base e (some b) id EntityChangeType.removed = ground arith

has_change-changed :
    (path : String) (content base : List ℕ) (base_map es : List Entity) (id : String)
    (t : EntityChangeType)
    → has_change id t (changed path content base base_map es)
      ≡ any (λ e. e.id == id && expected t content base e (lookup e.id base_map)) es
unfolding changed
has_change-changed path content base base_map [] id t = refl
has_change-changed path content base base_map (e ∷ es) id t = ground (
  arith,
  any-append (λ c. c.entity_id == id && same_type c.change_type t)
      (change_against path content base e (lookup e.id base_map))
      (changed path content base base_map es),
  has_change-change_against path content base e (lookup e.id base_map) id t,
  has_change-changed path content base base_map es id t,
)

has_change-all_changes :
    (path : String) (es : List Entity) (id : String) (t : EntityChangeType)
    → has_change id t (all_changes path EntityChangeType.removed es)
      ≡ (has id es && same_type EntityChangeType.removed t)
unfolding all_changes
has_change-all_changes path [] id t = refl
has_change-all_changes path (e ∷ es) id t = ground (arith, has_change-all_changes path es id t)

has-keep :
    (id : String) (seen es : List Entity)
    → has id (keep (λ b. not (has b.id seen)) es) ≡ (has id es && not (has id seen))
has-keep id seen [] = refl
has-keep id seen (e ∷ es) = elim (Bool-cases (e.id == id)) [
  | inl here ↦
      let q : e.id ≡ id = (eq_iff e.id id).0 here in ground (arith, here, q, has-keep id seen es)
  | inr other ↦ ground (arith, other, has-keep id seen es)
]

any-expected :
    (content base : List ℕ) (base_map es : List Entity) (id : String)
    → any
        (λ e. e.id == id && expected EntityChangeType.added content base e (lookup e.id base_map))
        es
      ≡ (has id es && not (has id base_map))
any-expected content base base_map [] id = refl
any-expected content base base_map (e ∷ es) id = elim (Bool-cases (e.id == id)) [
  | inl here ↦
      let q : e.id ≡ id = (eq_iff e.id id).0 here in
      ground (arith, here, q, has-lookup id base_map, any-expected content base base_map es id)
  | inr other ↦ ground (arith, other, any-expected content base base_map es id)
]

any-expected-removed :
    (content base : List ℕ) (base_map es : List Entity) (id : String)
    → any
        (λ e. e.id == id && expected EntityChangeType.removed content base e (lookup e.id base_map))
        es
      ≡ false
any-expected-removed content base base_map [] id = refl
any-expected-removed content base base_map (e ∷ es) id =
    ground (arith, any-expected-removed content base base_map es id)

-- The last entity of the id in each version, and what they are in their files.
abbrev pub IsModified : List ℕ → List ℕ → List Entity → List Entity → String → Type 0
IsModified content base new old id =
    (e : Entity) × (b : Entity) × (last_entity id new none ≡ some e)
    × (last_entity id old none ≡ some b)
    × (bytes_of base b ≢ bytes_of content e)

differs-bytes_of :
    (content base : List ℕ) (e b : Entity)
    → (differs content base e (some b) ≡ true) ↔ (bytes_of base b ≢ bytes_of content e)
differs-bytes_of content base e b =
    let same = same_bytes_iff (span base b) (span content e) in
    let old = span-bytes_of base b in
    let new = span-bytes_of content e in
    (
      λ h k. cc (h, same.1 (old ∙ k ∙ sym new)),
      λ h. elim (Bool-cases (same_bytes (span base b) (span content e))) [
        | inl equal ↦ elim (h (sym old ∙ same.0 equal ∙ new)) [ ]
        | inr unequal ↦ rw unequal refl
      ],
    )

IsModified-old :
    (content base : List ℕ) (new old : List Entity) (id : String) (e : Entity) (o : Option Entity)
    → last_entity id new none ≡ some e
    → o ≡ last_entity id old none
    → (differs content base e o ≡ true) ↔ IsModified content base new old id
IsModified-old content base new old id e none here found =
    (λ h. cc, λ (c, b, h, there, d). cc (found ∙ there))
IsModified-old content base new old id e (some b) here found = (
  λ h. (e, b, here, sym found, (differs-bytes_of content base e b).0 h),
  λ (c, d, h, there, unequal).
      let one : c ≡ e = cc in
      let two : d ≡ b = cc in
      (differs-bytes_of content base e b).1
        (λ q. unequal (ap (bytes_of base) two ∙ q ∙ ap (bytes_of content) (sym one))),
)

passes-IsModified :
    (content base : List ℕ) (new old : List Entity) (id : String)
    → (passes
          (λ e. expected EntityChangeType.modified content base e (lookup e.id (to_map old)))
          (last_entity id new none)
        ≡ true)
      ↔ IsModified content base new old id
passes-IsModified content base new old id = elim (Option-cases (last_entity id new none)) [
  | inl missing ↦
      let same = ap (passes (λ x. differs content base x (lookup x.id (to_map old)))) missing in
      (λ h. cc (sym same ∙ h), λ (e, b, here, rest, d). cc (sym missing ∙ here))
  | inr (e, here) ↦
      let own : e.id ≡ id = lookup-id id (to_map new) e (lookup-last_entity id new ∙ here) in
      let found : lookup e.id (to_map old) ≡ last_entity id old none =
        ap (λ k. lookup k (to_map old)) own ∙ lookup-last_entity id old in
      let r = IsModified-old content base new old id e (lookup e.id (to_map old)) here found in
      let same = ap (passes (λ x. differs content base x (lookup x.id (to_map old)))) here in
      (λ h. r.0 (sym same ∙ h), λ h. same ∙ r.1 h)
]

-- For a file whose two versions parse the entity changes name an id as added exactly if only the new version has an
-- entity of that id, as removed exactly if only the old one has, and as modified exactly if both have one and the
-- bytes in the ranges of the last such entity of each differ.
pub compute_entity_diff-has_change :
    (parse_rust_source : String → List ℕ → Option (List Entity × List Relationship))
    (sha256_hex : List ℕ → String) (path : String) (content base : List ℕ)
    (new old : List Entity × List Relationship)
    → parse_rust_source path content ≡ some new
    → parse_rust_source path base ≡ some old
    → (cs : List EntityChange) × (compute_entity_diff parse_rust_source sha256_hex path content
          (some base)
        ≡ some cs)
      × ((id : String)
          → (has_change id EntityChangeType.added cs ≡ (has id new.0 && not (has id old.0)))
            × (has_change id EntityChangeType.removed cs ≡ (has id old.0 && not (has id new.0)))
            × ((has_change id EntityChangeType.modified cs ≡ true)
                ↔ IsModified content base new.0 old.0 id))
unfolding compute_entity_diff
compute_entity_diff-has_change parse_rust_source sha256_hex path content base new old h k =
    let overlay_map = to_map new.0 in
    let base_map = to_map old.0 in
    let left = changed path content base base_map overlay_map in
    let gone = keep (λ b. not (has b.id overlay_map)) base_map in
    let right = all_changes path EntityChangeType.removed gone in
    let whole = λ (id : String) (t : EntityChangeType).
      any-append (λ c. c.entity_id == id && same_type c.change_type t) left right in
    let one = λ (id : String) (t : EntityChangeType).
      has_change-changed path content base base_map overlay_map id t in
    let two = λ (id : String) (t : EntityChangeType). has_change-all_changes path gone id t in
    (
      left ++ right,
      rw h (rw k refl),
      λ id.
          let news = has-to_map id new.0 in
          let olds = has-to_map id old.0 in
          let kept = has-keep id overlay_map base_map in
          let changed_entity = passes-IsModified content base new.0 old.0 id in
          let test = λ (e : Entity). differs content base e (lookup e.id base_map) in
          let some_test : has_change id EntityChangeType.modified (left ++ right)
              ≡ any (λ e. e.id == id && test e) overlay_map =
            ground (
              arith,
              whole id EntityChangeType.modified,
              one id EntityChangeType.modified,
              two id EntityChangeType.modified,
            ) in
          let marked =
            some_test ∙ any-lookup id test new.0 ∙ ap (passes test) (lookup-last_entity id new.0) in
          (
            ground (
              arith,
              whole id EntityChangeType.added,
              one id EntityChangeType.added,
              two id EntityChangeType.added,
              any-expected content base base_map overlay_map id,
            ),
            ground (
              arith,
              whole id EntityChangeType.removed,
              one id EntityChangeType.removed,
              two id EntityChangeType.removed,
              any-expected-removed content base base_map overlay_map id,
            ),
            (λ c. changed_entity.0 (sym marked ∙ c), λ c. marked ∙ changed_entity.1 c),
          ),
    )
