-- ===== src/Graph/Update.antt =====
-- `remove_file` and `update_file` of src/graph/mod.rs on the tables, and the primary key of `entities`.
use mathlib.Core.Path.{subst}
use text.Mathlib.TextEquality.{eq_iff}
use vai.Common.{
  ◌≡◌, refl, sym, ap, ◌∙◌, Option, some, none, inl, inr, Bool, true, false, not, ◌&&◌, ◌||◌, List,
  [], ◌∷◌, ◌++◌, String, ◌==◌, if◌then◌else◌, any, keep, Bool-cases, arith,
}
use vai.Common.Eq.{string_equality}
use vai.Common.Any.{any-append}
use vai.Graph.{
  Entity, Relationship, GraphSnapshot, upsert_entity, upsert_relationship, touches,
  get_entity_ids_for_file, delete_touching, remove_file, get_entity_by_id, upsert_entities,
  upsert_relationships, update_file,
}

-- The primary key: no two rows have the same id.
abbrev pub IsKeyed : List Entity → Type 0
IsKeyed [] = Unit
IsKeyed (e ∷ es) = (any (λ x. x.id == e.id) es ≡ false) × IsKeyed es

-- An entity of the file has that relationship.
abbrev pub touches_file : String → List Entity → Relationship → Bool
touches_file file es r = any (λ e. e.file_path == file && touches e.id r) es

keep-all : (rs : List Relationship) → keep (λ r. true) rs ≡ rs
keep-all [] = refl
keep-all (r ∷ rs) = ap (λ l. r ∷ l) (keep-all rs)

keep-keep :
    (p q : Relationship → Bool) (rs : List Relationship)
    → keep (λ r. not (q r)) (keep (λ r. not (p r)) rs) ≡ keep (λ r. not (p r || q r)) rs
keep-keep p q [] = refl
keep-keep p q (r ∷ rs) = ground (arith, keep-keep p q rs)

keep-same :
    (p q : Relationship → Bool) (rs : List Relationship)
    → ((r : Relationship) → p r ≡ q r)
    → keep (λ r. not (p r)) rs ≡ keep (λ r. not (q r)) rs
keep-same p q [] h = refl
keep-same p q (r ∷ rs) h = ground (arith, keep-same p q rs h, h r)

any-get_entity_ids_for_file :
    (file : String) (r : Relationship) (es : List Entity)
    → any (λ id. touches id r) (get_entity_ids_for_file file es) ≡ touches_file file es r
any-get_entity_ids_for_file file r [] = refl
any-get_entity_ids_for_file file r (e ∷ es) = ground (arith, any-get_entity_ids_for_file file r es)

delete_touching-keep :
    (ids : List String) (rs : List Relationship)
    → delete_touching ids rs ≡ keep (λ r. not (any (λ id. touches id r) ids)) rs
unfolding delete_touching
delete_touching-keep [] rs = sym (keep-all rs)
delete_touching-keep (id ∷ ids) rs =
    delete_touching-keep ids (keep (λ r. not (touches id r)) rs)
    ∙ keep-keep (λ r. touches id r) (λ r. any (λ i. touches i r) ids) rs

-- The last row with that id in the list, as the later of two upserts wins.
abbrev pub last_entity : String → List Entity → Option Entity → Option Entity
last_entity id [] o = o
last_entity id (e ∷ es) o = last_entity id es (if e.id == id then some e else o)

abbrev pub outside : String → Option Entity → Option Entity
outside file none = none
outside file (some e) = if e.file_path == file then none else some e

any-keep_id :
    (id : String) (p : Entity → Bool) (es : List Entity)
    → any (λ x. x.id == id) es ≡ false
    → any (λ x. x.id == id) (keep p es) ≡ false
any-keep_id id p [] h = refl
any-keep_id id p (e ∷ es) h = ground (arith, any-keep_id id p es)

any-without :
    (id : String) (es : List Entity)
    → any (λ x. x.id == id) (keep (λ x. not (x.id == id)) es) ≡ false
any-without id [] = refl
any-without id (e ∷ es) = ground (arith, any-without id es)

IsKeyed-keep : (p : Entity → Bool) (es : List Entity) → IsKeyed es → IsKeyed (keep p es)
IsKeyed-keep p [] k = tt
IsKeyed-keep p (e ∷ es) k = elim (Bool-cases (p e)) [
  | inl stays ↦ rw (stays, IsKeyed) (any-keep_id e.id p es k.0, IsKeyed-keep p es k.1)
  | inr goes ↦ rw (goes, IsKeyed) (IsKeyed-keep p es k.1)
]

IsKeyed-end :
    (e : Entity) (es : List Entity)
    → any (λ x. x.id == e.id) es ≡ false
    → IsKeyed es
    → IsKeyed (es ++ e ∷ [])
IsKeyed-end e [] h k = (refl, tt)
IsKeyed-end e (x ∷ es) h k = (
  ground
      (arith, any-append (λ y. y.id == x.id) es (e ∷ []), k.0, eq_iff x.id e.id, eq_iff e.id x.id),
  IsKeyed-end e es (ground arith) k.1,
)

get_entity_by_id-none :
    (id : String) (es : List Entity)
    → any (λ x. x.id == id) es ≡ false
    → get_entity_by_id id es ≡ none
unfolding get_entity_by_id
get_entity_by_id-none id [] h = refl
get_entity_by_id-none id (e ∷ es) h = ground (arith, get_entity_by_id-none id es)

get_entity_by_id-keep :
    (file id : String) (es : List Entity)
    → IsKeyed es
    → get_entity_by_id id (keep (λ e. not (e.file_path == file)) es)
      ≡ outside file (get_entity_by_id id es)
unfolding get_entity_by_id
get_entity_by_id-keep file id [] k = refl
get_entity_by_id-keep file id (e ∷ es) k = elim (Bool-cases (e.id == id)) [
  | inl here ↦
      let same : e.id ≡ id = (eq_iff e.id id).0 here in
      let away : get_entity_by_id id es ≡ none = get_entity_by_id-none id es (rw same at k.0) in
      ground (arith, here, away, get_entity_by_id-keep file id es k.1)
  | inr other ↦ ground (arith, other, get_entity_by_id-keep file id es k.1)
]

get_entity_by_id-end :
    (e : Entity) (id : String) (es : List Entity)
    → get_entity_by_id id (keep (λ x. not (x.id == e.id)) es ++ e ∷ [])
      ≡ (if e.id == id then some e else get_entity_by_id id es)
unfolding get_entity_by_id
get_entity_by_id-end e id [] = refl
get_entity_by_id-end e id (x ∷ es) = elim (Bool-cases (x.id == e.id)) [
  | inl same ↦
      let q : x.id ≡ e.id = (eq_iff x.id e.id).0 same in
      ground (arith, same, q, get_entity_by_id-end e id es)
  | inr other ↦
      ground (
        arith,
        other,
        get_entity_by_id-end e id es,
        eq_iff x.id id,
        eq_iff e.id id,
        eq_iff x.id e.id,
      )
]

get_entity_by_id-upsert_entities :
    (id : String) (es : List Entity) (g : GraphSnapshot)
    → get_entity_by_id id (upsert_entities es g).entities
      ≡ last_entity id es (get_entity_by_id id g.entities)
unfolding upsert_entities upsert_entity
get_entity_by_id-upsert_entities id [] g = refl
get_entity_by_id-upsert_entities id (e ∷ es) g =
    get_entity_by_id-upsert_entities id es (upsert_entity e g)
    ∙ ap (last_entity id es) (get_entity_by_id-end e id g.entities)

IsKeyed-upsert_entities :
    (es : List Entity) (g : GraphSnapshot)
    → IsKeyed g.entities
    → IsKeyed (upsert_entities es g).entities
unfolding upsert_entities upsert_entity
IsKeyed-upsert_entities [] g k = k
IsKeyed-upsert_entities (e ∷ es) g k =
    let rest = keep (λ x. not (x.id == e.id)) g.entities in
    IsKeyed-upsert_entities es (upsert_entity e g) (
      IsKeyed-end e rest (any-without e.id g.entities)
        (IsKeyed-keep (λ x. not (x.id == e.id)) g.entities k))

entities-upsert_relationships :
    (rs : List Relationship) (g : GraphSnapshot) → (upsert_relationships rs g).entities ≡ g.entities
unfolding upsert_relationships upsert_relationship
entities-upsert_relationships [] g = refl
entities-upsert_relationships (r ∷ rs) g =
    entities-upsert_relationships rs (upsert_relationship r g)

abbrev pub tables : List Entity → List Relationship → GraphSnapshot
tables es rs = record { entities = es; relationships = rs }

-- `remove_file` takes exactly the rows of the file and the relationships that one of them has.
pub remove_file-touches_file :
    (file : String) (g : GraphSnapshot)
    → remove_file file g
      ≡ tables
          (keep (λ e. not (e.file_path == file)) g.entities)
          (keep (λ r. not (touches_file file g.entities r)) g.relationships)
unfolding remove_file
remove_file-touches_file file g = ap (tables (keep (λ e. not (e.file_path == file)) g.entities)) (
    delete_touching-keep (get_entity_ids_for_file file g.entities) g.relationships
    ∙ keep-same (λ r. any (λ id. touches id r) (get_entity_ids_for_file file g.entities))
        (touches_file file g.entities) g.relationships
        (λ r. any-get_entity_ids_for_file file r g.entities))

-- After `update_file` with a parse that succeeds the ids of `entities` are distinct if they were, and an id
-- stands for the last entity of the parse that has it, or else for the entity it stood for unless that was of the
-- file.
pub update_file-get_entity_by_id :
    (file : String) (es : List Entity) (rs : List Relationship) (g : GraphSnapshot)
    → IsKeyed g.entities
    → IsKeyed (update_file file (some (es, rs)) g).0.entities
      × ((id : String)
          → get_entity_by_id id (update_file file (some (es, rs)) g).0.entities
            ≡ last_entity id es (outside file (get_entity_by_id id g.entities)))
unfolding update_file remove_file
update_file-get_entity_by_id file es rs g k =
    let cleared = remove_file file g in
    let same = entities-upsert_relationships rs (upsert_entities es cleared) in
    (
      subst IsKeyed (sym same) (
          IsKeyed-upsert_entities es cleared
            (IsKeyed-keep (λ e. not (e.file_path == file)) g.entities k)),
      λ id.
          ap (get_entity_by_id id) same
          ∙ get_entity_by_id-upsert_entities id es cleared
          ∙ ap (last_entity id es) (get_entity_by_id-keep file id g.entities k),
    )
