-- ===== src/Version/Changes/Risk.antt =====
-- What `analyze_rollback_impact` of src/version/mod.rs lists, and how it rates it.
use mathlib.Core.Path.{subst}
use text.Mathlib.TextEquality.{eq_iff}
use vai.Common.{
  ℕ, ◌<◌, ◌≤◌, ◌≡◌, refl, sym, ap, ◌∙◌, Option, some, none, Bool, true, false, not, ◌||◌, ◌⊎◌, inl,
  inr, List, [], ◌∷◌, String, ◌==◌, leb, map, keep, any, Bool-cases, is_empty, All, arith,
}
use vai.Common.Eq.{string_equality, eq_flip}
use vai.Common.Sets.{contains, contains-set_of}
use vai.Common.Any.{any-same}
use vai.Common.Table.{All-weaken}
use vai.EventLog.{Event}
use vai.EventLog.Store.{EventLog}
use vai.Version.{
  VersionMeta, Result, ok, err, ◌>>=◌, number_of, parse_version_number, list_versions,
}
use vai.Version.Changes.{VersionChanges, get_version_changes}
use vai.Version.Changes.Impact.{
  ImpactItem, ImpactAnalysis, high, low, impact_of, impact_loop, push_item, overlapping_entities_in,
  overlapping_files_in, entity_ids, file_paths, analyze_rollback_impact,
}

-- Both versions change an entity of one id.
abbrev pub shares_entity : VersionChanges → VersionChanges → Bool
shares_entity a b =
    any (λ e. any (λ d. d.entity_id == e.entity_id) a.entity_changes) b.entity_changes

-- Both versions change a file of one path.
abbrev pub shares_file : VersionChanges → VersionChanges → Bool
shares_file a b = any (λ e. any (λ d. d.path == e.path) a.file_changes) b.file_changes

module _ {A : Type 0} where
  contains-map :
      (x : String) (name : A → String) (es : List A)
      → contains x (map name es) ≡ any (λ d. name d == x) es
  contains-map x name [] = refl
  contains-map x name (e ∷ es) = ground (arith, contains-map x name es, eq_flip x (name e))

  is_empty-shown :
      (p : A → Bool) (show : A → String) (es : List A)
      → is_empty (map show (keep p es)) ≡ not (any p es)
  is_empty-shown p show [] = refl
  is_empty-shown p show (e ∷ es) = ground (arith, is_empty-shown p show es)

is_empty-overlapping_entities_in :
    (a b : VersionChanges)
    → is_empty (overlapping_entities_in (entity_ids a) b) ≡ not (shares_entity a b)
is_empty-overlapping_entities_in a b =
    is_empty-shown (λ e. contains e.entity_id (entity_ids a)) _ b.entity_changes
    ∙ ap not (
        any-same (λ e. contains e.entity_id (entity_ids a))
          (λ e. any (λ d. d.entity_id == e.entity_id) a.entity_changes) b.entity_changes
          (λ e.
            contains-set_of e.entity_id (map (λ d. d.entity_id) a.entity_changes)
            ∙ contains-map e.entity_id (λ d. d.entity_id) a.entity_changes))

is_empty-overlapping_files_in :
    (a b : VersionChanges)
    → is_empty (overlapping_files_in (file_paths a) b) ≡ not (shares_file a b)
is_empty-overlapping_files_in a b =
    is_empty-shown (λ e. contains e.path (file_paths a)) _ b.file_changes
    ∙ ap not (
        any-same (λ e. contains e.path (file_paths a))
          (λ e. any (λ d. d.path == e.path) a.file_changes) b.file_changes
          (λ e.
            contains-set_of e.path (map (λ d. d.path) a.file_changes)
            ∙ contains-map e.path (λ d. d.path) a.file_changes))

-- High where an entity is shared, low where a file is and no entity.
abbrev pub IsRated : VersionChanges → VersionChanges → ImpactItem → Type 0
IsRated target c i =
    ((i.risk ≡ high) × (shares_entity target c ≡ true))
    ⊎ ((i.risk ≡ low) × (shares_entity target c ≡ false) × (shares_file target c ≡ true))

-- What the item of a version says, and when there is none.
abbrev ItemOf : VersionChanges → VersionMeta → VersionChanges → Option ImpactItem → Type 0
ItemOf target v c none = (shares_entity target c || shares_file target c) ≡ false
ItemOf target v c (some i) = (i.version_id ≡ v.version_id) × IsRated target c i

impact_of-ItemOf :
    (target : VersionChanges) (v : VersionMeta) (c : VersionChanges)
    → ItemOf target v c (impact_of target v c)
unfolding impact_of
impact_of-ItemOf target v c =
    let entities = is_empty-overlapping_entities_in target c in
    let files = is_empty-overlapping_files_in target c in
    elim (Bool-cases (shares_entity target c)) [
      | inl e ↦ rw (entities ∙ ap not e) (refl, inl (refl, e))
      | inr e ↦ elim (Bool-cases (shares_file target c)) [
        | inl f ↦ rw (entities ∙ ap not e) (rw (files ∙ ap not f) (refl, inr (refl, e, f)))
        | inr f ↦ rw (entities ∙ ap not e) (rw (files ∙ ap not f) (rw e (rw f refl)))
      ]
    ]

-- A chain that succeeds has a first step that succeeds.
first_step :
    {A B : Type 0} {answer : B} (first : Result A) (next : A → Result B)
    → (first >>= next) ≡ ok answer
    → (value : A) × (first ≡ ok value) × (next value ≡ ok answer)
first_step (ok value) next chain = (value, refl, chain)
first_step (err error) next chain = cc

pair_path : {A B : Type 0} {a c : A} {b d : B} → a ≡ c → b ≡ d → ◌≡◌ {A = A × B} (a, b) (c, d)
pair_path h k = λ j. (h j, k j)

abbrev pub has_item : String → List ImpactItem → Bool
has_item id items = any (λ i. i.version_id == id) items

module _ (to_json : Event → List ℕ) (from_json : List ℕ → Option Event) (log : EventLog)
    (versions : List VersionMeta) where
  -- The item stands for a version behind the n-th, whose changes its rating is by.
  abbrev pub IsDownstream : VersionChanges → ℕ → ImpactItem → Type 0
  IsDownstream target n i =
      (n < parse_version_number i.version_id)
      × (c : VersionChanges) × (get_version_changes to_json from_json log i.version_id versions
          ≡ ok c)
      × IsRated target c i

  -- A version behind the n-th that shares an entity or a file has its item.
  abbrev pub IsShown : VersionChanges → ℕ → List ImpactItem → VersionMeta → Type 0
  IsShown target n items v =
      (number_of v ≤ n)
      ⊎ ((c : VersionChanges) × (get_version_changes to_json from_json log v.version_id versions
            ≡ ok c)
          × (((shares_entity target c || shares_file target c) ≡ false)
              ⊎ (has_item v.version_id items ≡ true)))

  push-IsDownstream :
      (target : VersionChanges) (n : ℕ) (v : VersionMeta) (c : VersionChanges)
      (o : Option ImpactItem) (items : List ImpactItem)
      → n < number_of v
      → get_version_changes to_json from_json log v.version_id versions ≡ ok c
      → ItemOf target v c o
      → All (IsDownstream target n) items
      → All (IsDownstream target n) (push_item o items)
  push-IsDownstream target n v c none items h e r a = a
  push-IsDownstream target n v c (some i) items h e r a = (
    (
      subst (λ w. n < parse_version_number w) (sym r.0) h,
      c,
      ap (λ w. get_version_changes to_json from_json log w versions) r.0 ∙ e,
      r.1,
    ),
    a,
  )

  has_item-push_item :
      (id : String) (o : Option ImpactItem) (items : List ImpactItem)
      → has_item id items ≡ true
      → has_item id (push_item o items) ≡ true
  has_item-push_item id none items h = h
  has_item-push_item id (some i) items h = ground (arith, h)

  push-IsShown :
      (target : VersionChanges) (n : ℕ) (o : Option ImpactItem) (items : List ImpactItem)
      (v : VersionMeta)
      → IsShown target n items v
      → IsShown target n (push_item o items) v
  push-IsShown target n o items v (inl before) = inl before
  push-IsShown target n o items v (inr (c, e, inl nothing)) = inr (c, e, inl nothing)
  push-IsShown target n o items v (inr (c, e, inr there)) =
      inr (c, e, inr (has_item-push_item v.version_id o items there))

  own-IsShown :
      (target : VersionChanges) (n : ℕ) (v : VersionMeta) (c : VersionChanges)
      (o : Option ImpactItem) (items : List ImpactItem)
      → get_version_changes to_json from_json log v.version_id versions ≡ ok c
      → ItemOf target v c o
      → IsShown target n (push_item o items) v
  own-IsShown target n v c none items e r = inr (c, e, inl r)
  own-IsShown target n v c (some i) items e r =
      inr (c, e, inr (ground (arith, (eq_iff i.version_id v.version_id).1 r.0)))

  impact_loop-lists :
      (target : VersionChanges) (n : ℕ) (listed : List VersionMeta) (items : List ImpactItem)
      → impact_loop to_json from_json log target n versions listed ≡ ok items
      → All (IsDownstream target n) items × All (IsShown target n items) listed
  unfolding impact_loop
  impact_loop-lists target n [] items h =
      let same : [] ≡ items = cc in (subst (All (IsDownstream target n)) same tt, tt)
  impact_loop-lists target n (v ∷ listed) items h = elim (Bool-cases (leb (number_of v) n)) [
    | inl before ↦
        let r = impact_loop-lists target n listed items (rw before at h) in
        (r.0, (inl (ground arith), r.1))
    | inr behind ↦
        let (c, changes, after) =
          first_step (get_version_changes to_json from_json log v.version_id versions) _
            (rw behind at h) in
        let (rest, runs, done) =
          first_step (impact_loop to_json from_json log target n versions listed) _ after in
        let same : push_item (impact_of target v c) rest ≡ items = cc in
        let r = impact_loop-lists target n listed rest runs in
        let own = impact_of-ItemOf target v c in
        (
          subst (All (IsDownstream target n)) same (
              push-IsDownstream target n v c (impact_of target v c) rest (ground arith) changes own
                r.0),
          subst (λ l. All (IsShown target n l) (v ∷ listed)) same
              (
                own-IsShown target n v c (impact_of target v c) rest changes own,
                All-weaken (IsShown target n rest)
                    (IsShown target n (push_item (impact_of target v c) rest)) listed
                    (push-IsShown target n (impact_of target v c) rest) r.1,
              ),
        )
  ]

  -- An analysis that succeeds has the changes of the version. Each of its items stands for a version behind it and is
  -- rated high if that version changes an entity that this one changes, and low if they share a file and no entity;
  -- and each listed version behind it that shares an entity or a file with it has an item. Nothing is rated medium.
  pub analyze_rollback_impact-IsDownstream :
      (version_id : String) (analysis : ImpactAnalysis)
      → analyze_rollback_impact to_json from_json log version_id versions ≡ ok analysis
      → let target = analysis.target_changes in
        let n = parse_version_number version_id in
        let items = analysis.downstream_impacts in
        (get_version_changes to_json from_json log version_id versions ≡ ok target)
        × All (IsDownstream target n) items
        × All (IsShown target n items) (list_versions versions)
  unfolding analyze_rollback_impact
  analyze_rollback_impact-IsDownstream version_id analysis h =
      let n = parse_version_number version_id in
      let (target, read, after) =
        first_step (get_version_changes to_json from_json log version_id versions) _ h in
      let (items, runs, done) =
        first_step (impact_loop to_json from_json log target n versions (list_versions versions)) _
          after in
      let r = impact_loop-lists target n (list_versions versions) items runs in
      let changes : target ≡ analysis.target_changes = cc in
      let shown : items ≡ analysis.downstream_impacts = cc in
      subst
        (λ (q : VersionChanges × List ImpactItem).
          (get_version_changes to_json from_json log version_id versions ≡ ok q.0)
          × All (IsDownstream q.0 n) q.1
          × All (IsShown q.0 n q.1) (list_versions versions))
        (pair_path changes shown) (read, r.0, r.1)
