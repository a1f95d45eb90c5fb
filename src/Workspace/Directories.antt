-- ===== src/Workspace/Directories.antt =====
-- The directories of src/workspace/mod.rs: which ids they have after a write, a creation and a removal.
use vai.Common.{
  ℕ, some, ◌≡◌, refl, sym, ap, ◌∙◌, inl, inr, Bool, true, false, not, ◌&&◌, ◌||◌, List, [], ◌∷◌,
  ◌++◌, nat_eq, nat_eq_iff, if◌then◌else◌, keep, any, All, Bool-cases, arith,
}
use vai.Common.Table.{find_key, All-append}
use vai.Workspace.{
  WorkspaceMeta, directory, is_directory, write_meta, make_directory, remove_dir_all,
}

abbrev pub has_id : ℕ → List ℕ → Bool
has_id id ids = any (λ i. nat_eq i id) ids

abbrev pub names : List (ℕ × WorkspaceMeta) → List ℕ
names [] = []
names (d ∷ ds) = d.0 ∷ names ds

abbrev pub IsNamed : ℕ × WorkspaceMeta → Type 0
IsNamed d = d.1.id ≡ d.0

pub has_id-names :
    (id : ℕ) (ds : List (ℕ × WorkspaceMeta)) → has_id id (names ds) ≡ is_directory id ds
has_id-names id [] = refl
has_id-names id (d ∷ ds) = ground (arith, has_id-names id ds)

pub names-write_meta :
    (id : ℕ) (meta : WorkspaceMeta) (ds : List (ℕ × WorkspaceMeta))
    → names (write_meta id meta ds) ≡ names ds
unfolding write_meta
names-write_meta id meta [] = refl
names-write_meta id meta (d ∷ ds) = ground (arith, names-write_meta id meta ds, nat_eq_iff d.0 id)

names-append :
    (ds : List (ℕ × WorkspaceMeta)) (d : ℕ × WorkspaceMeta)
    → names (ds ++ d ∷ []) ≡ names ds ++ d.0 ∷ []
names-append [] d = refl
names-append (x ∷ ds) d = ap (λ ids. x.0 ∷ ids) (names-append ds d)

pub names-make_directory :
    (id : ℕ) (meta : WorkspaceMeta) (ds : List (ℕ × WorkspaceMeta))
    → names (make_directory id meta ds)
      ≡ (if has_id id (names ds) then names ds else names ds ++ id ∷ [])
unfolding make_directory
names-make_directory id meta ds =
    ground (arith, has_id-names id ds, names-write_meta id meta ds, names-append ds (id, meta))

pub names-remove_dir_all :
    (id : ℕ) (ds : List (ℕ × WorkspaceMeta))
    → names (remove_dir_all id ds) ≡ keep (λ i. not (nat_eq i id)) (names ds)
names-remove_dir_all id [] = refl
names-remove_dir_all id (d ∷ ds) = ground (arith, names-remove_dir_all id ds)

pub is_directory-write_meta :
    (a id : ℕ) (meta : WorkspaceMeta) (ds : List (ℕ × WorkspaceMeta))
    → is_directory a (write_meta id meta ds) ≡ is_directory a ds
is_directory-write_meta a id meta ds =
    sym (has_id-names a (write_meta id meta ds))
    ∙ ap (has_id a) (names-write_meta id meta ds)
    ∙ has_id-names a ds

is_directory-append :
    (a : ℕ) (ds : List (ℕ × WorkspaceMeta)) (d : ℕ × WorkspaceMeta)
    → is_directory a (ds ++ d ∷ []) ≡ (is_directory a ds || nat_eq d.0 a)
is_directory-append a [] d = ground arith
is_directory-append a (x ∷ ds) d = ground (arith, is_directory-append a ds d)

pub is_directory-make_directory :
    (a id : ℕ) (meta : WorkspaceMeta) (ds : List (ℕ × WorkspaceMeta))
    → is_directory a (make_directory id meta ds) ≡ (is_directory a ds || nat_eq id a)
unfolding make_directory
is_directory-make_directory a id meta ds = elim (Bool-cases (is_directory id ds)) [
  | inl old ↦ ground (arith, old, is_directory-write_meta a id meta ds, nat_eq_iff id a)
  | inr new ↦ ground (arith, new, is_directory-append a ds (id, meta))
]

pub is_directory-remove_dir_all :
    (a id : ℕ) (ds : List (ℕ × WorkspaceMeta))
    → is_directory a (remove_dir_all id ds) ≡ (is_directory a ds && not (nat_eq a id))
is_directory-remove_dir_all a id [] = refl
is_directory-remove_dir_all a id (d ∷ ds) = ground (
  arith,
  is_directory-remove_dir_all a id ds,
  nat_eq_iff d.0 id,
  nat_eq_iff d.0 a,
  nat_eq_iff a id,
)

IsNamed-if :
    (b : Bool) (d e : ℕ × WorkspaceMeta) → IsNamed d → IsNamed e → IsNamed (if b then d else e)
IsNamed-if true d e h k = h
IsNamed-if false d e h k = k

pub All-write_meta :
    (id : ℕ) (meta : WorkspaceMeta) (ds : List (ℕ × WorkspaceMeta))
    → meta.id ≡ id
    → All IsNamed ds
    → All IsNamed (write_meta id meta ds)
unfolding write_meta
All-write_meta id meta [] h a = tt
All-write_meta id meta (d ∷ ds) h a =
    (IsNamed-if (nat_eq d.0 id) (id, meta) d h a.0, All-write_meta id meta ds h a.1)

pub All-remove_dir_all :
    (id : ℕ) (ds : List (ℕ × WorkspaceMeta)) → All IsNamed ds → All IsNamed (remove_dir_all id ds)
All-remove_dir_all id [] a = tt
All-remove_dir_all id (d ∷ ds) a = elim (Bool-cases (nat_eq d.0 id)) [
  | inl gone ↦ rw (gone, All) (All-remove_dir_all id ds a.1)
  | inr stays ↦ rw (stays, All) (a.0, All-remove_dir_all id ds a.1)
]

pub All-make_directory :
    (id : ℕ) (meta : WorkspaceMeta) (ds : List (ℕ × WorkspaceMeta))
    → meta.id ≡ id
    → All IsNamed ds
    → All IsNamed (make_directory id meta ds)
unfolding make_directory
All-make_directory id meta ds h a = elim (Bool-cases (is_directory id ds)) [
  | inl old ↦ rw (old, All) (All-write_meta id meta ds h a)
  | inr new ↦ rw (new, All) (All-append IsNamed ds (id, meta) a h)
]

pub find_key-is_directory :
    (id : ℕ) (ds : List (ℕ × WorkspaceMeta)) (d : ℕ × WorkspaceMeta)
    → find_key directory id ds ≡ some d
    → is_directory id ds ≡ true
unfolding find_key
find_key-is_directory id [] d h = cc
find_key-is_directory id (x ∷ ds) d h = ground (arith, find_key-is_directory id ds d)

pub find_key-IsNamed :
    (id : ℕ) (ds : List (ℕ × WorkspaceMeta)) (d : ℕ × WorkspaceMeta)
    → All IsNamed ds
    → find_key directory id ds ≡ some d
    → d.1.id ≡ id
unfolding find_key
find_key-IsNamed id [] d a h = cc
find_key-IsNamed id (x ∷ ds) d a h =
    ground (arith, a.0, find_key-IsNamed id ds d a.1, nat_eq_iff x.0 id)

pub find_key-present :
    (id : ℕ) (ds : List (ℕ × WorkspaceMeta))
    → is_directory id ds ≡ true
    → (d : ℕ × WorkspaceMeta) × (find_key directory id ds ≡ some d)
unfolding find_key
find_key-present id [] h = ground arith
find_key-present id (x ∷ ds) h = elim (Bool-cases (nat_eq x.0 id)) [
  | inl here ↦ (x, rw here refl)
  | inr other ↦ let r = find_key-present id ds (ground arith) in (r.0, rw other r.1)
]
