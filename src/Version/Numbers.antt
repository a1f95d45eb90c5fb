-- ===== src/Version/Numbers.antt =====
-- The numbering of src/version/mod.rs.
use vai.Common.{
  ℕ, ◌+◌, ◌<◌, ◌≡◌, refl, ap, ◌∙◌, max, Option, inl, inr, List, [], ◌∷◌, ◌++◌, String, ◌==◌, leb,
  Bool-cases, arith,
}
use vai.Common.Eq.{string_equality}
use vai.Common.Sort.{sort_by_key, insert_by_key}
use vai.Common.Decimal.{u64_size, parse_u64-show_u64}
use vai.Version.{
  VersionMeta, parse_version_number, number_of, list_versions, write_version, new_version,
  create_version, max_number, next_version_id,
}
use text.Mathlib.TextEquality.{eq_iff}

max_number-insert :
    (v : VersionMeta) (vs : List VersionMeta)
    → max_number (insert_by_key number_of v vs) ≡ max (number_of v) (max_number vs)
unfolding insert_by_key
max_number-insert v [] = refl
max_number-insert v (w ∷ vs) = elim (Bool-cases (leb (number_of v) (number_of w))) [
  | inl b ↦ rw b refl
  | inr b ↦ rw b (omega (arith, max_number-insert v vs))
]

max_number-list_versions : (vs : List VersionMeta) → max_number (list_versions vs) ≡ max_number vs
unfolding sort_by_key
max_number-list_versions [] = refl
max_number-list_versions (v ∷ vs) =
    max_number-insert v (list_versions vs) ∙ rw (max_number-list_versions vs) refl

parse_version_number-next_version_id :
    (versions : List VersionMeta)
    → max_number versions + 1 < u64_size
    → parse_version_number (next_version_id versions) ≡ max_number versions + 1
unfolding parse_version_number next_version_id
parse_version_number-next_version_id versions h =
    rw (max_number-list_versions versions)
      (rw (parse_u64-show_u64 (max_number versions + 1) h) refl)

-- A version whose number is above all others is no file yet, and is listed last.
write_version-above :
    (meta : VersionMeta) (vs : List VersionMeta)
    → max_number vs < number_of meta
    → write_version meta vs ≡ vs ++ meta ∷ []
unfolding write_version
write_version-above meta [] h = refl
write_version-above meta (v ∷ vs) h = elim (Bool-cases (v.version_id == meta.version_id)) [
  | inl same ↦
      let e : number_of v ≡ number_of meta =
        ap parse_version_number ((eq_iff v.version_id meta.version_id).0 same) in
      absurd (omega (arith, e))
  | inr other ↦
      rw other (ap (λ (l : List VersionMeta). v ∷ l) (write_version-above meta vs (omega arith)))
]

insert_by_key-append_last :
    (v meta : VersionMeta) (vs : List VersionMeta)
    → number_of v < number_of meta
    → insert_by_key number_of v (vs ++ meta ∷ []) ≡ insert_by_key number_of v vs ++ meta ∷ []
unfolding insert_by_key
insert_by_key-append_last v meta [] h = ground arith
insert_by_key-append_last v meta (w ∷ vs) h = ground (arith, insert_by_key-append_last v meta vs h)

list_versions-append_last :
    (meta : VersionMeta) (vs : List VersionMeta)
    → max_number vs < number_of meta
    → list_versions (vs ++ meta ∷ []) ≡ list_versions vs ++ meta ∷ []
unfolding sort_by_key
list_versions-append_last meta [] h = unfold insert_by_key in refl
list_versions-append_last meta (v ∷ vs) h =
    rw (list_versions-append_last meta vs (omega arith))
      (insert_by_key-append_last v meta (list_versions vs) (omega arith))

-- The version that is created under the next id is listed behind all others, which stay as they are. The
-- numbers in use are taken to leave room below 2 ^ 64.
pub create_version-next_version_id :
    (parent : Option String) (intent created_by : String) (event : Option ℕ) (now : ℕ)
    (versions : List VersionMeta)
    → max_number versions + 1 < u64_size
    → let id = next_version_id versions in
      let created = create_version id parent intent created_by event now versions in
      list_versions created.0 ≡ list_versions versions ++ created.1 ∷ []
create_version-next_version_id parent intent created_by event now versions h =
    let meta = new_version (next_version_id versions) parent intent created_by event now in
    let above : max_number versions < number_of meta =
      omega (arith, parse_version_number-next_version_id versions h) in
    rw (write_version-above meta versions above) (list_versions-append_last meta versions above)
