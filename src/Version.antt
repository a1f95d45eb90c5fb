-- ===== src/Version.antt =====
-- src/version/mod.rs: the versions of a repository, `.vai/versions/`. A directory is the list of its files in
-- any order; reading and writing TOML is taken to succeed. A path is a text, a time and a UUID are numbers.
pub mod Numbers
pub mod Changes
pub mod Rollback
mod Tests
use Prim.Native.Char.{code}
use Prim.Native.String.{[] as ε, ◌∷◌ as ◌∷ˢ◌}
use vai.Common.{
  ℕ, ◌+◌, max, Option, none, some, List, [], ◌∷◌, ◌++◌, String, ◌==◌, nat_eq, if◌then◌else◌, Bool,
}
use vai.Common.Eq.{string_equality}
use vai.Common.Sort.{sort_by_key}
use vai.Common.Decimal.{show_u64, parse_u64}
use vai.EventLog.Store.{EventLogError}
use vai.Issue.{unwrap_or}

pub data VersionError : Type 0 where
  io : VersionError
  not_found : String → VersionError
  event_log : EventLogError → VersionError

pub data Result (A : Type 0) : Type 0 where
  ok : A → Result A
  err : VersionError → Result A

infixl 5 ◌>>=◌
abbrev pub ◌>>=◌ : {A B : Type 0} → Result A → (A → Result B) → Result B
ok a >>= f = f a
err e >>= f = err e

pub record VersionMeta : Type 0 where
  pub id : Option ℕ
  pub version_id : String
  pub parent_version_id : Option String
  pub intent : String
  pub created_by : String
  pub created_at : ℕ
  pub merge_event_id : Option ℕ

-- The number behind the letter v, 0 for any other text.
unfoldable pub parse_version_number : String → ℕ
parse_version_number ε = 0
parse_version_number (c ∷ˢ s) = if nat_eq (code c) b'v' then unwrap_or 0 (parse_u64 s) else 0

abbrev pub number_of : VersionMeta → ℕ
number_of v = parse_version_number v.version_id

abbrev pub list_versions : List VersionMeta → List VersionMeta
list_versions versions = sort_by_key number_of versions

unfoldable pub get_version : String → List VersionMeta → Result VersionMeta
get_version id [] = err (not_found id)
get_version id (v ∷ versions) =
    let rest = get_version id versions in if v.version_id == id then ok v else rest

-- `fs::write` of the file that is named after the version.
unfoldable pub write_version : VersionMeta → List VersionMeta → List VersionMeta
write_version meta [] = meta ∷ []
write_version meta (v ∷ versions) =
    let rest = write_version meta versions in
    if v.version_id == meta.version_id then meta ∷ versions else v ∷ rest

-- `now` is `Utc::now()`.
abbrev pub new_version : String → Option String → String → String → Option ℕ → ℕ → VersionMeta
new_version version_id parent intent created_by merge_event_id now = record {
  id = none;
  version_id = version_id;
  parent_version_id = parent;
  intent = intent;
  created_by = created_by;
  created_at = now;
  merge_event_id = merge_event_id;
}

abbrev pub create_version :
    String
    → Option String
    → String
    → String
    → Option ℕ
    → ℕ
    → List VersionMeta
    → List VersionMeta × VersionMeta
create_version version_id parent intent created_by merge_event_id now versions =
    let meta = new_version version_id parent intent created_by merge_event_id now in
    (write_version meta versions, meta)

abbrev pub max_number : List VersionMeta → ℕ
max_number [] = 0
max_number (v ∷ versions) = max (number_of v) (max_number versions)

unfoldable pub next_version_id : List VersionMeta → String
next_version_id versions = "v" ∷ˢ show_u64 (max_number (list_versions versions) + 1)
