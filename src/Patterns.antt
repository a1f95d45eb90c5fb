-- ===== src/Patterns.antt =====
-- src/merge_patterns/mod.rs: the classes of conflicts, the statistics that the library keeps of each, and
-- when a pattern may be resolved by itself. Times are left out.
pub mod Store
mod Tests
use Prim.Native.String.{[] as ε, ◌∷◌ as ◌∷ˢ◌}
use text.Mathlib.Text.{starts_with}
use vai.Common.{
  ℕ, ◌*◌, Bool, true, false, not, ◌&&◌, ◌||◌, String, nat_eq, ltb, leb, if◌then◌else◌, ◌≡◌, refl,
  ◌==◌,
}
use vai.Common.Eq.{string_equality}

pub data PatternType : Type 0 where
  two_agents_add_imports rename_with_stale_reference two_agents_modify_same_body : PatternType
  two_agents_modify_same_struct two_agents_add_methods : PatternType
  concurrent_textual_modification generic : PatternType

abbrev pub as_str : PatternType → String
as_str two_agents_add_imports = "two_agents_add_imports"
as_str rename_with_stale_reference = "rename_with_stale_reference"
as_str two_agents_modify_same_body = "two_agents_modify_same_body"
as_str two_agents_modify_same_struct = "two_agents_modify_same_struct"
as_str two_agents_add_methods = "two_agents_add_methods"
as_str concurrent_textual_modification = "concurrent_textual_modification"
as_str generic = "generic"

unfoldable pub from_str : String → PatternType
from_str s =
    if s == "two_agents_add_imports"
    then two_agents_add_imports
    else if s == "rename_with_stale_reference"
    then rename_with_stale_reference
    else if s == "two_agents_modify_same_body"
    then two_agents_modify_same_body
    else if s == "two_agents_modify_same_struct"
    then two_agents_modify_same_struct
    else if s == "two_agents_add_methods"
    then two_agents_add_methods
    else if s == "concurrent_textual_modification"
    then concurrent_textual_modification
    else generic

abbrev pub description_of : PatternType → String
description_of two_agents_add_imports = "Two agents add imports to the same file"
description_of rename_with_stale_reference =
    "One agent renames an identifier, another adds usage of old name"
description_of two_agents_modify_same_body = "Two agents modify the same function body differently"
description_of two_agents_modify_same_struct = "Two agents modify the same struct definition"
description_of two_agents_add_methods = "Two agents add methods to the same impl block"
description_of concurrent_textual_modification =
    "Concurrent line-level modifications to the same file region"
description_of generic = "Generic unclassified merge conflict"

pub record MergePattern : Type 0 where
  pub id : ℕ
  pub pattern_type : PatternType
  pub pattern_hash : String
  pub description : String
  pub instance_count : ℕ
  pub success_count : ℕ
  pub auto_resolution_enabled : Bool
  pub disabled_by_human : Bool

-- `success_rate() >= 0.90`: the rate of a pattern with no instance is 1, and the ratio of two counts is
-- compared by cross-multiplication.
abbrev pub is_reliable : MergePattern → Bool
is_reliable p = nat_eq p.instance_count 0 || leb (9 * p.instance_count) (10 * p.success_count)

abbrev pub meets_promotion_criteria : MergePattern → Bool
meets_promotion_criteria p = not p.disabled_by_human && (ltb 10 p.instance_count && is_reliable p)

pub record ResolutionInstance : Type 0 where
  pub id : ℕ
  pub pattern_id : ℕ
  pub conflict_id : ℕ
  pub workspace_id : ℕ
  pub strategy : String
  pub was_auto_resolved : Bool
  pub rolled_back : Bool

-- What the library reads of a conflict of the merge engine.
pub record ConflictRecord : Type 0 where
  pub conflict_id : ℕ
  pub workspace_id : ℕ
  pub merge_level : ℕ
  pub description : String

-- `desc.contains(word)`.
abbrev pub contains_text : String → String → Bool
contains_text ε word = starts_with ε word
contains_text (c ∷ˢ s) word = starts_with (c ∷ˢ s) word || contains_text s word

-- `desc` is the description in small letters.
unfoldable pub classify_text : ℕ → String → PatternType
classify_text merge_level desc =
    if nat_eq merge_level 1
    then concurrent_textual_modification
    else if contains_text desc "rename"
        || (contains_text desc "stale" || contains_text desc "old name")
    then rename_with_stale_reference
    else if contains_text desc "import"
        || (contains_text desc "use statement" || contains_text desc "use decl")
    then two_agents_add_imports
    else if contains_text desc "struct" || contains_text desc "field"
    then two_agents_modify_same_struct
    else if contains_text desc "method"
        || (contains_text desc "impl" || contains_text desc "associated")
    then two_agents_add_methods
    else if nat_eq merge_level 3
        || (contains_text desc "function"
            || (contains_text desc "body" || contains_text desc "fn "))
    then two_agents_modify_same_body
    else generic

-- The column `pattern_type` is read back as it was written.
pub from_str-as_str : (t : PatternType) → from_str (as_str t) ≡ t
unfolding from_str
from_str-as_str two_agents_add_imports = refl
from_str-as_str rename_with_stale_reference = refl
from_str-as_str two_agents_modify_same_body = refl
from_str-as_str two_agents_modify_same_struct = refl
from_str-as_str two_agents_add_methods = refl
from_str-as_str concurrent_textual_modification = refl
from_str-as_str generic = refl
