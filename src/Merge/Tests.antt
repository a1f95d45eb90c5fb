-- ===== src/Merge/Tests.antt =====
-- Runs of the textual merge, and the instances of its theorems.
use vai.Common.{
  ℕ, ◌≤◌, ◌≡◌, refl, ◌↔◌, ◌≢◌, some, none, true, List, [], ◌∷◌, ◌++◌, length, any, arith,
}
use vai.Common.Lists.{slice}
use vai.Common.Sort.{sort_by_key}
use vai.Merge.Lcs.{lcs_indices, lcs_walk, lcs_table}
use vai.Merge.Lcs.Optimal.{
  Matched, IsCommon, done, both, skip_left, skip_right, lcs_indices-IsLongest,
}
use vai.Merge.Hunks.{Hunk, compute_hunks, hunk_loop, hunks_overlap, merge_lines, apply_loop}
use vai.Merge.Hunks.Bounds.{Separated, InOrder, patched}
use vai.Merge.Hunks.Rebuild.{compute_hunks-rebuilds}
use vai.Merge.Hunks.Overlap.{lands_inside, start, merge_lines-patched}
use vai.Merge.Hunks.Panic.{merge_lines-panics_iff}
use vai.Merge.Text.{Line, line_equality, split_lines, apply_two_hunk_sets, try_textual}
use vai.Merge.Text.OneSide.{head_unchanged}

-- "a\nb\nc\n", and three edits of it.
abbrev base_file : List ℕ
base_file = b'a' ∷ b'\n' ∷ b'b' ∷ b'\n' ∷ b'c' ∷ b'\n' ∷ []

abbrev first_changed : List ℕ
first_changed = b'X' ∷ b'\n' ∷ b'b' ∷ b'\n' ∷ b'c' ∷ b'\n' ∷ []

abbrev last_changed : List ℕ
last_changed = b'a' ∷ b'\n' ∷ b'b' ∷ b'\n' ∷ b'Z' ∷ b'\n' ∷ []

abbrev first_inserted : List ℕ
first_inserted = b'N' ∷ b'\n' ∷ b'a' ∷ b'\n' ∷ b'b' ∷ b'\n' ∷ b'c' ∷ b'\n' ∷ []

abbrev lines_of_base : List Line
lines_of_base = (b'a' ∷ []) ∷ (b'b' ∷ []) ∷ (b'c' ∷ []) ∷ []

lines_read : split_lines base_file ≡ lines_of_base
unfolding split_lines
lines_read = refl

merged_apart :
    try_textual base_file first_changed last_changed
    ≡ some (some (b'X' ∷ b'\n' ∷ b'b' ∷ b'\n' ∷ b'Z' ∷ b'\n' ∷ []))
unfolding try_textual split_lines apply_two_hunk_sets compute_hunks hunk_loop hunks_overlap
    merge_lines apply_loop lcs_indices lcs_walk lcs_table sort_by_key slice
merged_apart = refl

-- A line inserted by the workspace above a line that HEAD changed: the merge panics.
merged_above : try_textual base_file first_changed first_inserted ≡ none
unfolding try_textual split_lines apply_two_hunk_sets compute_hunks hunk_loop hunks_overlap
    merge_lines apply_loop lcs_indices lcs_walk lcs_table sort_by_key slice
merged_above = refl

abbrev head_lines : List Line
head_lines = (b'X' ∷ []) ∷ (b'b' ∷ []) ∷ (b'c' ∷ []) ∷ []

abbrev shared : List Line
shared = (b'b' ∷ []) ∷ []

shared-IsCommon : IsCommon shared lines_of_base head_lines
shared-IsCommon = skip_left (skip_right (both done))

lcs_indices-IsLongest_example :
    Matched lines_of_base head_lines 0 0 (lcs_indices lines_of_base head_lines)
    × (length shared ≤ length (lcs_indices lines_of_base head_lines))
lcs_indices-IsLongest_example =
    lcs_indices-IsLongest lines_of_base head_lines shared shared-IsCommon

compute_hunks-rebuilds_example :
    (hs : List (Hunk Line)) × (compute_hunks lines_of_base head_lines ≡ some hs)
    × Separated lines_of_base 0 hs
    × (apply_loop lines_of_base 0 hs ≡ some head_lines)
compute_hunks-rebuilds_example = compute_hunks-rebuilds lines_of_base head_lines

-- HEAD changes the first line, the workspace the last, or inserts above the first.
abbrev change_first : List (Hunk Line)
change_first = record { base_start = 0; base_end = 1; new_lines = (b'X' ∷ []) ∷ [] } ∷ []

abbrev change_last : List (Hunk Line)
change_last = record { base_start = 2; base_end = 3; new_lines = (b'Z' ∷ []) ∷ [] } ∷ []

abbrev insert_first : List (Hunk Line)
insert_first = record { base_start = 0; base_end = 0; new_lines = (b'N' ∷ []) ∷ [] } ∷ []

merge_lines-patched_example :
    (merge_lines lines_of_base change_first change_last
      ≡ some (patched lines_of_base 0 (sort_by_key start (change_first ++ change_last))))
    × InOrder lines_of_base 0 (sort_by_key start (change_first ++ change_last))
unfolding hunks_overlap lands_inside
merge_lines-patched_example =
    merge_lines-patched lines_of_base change_first change_last (ground arith) (ground arith) refl
      refl

merge_lines-panics_iff_example :
    (merge_lines lines_of_base change_first insert_first ≡ none)
    ↔ (any (λ h. any (lands_inside h) insert_first) change_first ≡ true)
unfolding hunks_overlap
merge_lines-panics_iff_example =
    merge_lines-panics_iff lines_of_base change_first insert_first (ground arith) (ground arith)
      refl

head_unchanged_example : try_textual base_file base_file last_changed ≡ some (some last_changed)
head_unchanged_example = head_unchanged base_file base_file last_changed refl

head_lines-ne : split_lines first_changed ≢ split_lines base_file
unfolding split_lines
head_lines-ne e = ground arith
