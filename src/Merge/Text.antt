-- ===== src/Merge/Text.antt =====
-- Level 1 of `try_merge_file` of src/merge/mod.rs, with `split_lines` and `apply_two_hunk_sets`.
-- Contents are lists of bytes; they are taken to be UTF-8, on which `from_utf8_lossy` changes nothing,
-- and a line is the list of its bytes. `none` is a panic.
pub mod OneSide
use mathlib.Core.List.{reverse}
use vai.Common.{
  ℕ, Option, none, some, Bool, true, false, not, ◌&&◌, ◌||◌, List, [], ◌∷◌, ◌++◌, ◌≡◌, refl, ◌↔◌,
  arith, Equality, nat_eq, nat_eq_iff, is_empty, if◌then◌else◌, ap, Bool-cases, inl, inr, sym,
}
use vai.Common.Partial.{◌>>=◌}
use vai.Merge.Hunks.{Hunk, compute_hunks, hunks_overlap, merge_lines}

abbrev pub Line : Type 0
Line = List ℕ

abbrev line_eq : Line → Line → Bool
line_eq [] [] = true
line_eq [] (c ∷ d) = false
line_eq (b ∷ a) [] = false
line_eq (b ∷ a) (c ∷ d) = nat_eq b c && line_eq a d

line_eq_sound : (a b : Line) → line_eq a b ≡ true → a ≡ b
line_eq_sound [] [] h = refl
line_eq_sound [] (c ∷ d) h = cc
line_eq_sound (b ∷ a) [] h = cc
line_eq_sound (b ∷ a) (c ∷ d) h = ground (arith, line_eq_sound a d)

line_eq_refl : (a : Line) → line_eq a a ≡ true
line_eq_refl [] = refl
line_eq_refl (b ∷ a) = ground (arith, line_eq_refl a)

pub line_eq_iff : (a b : Line) → (line_eq a b ≡ true) ↔ (a ≡ b)
line_eq_iff a b = (line_eq_sound a b, λ e. rw e (line_eq_refl b))

instance abbrev pub line_equality : Equality Line
line_equality = record { eqb = line_eq; eqb_iff = line_eq_iff }

-- `str::lines`: a line ends at "\n", and a "\r" before it goes too. `acc` is the line read, reversed.
abbrev strip_cr : Line → Line
strip_cr [] = []
strip_cr (c ∷ acc) = if nat_eq c b'\r' then acc else c ∷ acc

lines_loop : Line → List ℕ → List Line
lines_loop acc [] = if is_empty acc then [] else reverse acc ∷ []
lines_loop acc (c ∷ content) =
    let next = reverse (strip_cr acc) ∷ lines_loop [] content in
    let longer = lines_loop (c ∷ acc) content in if nat_eq c b'\n' then next else longer

unfoldable pub split_lines : List ℕ → List Line
unfolding lines_loop
split_lines content = lines_loop [] content

abbrev join : List Line → List ℕ
join [] = []
join (line ∷ []) = line
join (line ∷ next ∷ lines) = line ++ (b'\n' ∷ join (next ∷ lines))

abbrev ends_with_newline : List ℕ → Bool
ends_with_newline [] = false
ends_with_newline (c ∷ []) = nat_eq c b'\n'
ends_with_newline (c ∷ d ∷ rest) = ends_with_newline (d ∷ rest)

unfoldable pub apply_two_hunk_sets :
    List Line → List ℕ → List ℕ → List (Hunk Line) → List (Hunk Line) → Option (List ℕ)
apply_two_hunk_sets base head_raw ws_raw head_hunks ws_hunks =
    if is_empty head_hunks then some ws_raw else if is_empty ws_hunks then some head_raw else do
      lines ← merge_lines base head_hunks ws_hunks
      let out = join lines
      let had_newline = ends_with_newline head_raw || ends_with_newline ws_raw
      some (if had_newline && not (ends_with_newline out) then out ++ b'\n' ∷ [] else out)

-- Level 1 of `try_merge_file`: `some none` when the hunks overlap, and levels 2 and 3 take over.
unfoldable pub try_textual : List ℕ → List ℕ → List ℕ → Option (Option (List ℕ))
try_textual base head workspace = do
  head_hunks ← compute_hunks (split_lines base) (split_lines head)
  ws_hunks ← compute_hunks (split_lines base) (split_lines workspace)
  if hunks_overlap head_hunks ws_hunks then some none else do
    merged ← apply_two_hunk_sets (split_lines base) head workspace head_hunks ws_hunks
    some (some merged)
