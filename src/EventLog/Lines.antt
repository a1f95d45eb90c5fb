-- ===== src/EventLog/Lines.antt =====
-- The bytes of a segment file of src/event_log/mod.rs: `read_line`, `lines`, `trim` and `trim_end` of the
-- language. Of the white space only that of ASCII is written out, which is what can follow a JSON text.
use vai.Common.{
  ℕ, ◌≤◌, ◌≡◌, refl, Bool, true, false, ◌&&◌, ◌||◌, List, [], ◌∷◌, ◌++◌, nat_eq, leb, if◌then◌else◌,
  length, drop, is_empty, All, arith,
}

abbrev pub newline : ℕ
newline = 10

abbrev pub brace : ℕ
brace = 125

abbrev pub is_space : ℕ → Bool
is_space b = (leb 9 b && leb b 13) || nat_eq b 32

-- `read_line`: up to and with the first newline.
unfoldable pub read_line : List ℕ → List ℕ
read_line [] = []
read_line (b ∷ bs) = let rest = read_line bs in if nat_eq b newline then b ∷ [] else b ∷ rest

unfoldable pub trim_end : List ℕ → List ℕ
trim_end [] = []
trim_end (b ∷ bs) = let rest = trim_end bs in if is_empty rest && is_space b then [] else b ∷ rest

-- `trim().is_empty()`.
unfoldable pub is_blank : List ℕ → Bool
is_blank [] = true
is_blank (b ∷ bs) = is_space b && is_blank bs

abbrev pub begin_line : ℕ → List (List ℕ) → List (List ℕ)
begin_line b [] = (b ∷ []) ∷ []
begin_line b (l ∷ ls) = (b ∷ l) ∷ ls

abbrev pub at_newline : List ℕ → Bool
at_newline [] = false
at_newline (b ∷ bs) = nat_eq b newline

-- `lines`: without the newlines, and without a carriage return before one.
unfoldable pub lines : List ℕ → List (List ℕ)
lines [] = []
lines (b ∷ bs) =
    let rest = lines bs in
    if nat_eq b newline
    then [] ∷ rest
    else if nat_eq b 13 && at_newline bs
    then rest
    else begin_line b rest

-- JSON text holds no control character, so a line of it is read as it was written.
abbrev pub IsText : List ℕ → Type 0
IsText bs = All (λ b. 32 ≤ b) bs

pub read_line-text :
    (text rest : List ℕ) → IsText text → read_line (text ++ newline ∷ rest) ≡ text ++ newline ∷ []
unfolding read_line
read_line-text [] rest t = refl
read_line-text (b ∷ text) rest t = ground (arith, read_line-text text rest t.1, t.0)

pub lines-text :
    (text rest : List ℕ) → IsText text → lines (text ++ newline ∷ rest) ≡ text ∷ lines rest
unfolding lines
lines-text [] rest t = refl
lines-text (b ∷ text) rest t = ground (arith, lines-text text rest t.1, t.0)

-- The brace that ends a JSON object is no white space.
pub trim_end-object :
    (body : List ℕ) → trim_end ((body ++ brace ∷ []) ++ newline ∷ []) ≡ body ++ brace ∷ []
unfolding trim_end
trim_end-object [] = refl
trim_end-object (b ∷ body) = rw (trim_end-object body) (nonempty body b)
  where
    nonempty :
        (xs : List ℕ) (b : ℕ)
        → (if is_empty (xs ++ brace ∷ []) && is_space b then [] else b ∷ (xs ++ brace ∷ []))
          ≡ b ∷ (xs ++ brace ∷ [])
    nonempty [] b = refl
    nonempty (x ∷ xs) b = refl

pub is_blank-object : (body : List ℕ) → is_blank (body ++ brace ∷ []) ≡ false
unfolding is_blank
is_blank-object [] = refl
is_blank-object (b ∷ body) = ground (arith, is_blank-object body)

pub drop-append : (xs ys : List ℕ) → drop (length xs) (xs ++ ys) ≡ ys
drop-append [] ys = refl
drop-append (x ∷ xs) ys = drop-append xs ys
