-- ===== src/Issue/Labels.antt =====
-- The `labels` column of src/issue/mod.rs: `labels.join(",")` on the way in, and on the way out nothing
-- for the empty text and `split(',')` otherwise.
use Prim.Native.Char.{Char, code}
use Prim.Native.String.{[] as ε, ◌∷◌ as ◌∷ˢ◌}
use vai.Common.{
  ◌≡◌, ◌≢◌, refl, ap, Bool, false, ◌||◌, List, [], ◌∷◌, String, nat_eq, if◌then◌else◌, arith, All,
}

abbrev is_comma : Char → Bool
is_comma c = nat_eq (code c) b','

abbrev pub append_text : String → String → String
append_text ε t = t
append_text (c ∷ˢ s) t = c ∷ˢ append_text s t

unfoldable pub join_labels : List String → String
join_labels [] = ""
join_labels (x ∷ []) = x
join_labels (x ∷ y ∷ labels) = append_text x ("," ∷ˢ join_labels (y ∷ labels))

abbrev push : Char → List String → List String
push c [] = (c ∷ˢ "") ∷ []
push c (w ∷ ws) = (c ∷ˢ w) ∷ ws

split_commas : String → List String
split_commas ε = "" ∷ []
split_commas (c ∷ˢ s) = if is_comma c then "" ∷ split_commas s else push c (split_commas s)

unfoldable pub split_labels : String → List String
unfolding split_commas
split_labels ε = []
split_labels (c ∷ˢ s) = split_commas (c ∷ˢ s)

abbrev pub has_comma : String → Bool
has_comma ε = false
has_comma (c ∷ˢ s) = is_comma c || has_comma s

split_commas-plain : (x : String) → has_comma x ≡ false → split_commas x ≡ x ∷ []
unfolding split_commas
split_commas-plain ε h = refl
split_commas-plain (c ∷ˢ s) h = ground (arith, split_commas-plain s)

split_commas-append :
    (x t : String)
    → has_comma x ≡ false
    → split_commas (append_text x ("," ∷ˢ t)) ≡ x ∷ split_commas t
unfolding split_commas
split_commas-append ε t h = refl
split_commas-append (c ∷ˢ s) t h = ground (arith, split_commas-append s t)

split_commas-join :
    (x : String) (labels : List String)
    → All (λ l. has_comma l ≡ false) (x ∷ labels)
    → split_commas (join_labels (x ∷ labels)) ≡ x ∷ labels
unfolding join_labels
split_commas-join x [] h = split_commas-plain x h.0
split_commas-join x (y ∷ labels) h =
    rw (split_commas-append x (join_labels (y ∷ labels)) h.0)
      (ap (λ l. x ∷ l) (split_commas-join y labels h.1))

split_labels-split_commas : (s : String) → s ≢ "" → split_labels s ≡ split_commas s
unfolding split_labels
split_labels-split_commas ε h = absurd (h refl)
split_labels-split_commas (c ∷ˢ s) h = refl

-- Labels that hold no comma are read back as they were written, except for a single empty label.
pub split_labels-join_labels :
    (labels : List String)
    → All (λ l. has_comma l ≡ false) labels
    → labels ≢ "" ∷ []
    → split_labels (join_labels labels) ≡ labels
unfolding join_labels split_labels
split_labels-join_labels [] h k = refl
split_labels-join_labels (ε ∷ []) h k = absurd (k refl)
split_labels-join_labels ((c ∷ˢ x) ∷ []) h k = split_commas-join (c ∷ˢ x) [] h
split_labels-join_labels (ε ∷ y ∷ labels) h k = split_commas-join "" (y ∷ labels) h
split_labels-join_labels ((c ∷ˢ x) ∷ y ∷ labels) h k = split_commas-join (c ∷ˢ x) (y ∷ labels) h
