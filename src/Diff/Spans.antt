-- ===== src/Diff/Spans.antt =====
-- The bytes that src/diff/mod.rs compares for an entity, and the entity of an id that its maps hold.
use text.Mathlib.TextEquality.{eq_iff}
use vai.Common.{
  ℕ, zero, suc, ◌-◌, min, Option, none, some, ◌≡◌, refl, sym, ap, ◌∙◌, ◌↔◌, inl, inr, Bool, true,
  false, ◌&&◌, List, [], ◌∷◌, String, ◌==◌, nat_eq_iff, any, between, drop, drop-nil, length,
  Bool-cases, arith,
}
use vai.Common.Eq.{string_equality}
use vai.Graph.{Entity}
use vai.Graph.Update.{last_entity}
use vai.Diff.{to_map, lookup, span, same_bytes}

abbrev pub take : ℕ → List ℕ → List ℕ
take zero xs = []
take (suc n) [] = []
take (suc n) (x ∷ xs) = x ∷ take n xs

-- The bytes from the start of the entity's range to its end, as far as the file goes.
abbrev pub bytes_of : List ℕ → Entity → List ℕ
bytes_of content e = take (e.byte_range.1 - e.byte_range.0) (drop e.byte_range.0 content)

take-nil : (n : ℕ) → take n [] ≡ []
take-nil zero = refl
take-nil (suc n) = refl

min-suc : (a b : ℕ) → min (suc a) (suc b) ≡ suc (min a b)
min-suc a b = ground arith

min-zero : (b : ℕ) → min zero (suc b) ≡ zero
min-zero b = ground arith

sub_zero : (a : ℕ) → suc (a - zero) ≡ suc a - zero
sub_zero a = omega arith

zero_sub : (a : ℕ) → zero ≡ zero - suc a
zero_sub a = omega arith

sub_suc : (a b : ℕ) → suc a - suc b ≡ a - b
sub_suc a b = omega arith

between-nil : (lo hi : ℕ) → between {A = ℕ} lo hi [] ≡ []
between-nil zero zero = refl
between-nil zero (suc hi) = refl
between-nil (suc lo) zero = refl
between-nil (suc lo) (suc hi) = refl

between-take :
    (lo hi : ℕ) (xs : List ℕ) → between lo (min hi (length xs)) xs ≡ take (hi - lo) (drop lo xs)
between-take lo hi [] =
    between-nil lo (min hi 0) ∙ sym (ap (take (hi - lo)) (drop-nil lo) ∙ take-nil (hi - lo))
between-take zero zero (x ∷ xs) = ap (λ n. between zero n (x ∷ xs)) (min-zero (length xs))
between-take zero (suc hi) (x ∷ xs) =
    ap (λ n. between zero n (x ∷ xs)) (min-suc hi (length xs))
    ∙ ap (λ l. x ∷ l) (between-take zero hi xs)
    ∙ ap (λ n. take n (x ∷ xs)) (sub_zero hi)
between-take (suc lo) zero (x ∷ xs) =
    ap (λ n. between (suc lo) n (x ∷ xs)) (min-zero (length xs))
    ∙ ap (λ n. take n (drop lo xs)) (zero_sub lo)
between-take (suc lo) (suc hi) (x ∷ xs) =
    ap (λ n. between (suc lo) n (x ∷ xs)) (min-suc hi (length xs))
    ∙ between-take lo hi xs
    ∙ ap (λ n. take n (drop lo xs)) (sym (sub_suc hi lo))

pub span-bytes_of : (content : List ℕ) (e : Entity) → span content e ≡ bytes_of content e
span-bytes_of content e = between-take e.byte_range.0 e.byte_range.1 content

pub same_bytes_iff : (xs ys : List ℕ) → (same_bytes xs ys ≡ true) ↔ (xs ≡ ys)
same_bytes_iff [] [] = (λ h. refl, λ h. refl)
same_bytes_iff [] (y ∷ ys) = (λ h. cc, λ h. cc)
same_bytes_iff (x ∷ xs) [] = (λ h. cc, λ h. cc)
same_bytes_iff (x ∷ xs) (y ∷ ys) = (
  λ h.
      let one : x ≡ y = (nat_eq_iff x y).0 (ground arith) in
      let rest : xs ≡ ys = (same_bytes_iff xs ys).0 (ground arith) in cc,
  λ h.
      let one : x ≡ y = cc in
      let rest : xs ≡ ys = cc in
      let there = (nat_eq_iff x y).1 one in
      let more = (same_bytes_iff xs ys).1 rest in ground arith,
)

abbrev pub has : String → List Entity → Bool
has id es = any (λ e. e.id == id) es

pub has-to_map : (id : String) (es : List Entity) → has id (to_map es) ≡ has id es
unfolding to_map
has-to_map id [] = refl
has-to_map id (e ∷ es) = elim (Bool-cases (e.id == id)) [
  | inl here ↦
      let q : e.id ≡ id = (eq_iff e.id id).0 here in ground (arith, here, q, has-to_map id es)
  | inr other ↦ ground (arith, other, has-to_map id es)
]

abbrev is_some : Option Entity → Bool
is_some none = false
is_some (some e) = true

pub has-lookup : (id : String) (es : List Entity) → has id es ≡ is_some (lookup id es)
unfolding lookup
has-lookup id [] = refl
has-lookup id (e ∷ es) = ground (arith, has-lookup id es)

abbrev or_else : Option Entity → Option Entity → Option Entity
or_else none o = o
or_else (some e) o = some e

last_entity-lookup :
    (id : String) (es : List Entity) (o : Option Entity)
    → last_entity id es o ≡ or_else (lookup id (to_map es)) o
unfolding lookup to_map
last_entity-lookup id [] o = refl
last_entity-lookup id (e ∷ es) o = elim (Bool-cases (e.id == id)) [
  | inl here ↦
      let q : e.id ≡ id = (eq_iff e.id id).0 here in
      ground (arith, here, q, has-lookup id (to_map es), last_entity-lookup id es (some e))
  | inr other ↦ ground (arith, other, last_entity-lookup id es o)
]

pub lookup-last_entity :
    (id : String) (es : List Entity) → lookup id (to_map es) ≡ last_entity id es none
lookup-last_entity id es = ground (arith, last_entity-lookup id es none)

pub lookup-id : (id : String) (es : List Entity) (e : Entity) → lookup id es ≡ some e → e.id ≡ id
unfolding lookup
lookup-id id [] e h = cc
lookup-id id (x ∷ es) e h = ground (arith, lookup-id id es e, eq_iff x.id id)

-- Where the test passes for the entity that the map has under the id.
abbrev pub passes : (Entity → Bool) → Option Entity → Bool
passes p none = false
passes p (some e) = p e

any-none :
    (id : String) (p : Entity → Bool) (es : List Entity)
    → has id es ≡ false
    → any (λ e. e.id == id && p e) es ≡ false
any-none id p [] h = refl
any-none id p (e ∷ es) h = ground (arith, any-none id p es)

pub any-lookup :
    (id : String) (p : Entity → Bool) (es : List Entity)
    → any (λ e. e.id == id && p e) (to_map es) ≡ passes p (lookup id (to_map es))
unfolding lookup to_map
any-lookup id p [] = refl
any-lookup id p (e ∷ es) = elim (Bool-cases (e.id == id)) [
  | inl here ↦
      let q : e.id ≡ id = (eq_iff e.id id).0 here in
      ground (arith, here, q, any-none id p (to_map es), any-lookup id p es)
  | inr other ↦ ground (arith, other, any-lookup id p es)
]
