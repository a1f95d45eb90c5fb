-- ===== src/Merge/Hunks/Overlap.antt =====
-- When the merge of two hunk sets writes a result, and when it panics although `hunks_overlap` found
-- nothing.
use vai.Common.{
  ℕ, suc, ◌≤◌, ◌<◌, ◌≡◌, inl, inr, some, Bool, true, false, ◌&&◌, ◌||◌, List, [], ◌∷◌, ◌++◌, length,
  All, any, ltb, leb, nat_eq, arith, Bool-cases,
}
use vai.Common.Sort.{sort_by_key, insert_by_key}
use vai.Merge.Hunks.{Hunk, is_change, overlaps, hunks_overlap, merge_lines}
use vai.Merge.Hunks.Bounds.{Separated, InOrder, patched, apply_loop-InOrder}

module _ {A : Type 0} where
  -- One hunk inserts lines where the other, written before it, replaces a range.
  unfoldable pub lands_inside : Hunk A → Hunk A → Bool
  lands_inside h k =
      (nat_eq k.base_start k.base_end
        && leb h.base_start k.base_start
        && ltb k.base_start h.base_end)
      || (nat_eq h.base_start h.base_end
          && ltb k.base_start h.base_start
          && ltb h.base_start k.base_end)

  -- The order of the sort is an order in which the ranges do not meet.
  abbrev pub Clear : Hunk A → Hunk A → Type 0
  Clear x y =
      (leb x.base_start y.base_start ≡ true → x.base_end ≤ y.base_start)
      × (leb x.base_start y.base_start ≡ false → y.base_end ≤ x.base_start)

  -- A pair of real changes that `overlaps` lets pass and that does not land inside is clear.
  Clear-of :
      (x y : Hunk A)
      → x.base_start ≤ x.base_end
      → y.base_start ≤ y.base_end
      → is_change x ≡ true
      → is_change y ≡ true
      → overlaps x y ≡ false
      → lands_inside x y ≡ false
      → Clear x y
  unfolding overlaps lands_inside
  Clear-of x y h k c d o l = (λ p. ground arith, λ p. ground arith)

  -- Inside the base, with its ends in order.
  abbrev pub Fits : List A → Hunk A → Type 0
  Fits base h = (h.base_start ≤ h.base_end) × (h.base_end ≤ length base)

  abbrev pub start : Hunk A → ℕ
  start h = h.base_start

  abbrev pub Chain : List (Hunk A) → Type 0
  Chain [] = Unit
  Chain (h ∷ hs) = All (λ k. h.base_end ≤ k.base_start) hs × Chain hs

  abbrev pub Clears : List (Hunk A) → Type 0
  Clears [] = Unit
  Clears (h ∷ hs) = All (Clear h) hs × Clears hs

  All-insert :
      (P : Hunk A → Type 0) (x : Hunk A) (hs : List (Hunk A))
      → P x
      → All P hs
      → All P (insert_by_key start x hs)
  unfolding insert_by_key
  All-insert P x [] h a = (h, tt)
  All-insert P x (k ∷ hs) h a = elim (Bool-cases (leb x.base_start k.base_start)) [
    | inl first ↦ rw first (h, (a.0, a.1))
    | inr later ↦ rw later (a.0, All-insert P x hs h a.1)
  ]

  pub All-sort :
      (P : Hunk A → Type 0) (hs : List (Hunk A)) → All P hs → All P (sort_by_key start hs)
  unfolding sort_by_key
  All-sort P [] a = tt
  All-sort P (h ∷ hs) a = All-insert P h (sort_by_key start hs) a.0 (All-sort P hs a.1)

  -- Past the first hunk of a chain the starts only grow.
  ends-before :
      (base : List A) (x y : Hunk A) (hs : List (Hunk A))
      → x.base_start ≤ y.base_start
      → Fits base y
      → All (λ k. y.base_end ≤ k.base_start) hs
      → All (Clear x) hs
      → All (λ k. x.base_end ≤ k.base_start) hs
  ends-before base x y [] h f a c = tt
  ends-before base x y (k ∷ hs) h f a c =
      (c.0.0 (ground arith), ends-before base x y hs h f a.1 c.1)

  Chain-insert :
      (base : List A) (x : Hunk A) (hs : List (Hunk A))
      → All (Fits base) hs
      → All (Clear x) hs
      → Chain hs
      → Chain (insert_by_key start x hs)
  unfolding insert_by_key
  Chain-insert base x [] f c h = (tt, tt)
  Chain-insert base x (k ∷ hs) f c h = elim (Bool-cases (leb x.base_start k.base_start)) [
    | inl first ↦ rw first ((c.0.0 first, ends-before base x k hs (ground arith) f.0 h.0 c.1), h)
    | inr later ↦ rw later (
      All-insert (λ y. k.base_end ≤ y.base_start) x hs (c.0.1 later) h.0,
      Chain-insert base x hs f.1 c.1 h.1,
    )
  ]

  Chain-sort :
      (base : List A) (hs : List (Hunk A))
      → All (Fits base) hs
      → Clears hs
      → Chain (sort_by_key start hs)
  unfolding sort_by_key
  Chain-sort base [] f c = tt
  Chain-sort base (h ∷ hs) f c =
      Chain-insert base h (sort_by_key start hs) (All-sort (Fits base) hs f.1)
        (All-sort (Clear h) hs c.0) (Chain-sort base hs f.1 c.1)

  Chain-InOrder :
      (base : List A) (p : ℕ) (hs : List (Hunk A))
      → p ≤ length base
      → All (λ k. p ≤ k.base_start) hs
      → All (Fits base) hs
      → Chain hs
      → InOrder base p hs
  Chain-InOrder base p [] l a f c = l
  Chain-InOrder base p (h ∷ hs) l a f c =
      (a.0, f.0.0, f.0.1, Chain-InOrder base h.base_end hs f.0.1 c.0 f.1 c.1)

  -- A file's own hunks are clear of one another.
  Separated-later :
      (base : List A) (x : Hunk A) (p : ℕ) (hs : List (Hunk A))
      → x.base_start ≤ x.base_end
      → x.base_end < p
      → Separated base p hs
      → All (Clear x) hs
  Separated-later base x p [] f h s = tt
  Separated-later base x p (k ∷ hs) f h s = (
    (λ e. omega arith, λ e. absurd (ground arith)),
    Separated-later base x (suc k.base_end) hs f (omega arith) s.4,
  )

  Separated-Clears : (base : List A) (p : ℕ) (hs : List (Hunk A)) → Separated base p hs → Clears hs
  Separated-Clears base p [] s = tt
  Separated-Clears base p (h ∷ hs) s = (
    Separated-later base h (suc h.base_end) hs s.1 (omega arith) s.4,
    Separated-Clears base (suc h.base_end) hs s.4,
  )

  pub Separated-Fits :
      (base : List A) (p : ℕ) (hs : List (Hunk A)) → Separated base p hs → All (Fits base) hs
  Separated-Fits base p [] s = tt
  Separated-Fits base p (h ∷ hs) s = ((s.1, s.2), Separated-Fits base (suc h.base_end) hs s.4)

  pub All-append :
      (P : Hunk A → Type 0) (hs ks : List (Hunk A)) → All P hs → All P ks → All P (hs ++ ks)
  All-append P [] ks a b = b
  All-append P (h ∷ hs) ks a b = (a.0, All-append P hs ks a.1 b)

  -- What the two tests of the pair find, over the hunks of one side against one hunk of the other.
  Clear-row :
      (base : List A) (x : Hunk A) (p : ℕ) (ks : List (Hunk A))
      → x.base_start ≤ x.base_end
      → is_change x ≡ true
      → Separated base p ks
      → any (overlaps x) ks ≡ false
      → any (lands_inside x) ks ≡ false
      → All (Clear x) ks
  Clear-row base x p [] f c s o l = tt
  Clear-row base x p (k ∷ ks) f c s o l = (
    Clear-of x k f s.1 c s.3 (ground arith) (ground arith),
    Clear-row base x (suc k.base_end) ks f c s.4 (ground arith) (ground arith),
  )

  Clears-append :
      (base : List A) (p q : ℕ) (hs ks : List (Hunk A))
      → Separated base p hs
      → Separated base q ks
      → any (λ h. any (overlaps h) ks) hs ≡ false
      → any (λ h. any (lands_inside h) ks) hs ≡ false
      → Clears (hs ++ ks)
  Clears-append base p q [] ks s t o l = Separated-Clears base q ks t
  Clears-append base p q (h ∷ hs) ks s t o l = (
    All-append (Clear h) hs ks (Separated-later base h (suc h.base_end) hs s.1 (omega arith) s.4)
        (Clear-row base h q ks s.1 s.3 t (ground arith) (ground arith)),
    Clears-append base (suc h.base_end) q hs ks s.4 t (ground arith) (ground arith),
  )

  All-any : (hs : List (Hunk A)) → All (λ k. 0 ≤ k.base_start) hs
  All-any [] = tt
  All-any (h ∷ hs) = (omega arith, All-any hs)

  -- Two sets of hunks such as `compute_hunks` returns, which `hunks_overlap` finds apart and where no
  -- insertion lands inside the other side's range, are written without a panic; the result is the
  -- base with every hunk of both sets, in the order of their base lines, put in place of its range.
  pub merge_lines-patched :
      (base : List A) (head ws : List (Hunk A))
      → Separated base 0 head
      → Separated base 0 ws
      → hunks_overlap head ws ≡ false
      → any (λ h. any (lands_inside h) ws) head ≡ false
      → (merge_lines base head ws ≡ some (patched base 0 (sort_by_key start (head ++ ws))))
        × InOrder base 0 (sort_by_key start (head ++ ws))
  unfolding merge_lines hunks_overlap
  merge_lines-patched base head ws s t o l =
      let fits =
        All-append (Fits base) head ws (Separated-Fits base 0 head s)
          (Separated-Fits base 0 ws t) in
      let chain = Chain-sort base (head ++ ws) fits (Clears-append base 0 0 head ws s t o l) in
      let ordered =
        Chain-InOrder base 0 (sort_by_key start (head ++ ws)) (omega arith) (All-any _)
          (All-sort (Fits base) (head ++ ws) fits) chain in
      (apply_loop-InOrder base 0 _ ordered, ordered)
