-- ===== src/Merge/Hunks/Panic.antt =====
-- The merge of two hunk sets that do not overlap panics exactly when an insertion lands inside a
-- range of the other side.
use vai.Common.{
  ℕ, ◌≤◌, ◌≡◌, refl, ◌↔◌, inl, inr, some, none, true, false, List, [], ◌∷◌, ◌++◌, length, All, any,
  ltb, leb, arith, Bool-cases, Option-cases, slice, slice-some_inv, if◌then◌else◌,
}
use vai.Common.Partial.{>>=-eq-some}
use vai.Common.Sort.{sort_by_key, insert_by_key, IsSorted, sort_by_key-IsSorted}
use vai.Merge.Hunks.{Hunk, hunks_overlap, apply_loop, merge_lines}
use vai.Merge.Hunks.Bounds.{Separated, InOrder}
use vai.Merge.Hunks.Overlap.{
  lands_inside, Clear, Clears, Chain, Fits, start, Separated-Fits, All-append, All-sort,
  merge_lines-patched,
}

module _ {A : Type 0} where
  -- A run that writes a result went through the hunks in order.
  InOrder-apply_loop :
      (base : List A) (p : ℕ) (hs : List (Hunk A)) (out : List A)
      → All (Fits base) hs
      → apply_loop base p hs ≡ some out
      → InOrder base p hs
  unfolding apply_loop
  InOrder-apply_loop base p [] out f r = (slice-some_inv p (length base) base out r).0
  InOrder-apply_loop base p (h ∷ hs) out f r =
      let (kept, copies, after) = >>=-eq-some (slice p h.base_start base) _ r in
      let (more, runs, done) =
        >>=-eq-some (apply_loop base (if ltb p h.base_end then h.base_end else p) hs) _ after in
      let reach = slice-some_inv p h.base_start base kept copies in
      let e : (if ltb p h.base_end then h.base_end else p) ≡ h.base_end =
        ground (arith, reach, f) in
      (reach.0, f.0.0, f.0.1, InOrder-apply_loop base h.base_end hs more f.1 (rw e at runs))

  InOrder-Chain :
      (base : List A) (p q : ℕ) (hs : List (Hunk A))
      → q ≤ p
      → InOrder base p hs
      → All (λ k. q ≤ k.base_start) hs × Chain hs
  InOrder-Chain base p q [] l o = (tt, tt)
  InOrder-Chain base p q (h ∷ hs) l o = (
    (omega arith, (InOrder-Chain base h.base_end q hs (omega arith) o.3).0),
    InOrder-Chain base h.base_end h.base_end hs (omega arith) o.3,
  )

  All-uninsert :
      (P : Hunk A → Type 0) (x : Hunk A) (hs : List (Hunk A))
      → All P (insert_by_key start x hs)
      → P x × All P hs
  unfolding insert_by_key
  All-uninsert P x [] a = (a.0, tt)
  All-uninsert P x (k ∷ hs) a = elim (Bool-cases (leb x.base_start k.base_start)) [
    | inl first ↦ let b : All P (x ∷ k ∷ hs) = rw first at a in b
    | inr later ↦
        let b : All P (k ∷ insert_by_key start x hs) = rw later at a in
        let r = All-uninsert P x hs b.1 in (r.0, (b.0, r.1))
  ]

  All-unsort : (P : Hunk A → Type 0) (hs : List (Hunk A)) → All P (sort_by_key start hs) → All P hs
  unfolding sort_by_key
  All-unsort P [] a = tt
  All-unsort P (h ∷ hs) a =
      let r = All-uninsert P h (sort_by_key start hs) a in (r.0, All-unsort P hs r.1)

  after-first :
      (x : Hunk A) (hs : List (Hunk A))
      → All (λ y. x.base_start ≤ y.base_start) hs
      → All (λ y. x.base_end ≤ y.base_start) hs
      → All (Clear x) hs
  after-first x [] a b = tt
  after-first x (k ∷ hs) a b =
      ((λ e. b.0, λ e. absurd (ground (arith, a.0))), after-first x hs a.1 b.1)

  All-le :
      (m n : ℕ) (hs : List (Hunk A))
      → m ≤ n
      → All (λ y. n ≤ y.base_start) hs
      → All (λ y. m ≤ y.base_start) hs
  All-le m n [] h a = tt
  All-le m n (k ∷ hs) h a = (omega arith, All-le m n hs h a.1)

  Chain-uninsert :
      (x : Hunk A) (hs : List (Hunk A))
      → IsSorted start hs
      → Chain (insert_by_key start x hs)
      → All (Clear x) hs × Chain hs
  unfolding insert_by_key
  Chain-uninsert x [] s c = (tt, tt)
  Chain-uninsert x (k ∷ hs) s c = elim (Bool-cases (leb x.base_start k.base_start)) [
    | inl first ↦
        let b : Chain (x ∷ k ∷ hs) = rw first at c in
        (
          after-first x (k ∷ hs)
              (ground arith, All-le x.base_start k.base_start hs (ground arith) s.0) b.0,
          b.1,
        )
    | inr later ↦
        let b : Chain (k ∷ insert_by_key start x hs) = rw later at c in
        let r = All-uninsert (λ y. k.base_end ≤ y.base_start) x hs b.0 in
        let t = Chain-uninsert x hs s.1 b.1 in
        (((λ e. absurd (cc (e, later)), λ e. r.0), t.0), (r.1, t.1))
  ]

  Clears-sort : (hs : List (Hunk A)) → Chain (sort_by_key start hs) → Clears hs
  unfolding sort_by_key
  Clears-sort [] c = tt
  Clears-sort (h ∷ hs) c =
      let r = Chain-uninsert h (sort_by_key start hs) (sort_by_key-IsSorted start hs) c in
      (All-unsort (Clear h) hs r.0, Clears-sort hs r.1)

  outside :
      (x y : Hunk A)
      → x.base_start ≤ x.base_end
      → y.base_start ≤ y.base_end
      → Clear x y
      → lands_inside x y ≡ false
  unfolding lands_inside
  outside x y f g c = ground (arith, c.0, c.1)

  outside_row :
      (base : List A) (x : Hunk A) (hs ks : List (Hunk A))
      → x.base_start ≤ x.base_end
      → All (Fits base) ks
      → All (Clear x) (hs ++ ks)
      → any (lands_inside x) ks ≡ false
  outside_row base x [] [] f g c = refl
  outside_row base x [] (k ∷ ks) f g c =
      rw (outside x k f g.0.0 c.0) (outside_row base x [] ks f g.1 c.1)
  outside_row base x (h ∷ hs) ks f g c = outside_row base x hs ks f g c.1

  outside-All :
      (base : List A) (hs ks : List (Hunk A))
      → All (Fits base) hs
      → All (Fits base) ks
      → Clears (hs ++ ks)
      → any (λ h. any (lands_inside h) ks) hs ≡ false
  outside-All base [] ks f g c = refl
  outside-All base (h ∷ hs) ks f g c =
      rw (outside_row base h hs ks f.0.0 g c.0) (outside-All base hs ks f.1 g c.1)

  written-outside :
      (base : List A) (head ws : List (Hunk A)) (out : List A)
      → Separated base 0 head
      → Separated base 0 ws
      → merge_lines base head ws ≡ some out
      → any (λ h. any (lands_inside h) ws) head ≡ false
  unfolding merge_lines
  written-outside base head ws out s t r =
      let f = Separated-Fits base 0 head s in
      let g = Separated-Fits base 0 ws t in
      let fits = All-sort (Fits base) (head ++ ws) (All-append (Fits base) head ws f g) in
      let ordered = InOrder-apply_loop base 0 _ out fits r in
      outside-All base head ws f g
        (Clears-sort (head ++ ws) (InOrder-Chain base 0 0 _ (omega arith) ordered).1)

  -- Let two sets of hunks be as `compute_hunks` returns them, and let `hunks_overlap` find that they do
  -- not overlap. Then the merge that follows panics exactly when one side inserts lines strictly
  -- inside a range that the other replaces, or the workspace inserts at the first line of a range that
  -- HEAD replaces.
  pub merge_lines-panics_iff :
      (base : List A) (head ws : List (Hunk A))
      → Separated base 0 head
      → Separated base 0 ws
      → hunks_overlap head ws ≡ false
      → (merge_lines base head ws ≡ none) ↔ (any (λ h. any (lands_inside h) ws) head ≡ true)
  merge_lines-panics_iff base head ws s t o = (
    λ panic. elim (Bool-cases (any (λ h. any (lands_inside h) ws) head)) [
      | inl inside ↦ inside
      | inr clear ↦ cc (panic, (merge_lines-patched base head ws s t o clear).0)
    ],
    λ inside. elim (Option-cases (merge_lines base head ws)) [
      | inl panic ↦ panic
      | inr (out, written) ↦ cc (inside, written-outside base head ws out s t written)
    ],
  )
