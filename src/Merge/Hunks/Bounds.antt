-- ===== src/Merge/Hunks/Bounds.antt =====
-- `compute_hunks` never panics, and its hunks are in order, apart from one another, and inside the
-- base. Applied to the base they rebuild the modified lines.
use vai.Common.{
  ℕ, zero, suc, ◌≤◌, ◌<◌, ◌≡◌, refl, sym, inl, inr, some, true, false, List, [], ◌∷◌, ◌++◌, length,
  drop, between, get_elem?, get_elem?-lt, drop-cons, drop-all, ltb, arith, Bool-cases, ◌||◌,
  slice-some, slice-rest, between-append-drop, between_refl, between-append, between-one,
  if◌then◌else◌, is_empty, not, ltb→lt,
}
use vai.Merge.Hunks.{Hunk, is_change, hunk_loop, apply_loop}
use mathlib.Core.List.{append-nil, append_assoc}
use vai.Merge.Lcs.Optimal.{Matched}

-- Hunks from base line `p` on: in order, with an unchanged line between two of them, inside the
-- base, and each one a change.
abbrev pub Separated : {A : Type 0} → List A → ℕ → List (Hunk A) → Type 0
Separated base p [] = Unit
Separated base p (h ∷ hs) =
    (p ≤ h.base_start)
    × (h.base_start ≤ h.base_end)
    × (h.base_end ≤ length base)
    × (is_change h ≡ true)
    × Separated base (suc h.base_end) hs

-- Hunks that may touch: in order and inside the base, from base line `p` on.
abbrev pub InOrder : {A : Type 0} → List A → ℕ → List (Hunk A) → Type 0
InOrder base p [] = p ≤ length base
InOrder base p (h ∷ hs) =
    (p ≤ h.base_start)
    × (h.base_start ≤ h.base_end)
    × (h.base_end ≤ length base)
    × InOrder base h.base_end hs

module _ {A : Type 0} (base : List A) where
  -- The base from line `p` on with each hunk's range replaced: what the loop means to write.
  unfoldable pub patched : ℕ → List (Hunk A) → List A
  patched p [] = drop p base
  patched p (h ∷ hs) = between p h.base_start base ++ (h.new_lines ++ patched h.base_end hs)

  pub apply_loop-InOrder :
      (p : ℕ) (hs : List (Hunk A)) → InOrder base p hs → apply_loop base p hs ≡ some (patched p hs)
  unfolding apply_loop patched
  apply_loop-InOrder p [] s = slice-rest p base s
  apply_loop-InOrder p (h ∷ hs) s =
      let e : (if ltb p h.base_end then h.base_end else p) ≡ h.base_end = ground arith in
      rw (slice-some p h.base_start base (omega arith) (omega arith))
        (rw e (rw (apply_loop-InOrder h.base_end hs s.3)))

  pub Separated-down :
      (p q : ℕ) (hs : List (Hunk A)) → p ≤ q → Separated base q hs → Separated base p hs
  Separated-down p q [] h s = s
  Separated-down p q (x ∷ hs) h s = (omega arith, s.1, s.2, s.3, s.4)

  pub Separated-InOrder :
      (p : ℕ) (hs : List (Hunk A)) → p ≤ length base → Separated base p hs → InOrder base p hs
  Separated-InOrder p [] h s = h
  Separated-InOrder p (x ∷ hs) h s = (
    s.0,
    s.1,
    s.2,
    Separated-InOrder x.base_end hs s.2
        (Separated-down x.base_end (suc x.base_end) hs (omega arith) s.4),
  )

  -- Lines before the first hunk are copied.
  pub patched-advance :
      (p q : ℕ) (hs : List (Hunk A))
      → p ≤ q
      → Separated base q hs
      → patched p hs ≡ between p q base ++ patched q hs
  unfolding patched
  patched-advance p q [] h s = sym (between-append-drop p q base h)
  patched-advance p q (x ∷ hs) h s =
      rw (← between-append p q x.base_start base h s.0) (rw append_assoc)

module _ {A : Type 0} (base modified : List A) where
  -- The hunks without the checks of the slices.
  unfoldable pub hunks_of : ℕ → ℕ → List (ℕ × ℕ) → List (Hunk A)
  hunks_of p q [] =
      if ltb p (length base) || ltb q (length modified)
      then record { base_start = p; base_end = length base; new_lines = drop q modified } ∷ []
      else []
  hunks_of p q ((bi, mi) ∷ pairs) =
      let rest = hunks_of (suc bi) (suc mi) pairs in
      if ltb p bi || ltb q mi
      then record { base_start = p; base_end = bi; new_lines = between q mi modified } ∷ rest
      else rest

  pub hunk_loop-Matched :
      (p q : ℕ) (pairs : List (ℕ × ℕ))
      → Matched base modified p q pairs
      → hunk_loop base modified p q pairs ≡ some (hunks_of p q pairs)
  unfolding hunk_loop hunks_of
  hunk_loop-Matched p q [] m =
      rw (slice-rest q modified m.1)
        (elim (Bool-cases (ltb p (length base) || ltb q (length modified))) [
          | inl change ↦ rw change
          | inr same ↦ rw same
        ])
  hunk_loop-Matched p q ((bi, mi) ∷ pairs) m =
      let inside = get_elem?-lt mi modified m.2.0 m.2.2 in
      rw (slice-some q mi modified m.1 (omega arith)) (
        rw (hunk_loop-Matched (suc bi) (suc mi) pairs m.3)
          (elim (Bool-cases (ltb p bi || ltb q mi)) [
            | inl change ↦ rw change
            | inr same ↦ rw same
          ]))

  between-change :
      (q m : ℕ) (xs : List A) → q < m → m ≤ length xs → is_empty (between q m xs) ≡ false
  between-change zero zero xs h k = absurd (omega arith)
  between-change zero (suc m) [] h k = absurd (omega arith)
  between-change zero (suc m) (x ∷ xs) h k = refl
  between-change (suc q) zero xs h k = absurd (omega arith)
  between-change (suc q) (suc m) [] h k = absurd (omega arith)
  between-change (suc q) (suc m) (x ∷ xs) h k = between-change q m xs (omega arith) (omega arith)

  drop-change : (q : ℕ) (xs : List A) → q < length xs → is_empty (drop q xs) ≡ false
  drop-change zero [] h = absurd (omega arith)
  drop-change zero (x ∷ xs) h = refl
  drop-change (suc q) [] h = absurd (omega arith)
  drop-change (suc q) (x ∷ xs) h = drop-change q xs (omega arith)

  is_change-of :
      (p b q m : ℕ) (new : List A)
      → (q < m → is_empty new ≡ false)
      → (ltb p b || ltb q m) ≡ true
      → (ltb p b || not (is_empty new)) ≡ true
  is_change-of p b q m new h change = elim (Bool-cases (ltb p b)) [
    | inl shorter ↦ rw shorter
    | inr same ↦ rw (h (ltb→lt q m (ground arith))) (ground arith)
  ]

  pub hunks_of-Separated :
      (p q : ℕ) (pairs : List (ℕ × ℕ))
      → Matched base modified p q pairs
      → Separated base p (hunks_of p q pairs)
  unfolding hunks_of
  hunks_of-Separated p q [] m = elim (Bool-cases (ltb p (length base) || ltb q (length modified))) [
    | inl change ↦ rw change (
      omega arith,
      m.0,
      omega arith,
      is_change-of p (length base) q (length modified) _ (drop-change q modified) change,
      tt,
    )
    | inr same ↦ rw same tt
  ]
  hunks_of-Separated p q ((bi, mi) ∷ pairs) m = elim (Bool-cases (ltb p bi || ltb q mi)) [
    | inl change ↦ rw change (
      omega arith,
      m.0,
      omega (arith, get_elem?-lt bi base m.2.0 m.2.1),
      is_change-of p bi q mi _
          (λ h.
            between-change q mi modified h (omega (arith, get_elem?-lt mi modified m.2.0 m.2.2)))
          change,
      hunks_of-Separated (suc bi) (suc mi) pairs m.3,
    )
    | inr same ↦ rw same (
        Separated-down base p (suc bi) _ (omega arith)
          (hunks_of-Separated (suc bi) (suc mi) pairs m.3))
  ]

  matched-tail :
      (bi mi : ℕ) (pairs : List (ℕ × ℕ)) (x : A)
      → get_elem? base bi ≡ some x
      → get_elem? modified mi ≡ some x
      → Separated base (suc bi) (hunks_of (suc bi) (suc mi) pairs)
      → patched base (suc bi) (hunks_of (suc bi) (suc mi) pairs) ≡ drop (suc mi) modified
      → patched base bi (hunks_of (suc bi) (suc mi) pairs) ≡ drop mi modified
  matched-tail bi mi pairs x b m s r =
      rw (patched-advance base bi (suc bi) _ (omega arith) s)
        (rw (between-one bi base x b) (rw (drop-cons mi modified x m) (rw r)))

  pub patched-hunks_of :
      (p q : ℕ) (pairs : List (ℕ × ℕ))
      → Matched base modified p q pairs
      → patched base p (hunks_of p q pairs) ≡ drop q modified
  unfolding hunks_of patched
  patched-hunks_of p q [] m = elim (Bool-cases (ltb p (length base) || ltb q (length modified))) [
    | inl change ↦ rw change (rw between_refl (rw drop-all (append-nil (drop q modified))))
    | inr same ↦
        let ep : p ≡ length base = ground (arith, m.0) in
        let eq : q ≡ length modified = ground (arith, m.1) in
        rw same (rw ep (rw eq (rw drop-all (rw drop-all))))
  ]
  patched-hunks_of p q ((bi, mi) ∷ pairs) m =
      let ih =
        matched-tail bi mi pairs m.2.0 m.2.1 m.2.2 (hunks_of-Separated (suc bi) (suc mi) pairs m.3)
          (patched-hunks_of (suc bi) (suc mi) pairs m.3) in
      elim (Bool-cases (ltb p bi || ltb q mi)) [
        | inl change ↦ rw change (rw between_refl (rw ih (between-append-drop q mi modified m.1)))
        | inr same ↦
            let ep : p ≡ bi = ground (arith, m.0) in
            let eq : q ≡ mi = ground (arith, m.1) in rw same (rw ep (rw eq ih))
      ]
