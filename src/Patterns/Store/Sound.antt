-- ===== src/Patterns/Store/Sound.antt =====
-- The invariant of the pattern library of src/merge_patterns/mod.rs, and that its operations keep it.
use vai.Common.{
  ℕ, ◌<◌, ◌≡◌, refl, sym, ap, ◌∙◌, some, true, false, not, ◌&&◌, List, nat_eq, if◌then◌else◌, arith,
  All, Bool-cases, Option-cases, inl, inr,
}
use vai.Common.Table.{
  IsIncreasing, IsIncreasing-update_key, below-update_key, All-update_key, find_key_unique,
  All-both, All-weaken, find_key-none, find_key-none,
}
use vai.Patterns.{MergePattern, ResolutionInstance, meets_promotion_criteria}
use vai.Patterns.Store.{
  PatternStore, pattern_key, instance_key, get_pattern, set_pattern, promoted, update_promotion,
}
use vai.Patterns.Store.Counts.{total, standing}

-- The statistics of a pattern are those of the table of resolutions.
abbrev pub IsCounted : List ResolutionInstance → MergePattern → Type 0
IsCounted is p = (p.instance_count ≡ total p.id is) × (p.success_count ≡ standing p.id is)

-- The switch is on exactly when the criteria hold.
abbrev pub IsDecided : MergePattern → Type 0
IsDecided p = p.auto_resolution_enabled ≡ meets_promotion_criteria p

-- The switch of one pattern is still to be set.
abbrev pub IsPending : ℕ → MergePattern → Type 0
IsPending k p = p.auto_resolution_enabled ≡ (
    if nat_eq p.id k
    then p.auto_resolution_enabled && not p.disabled_by_human
    else meets_promotion_criteria p)

-- The keys are given out in order, and a resolution names a pattern that was given out.
abbrev pub HasKeys : PatternStore → Type 0
HasKeys s =
    IsIncreasing pattern_key s.patterns
    × All (λ (p : MergePattern). p.id < s.next_pattern) s.patterns
    × IsIncreasing instance_key s.instances
    × All (λ (i : ResolutionInstance). i.id < s.next_instance) s.instances
    × All (λ (i : ResolutionInstance). i.pattern_id < s.next_pattern) s.instances

abbrev pub IsSound : PatternStore → Type 0
IsSound s = All (IsCounted s.instances) s.patterns × All IsDecided s.patterns × HasKeys s

abbrev pub IsAlmostSound : ℕ → PatternStore → Type 0
IsAlmostSound k s =
    All (IsCounted s.instances) s.patterns × All (IsPending k) s.patterns × HasKeys s

pub set-HasKeys :
    (k : ℕ) (set : MergePattern → MergePattern) (s : PatternStore)
    → ((p : MergePattern) → (set p).id ≡ p.id)
    → HasKeys s
    → HasKeys (set_pattern k set s)
set-HasKeys k set s h (a, b, c, d, e) = (
  IsIncreasing-update_key pattern_key k set s.patterns h a,
  below-update_key pattern_key s.next_pattern k set s.patterns h b,
  c,
  d,
  e,
)

abbrev IsOnly : ℕ → MergePattern → MergePattern → Type 0
IsOnly k p q = nat_eq q.id k ≡ true → q ≡ p

abbrev IsOther : ℕ → MergePattern → Type 0
IsOther k q = nat_eq q.id k ≡ false

pending-other : (k : ℕ) (q : MergePattern) → IsPending k q × IsOther k q → IsDecided q
pending-other k q (d, n) = ground (arith, d, n)

pending-off :
    (k : ℕ) (p q : MergePattern)
    → p.disabled_by_human ≡ true
    → IsPending k q × IsOnly k p q
    → IsDecided q
pending-off k p q off (d, u) = elim (Bool-cases (nat_eq q.id k)) [
  | inl b ↦
      let dis : q.disabled_by_human ≡ true =
        ap (λ (x : MergePattern). x.disabled_by_human) (u b) ∙ off in
      ground (arith, d, dis, b)
  | inr b ↦ ground (arith, d, b)
]

abbrev switched : MergePattern → MergePattern → MergePattern
switched p q = record q { auto_resolution_enabled = meets_promotion_criteria p }

pending-on :
    (k : ℕ) (p q : MergePattern)
    → nat_eq q.id k ≡ true
    → IsPending k q × IsOnly k p q
    → IsDecided (switched p q)
pending-on k p q b (d, u) = ap meets_promotion_criteria (sym (u b))

promoted-on :
    (k : ℕ) (p : MergePattern) (s : PatternStore)
    → p.disabled_by_human ≡ false
    → promoted k s (some p) ≡ set_pattern k (switched p) s
promoted-on k p s on = ap (λ b. if b then s else set_pattern k (switched p) s) on

-- Setting the switch by the criteria completes the invariant.
pub promoted-IsSound :
    (k : ℕ) (s : PatternStore) → IsAlmostSound k s → IsSound (update_promotion k s)
unfolding update_promotion
promoted-IsSound k s (c, d, h) = elim (Option-cases (get_pattern k s)) [
  | inl e ↦
      let others =
        All-both (IsPending k) (IsOther k) s.patterns d
          (find_key-none pattern_key k s.patterns e) in
      rw e (
        c,
        All-weaken (λ q. IsPending k q × IsOther k q) IsDecided s.patterns (pending-other k) others,
        h,
      )
  | inr (p, e) ↦
      let one =
        All-both (IsPending k) (IsOnly k p) s.patterns d
          (find_key_unique pattern_key k s.patterns p h.0 e) in
      elim (Bool-cases p.disabled_by_human) [
        | inl off ↦ rw e (
            rw off (
              c,
              All-weaken (λ q. IsPending k q × IsOnly k p q) IsDecided s.patterns
                  (λ q. pending-off k p q off) one,
              h,
            ))
        | inr on ↦ rw e (
            rw (promoted-on k p s on) (
              All-update_key pattern_key (IsCounted s.instances) (IsCounted s.instances) k
                  (switched p) s.patterns (λ q b a. a) (λ q b a. a) c,
              All-update_key pattern_key (λ q. IsPending k q × IsOnly k p q) IsDecided k
                  (switched p) s.patterns (pending-on k p) (λ q b a. ground (arith, a.0, b)) one,
              set-HasKeys k (switched p) s (λ q. refl) h,
            ))
      ]
]
