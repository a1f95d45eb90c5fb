-- ===== src/Patterns/Store/Steps.antt =====
-- Each operation of src/merge_patterns/mod.rs keeps the invariant of the library, and what it means for a
-- conflict that is resolved by itself.
use vai.Common.{
  ℕ, ◌-◌, ◌<◌, ◌≡◌, refl, sym, ◌∙◌, some, true, false, nat_eq, arith, Bool-cases, Option-cases, inl,
  inr,
}
use vai.Common.Table.{update_key, IsIncreasing-update_key, below-update_key, All-update_key}
use vai.Patterns.{MergePattern, ResolutionInstance}
use vai.Patterns.Store.{
  PatternStore, pattern_key, instance_key, get_pattern, set_pattern, find_active, rolled,
  record_rollback, disable_pattern, enable_pattern,
}
use vai.Patterns.Store.Counts.{rolled_back_row, total-mark, standing-mark}
use vai.Patterns.Store.Sound.{
  IsCounted, IsDecided, IsPending, IsSound, IsAlmostSound, promoted-IsSound, set-HasKeys,
}

abbrev disabled_row : MergePattern → MergePattern
disabled_row q = record q { disabled_by_human = true; auto_resolution_enabled = false }

abbrev enabled_row : MergePattern → MergePattern
enabled_row q = record q { disabled_by_human = false }

abbrev undone_row : MergePattern → MergePattern
undone_row q = record q { success_count = q.success_count - 1 }

pub disable_pattern-IsSound :
    (id : ℕ) (s : PatternStore) → IsSound s → IsSound (disable_pattern id s).0
unfolding disable_pattern
disable_pattern-IsSound id s (c, d, h) = elim (Option-cases (get_pattern id s)) [
  | inl e ↦ rw (e, disable_pattern) (c, d, h)
  | inr (p, e) ↦
      rw (e, disable_pattern)
        (
          All-update_key pattern_key (IsCounted s.instances) (IsCounted s.instances) id disabled_row
              s.patterns (λ q b a. a) (λ q b a. a) c,
          All-update_key pattern_key IsDecided IsDecided id disabled_row s.patterns (λ q b a. refl)
              (λ q b a. a) d,
          set-HasKeys id disabled_row s (λ q. refl) h,
        )
]

pub decided-IsPending : (k : ℕ) (q : MergePattern) → IsDecided q → IsPending k q
decided-IsPending k q d = elim (Bool-cases (nat_eq q.id k)) [
  | inl b ↦ ground (arith, d, b)
  | inr b ↦ ground (arith, d, b)
]

pub enable_pattern-IsSound :
    (id : ℕ) (s : PatternStore) → IsSound s → IsSound (enable_pattern id s).0
unfolding enable_pattern
enable_pattern-IsSound id s (c, d, h) = elim (Option-cases (get_pattern id s)) [
  | inl e ↦ rw (e, enable_pattern) (c, d, h)
  | inr (p, e) ↦
      rw (e, enable_pattern)
        (promoted-IsSound id (set_pattern id enabled_row s) (
          All-update_key pattern_key (IsCounted s.instances) (IsCounted s.instances) id enabled_row
              s.patterns (λ q b a. a) (λ q b a. a) c,
          All-update_key pattern_key IsDecided (IsPending id) id enabled_row s.patterns
              (λ q b a. ground (arith, b)) (λ q b a. decided-IsPending id q a) d,
          set-HasKeys id enabled_row s (λ q. refl) h,
        ))
]

rolled-IsAlmostSound :
    (conflict : ℕ) (i : ResolutionInstance) (s : PatternStore)
    → IsSound s
    → find_active conflict s.instances ≡ some i
    → IsAlmostSound i.pattern_id (rolled i s)
rolled-IsAlmostSound conflict i s (c, d, (a, b, inc, e, f)) h = (
  All-update_key pattern_key (IsCounted s.instances) (IsCounted (rolled i s).instances) i.pattern_id
      undone_row s.patterns
      (λ q k x.
        let p : q.id ≡ i.pattern_id = ground (arith, k) in
        let m = standing-mark q.id conflict s.instances i inc h in
        let t = total-mark q.id i.id s.instances in (x.0 ∙ sym t, ground (arith, x.1, m, p)))
      (λ q k x.
        let m = standing-mark q.id conflict s.instances i inc h in
        let t = total-mark q.id i.id s.instances in (x.0 ∙ sym t, ground (arith, x.1, m, k)))
      c,
  All-update_key pattern_key IsDecided (IsPending i.pattern_id) i.pattern_id undone_row s.patterns
      (λ q k x. ground (arith, x, k)) (λ q k x. decided-IsPending i.pattern_id q x) d,
  set-HasKeys i.pattern_id undone_row
      (record s { instances = update_key instance_key i.id rolled_back_row s.instances })
      (λ q. refl)
      (
        a,
        b,
        IsIncreasing-update_key instance_key i.id rolled_back_row s.instances (λ j. refl) inc,
        below-update_key instance_key s.next_instance i.id rolled_back_row s.instances (λ j. refl)
            e,
        All-update_key instance_key (λ (j : ResolutionInstance). j.pattern_id < s.next_pattern)
            (λ (j : ResolutionInstance). j.pattern_id < s.next_pattern) i.id rolled_back_row
            s.instances (λ j t u. u) (λ j t u. u) f,
      ),
)

pub record_rollback-IsSound :
    (conflict : ℕ) (s : PatternStore) → IsSound s → IsSound (record_rollback conflict s).0
unfolding record_rollback
record_rollback-IsSound conflict s h = elim (Option-cases (find_active conflict s.instances)) [
  | inl e ↦ rw (e, record_rollback) h
  | inr (i, e) ↦
      rw (e, record_rollback)
        (promoted-IsSound i.pattern_id (rolled i s) (rolled-IsAlmostSound conflict i s h e))
]
