-- ===== src/Patterns/Store/Record.antt =====
-- `record_resolution` of src/merge_patterns/mod.rs keeps the invariant of the pattern library.
use vai.Common.{
  ℕ, ◌+◌, ◌<◌, ◌≡◌, refl, Option, none, some, Bool, false, List, [], ◌∷◌, ◌++◌, String, ◌==◌, arith,
  All, Bool-cases, Option-cases, inl, inr,
}
use vai.Common.Eq.{string_equality}
use vai.Common.Table.{
  IsIncreasing-append, IsIncreasing-update_key, below-update_key, below-append, All-update_key,
  All-both, All-weaken, All-append,
}
use vai.Patterns.{MergePattern, ResolutionInstance, ConflictRecord}
use vai.Patterns.Store.{
  PatternStore, pattern_key, instance_key, find_by_hash, upserted, with_instance, hash_of,
  record_resolution,
}
use vai.Patterns.Store.Counts.{total-append, standing-append, total-unused}
use vai.Patterns.Store.Sound.{
  IsCounted, IsDecided, IsPending, IsSound, IsAlmostSound, promoted-IsSound,
}
use vai.Patterns.Store.Steps.{decided-IsPending}

pub find_by_hash-All :
    (P : MergePattern → Type 0) (hash : String) (ps : List MergePattern) (p : MergePattern)
    → All P ps
    → find_by_hash hash ps ≡ some p
    → P p
unfolding find_by_hash
find_by_hash-All P hash [] p a h = cc
find_by_hash-All P hash (q ∷ ps) p a h = elim (Bool-cases (q.pattern_hash == hash)) [
  | inl b ↦ let e : q ≡ p = ground (arith, b) in rw⁻¹ e a.0
  | inr b ↦ find_by_hash-All P hash ps p a.1 (ground (arith, b))
]

abbrev bumped_row : MergePattern → MergePattern
bumped_row q = record q {
  instance_count = q.instance_count + 1;
  success_count = q.success_count + 1;
}

module _ (to_lowercase : String → String) (sha256 : String → ℕ → String) where
  abbrev new_instance : ℕ → ℕ → ConflictRecord → String → Bool → ResolutionInstance
  new_instance id pattern c strategy was_auto_resolved = record {
    id = id;
    pattern_id = pattern;
    conflict_id = c.conflict_id;
    workspace_id = c.workspace_id;
    strategy = strategy;
    was_auto_resolved = was_auto_resolved;
    rolled_back = false;
  }

  abbrev recorded :
      ConflictRecord → String → Bool → PatternStore → Option MergePattern → PatternStore × ℕ
  recorded c strategy auto s found =
      with_instance to_lowercase sha256 c strategy auto (upserted to_lowercase sha256 c s found)

  again-IsAlmostSound :
      (c : ConflictRecord) (strategy : String) (auto : Bool) (s : PatternStore) (p : MergePattern)
      → IsSound s
      → p.id < s.next_pattern
      → IsAlmostSound p.id (recorded c strategy auto s (some p)).0
  again-IsAlmostSound c strategy auto s p (n, d, (a, b, inc, e, f)) k =
      let i = new_instance s.next_instance p.id c strategy auto in
      (
        All-update_key pattern_key (IsCounted s.instances) (IsCounted (s.instances ++ i ∷ [])) p.id
            bumped_row s.patterns
            (λ q t x. ground (
              arith,
              x,
              t,
              total-append q.id s.instances i,
              standing-append q.id s.instances i refl,
            ))
            (λ q t x. ground (
              arith,
              x,
              t,
              total-append q.id s.instances i,
              standing-append q.id s.instances i refl,
            ))
            n,
        All-update_key pattern_key IsDecided (IsPending p.id) p.id bumped_row s.patterns
            (λ q t x. ground (arith, x, t)) (λ q t x. decided-IsPending p.id q x) d,
        (
          IsIncreasing-update_key pattern_key p.id bumped_row s.patterns (λ q. refl) a,
          below-update_key pattern_key s.next_pattern p.id bumped_row s.patterns (λ q. refl) b,
          IsIncreasing-append instance_key s.instances i e inc,
          below-append instance_key s.instances i s.next_instance (s.next_instance + 1)
              (omega arith) (omega arith) e,
          All-append (λ (j : ResolutionInstance). j.pattern_id < s.next_pattern) s.instances i f k,
        ),
      )

  first-IsAlmostSound :
      (c : ConflictRecord) (strategy : String) (auto : Bool) (s : PatternStore)
      → IsSound s
      → IsAlmostSound s.next_pattern (recorded c strategy auto s none).0
  first-IsAlmostSound c strategy auto s (n, d, (a, b, inc, e, f)) =
      let i = new_instance s.next_instance s.next_pattern c strategy auto in
      let (zero_total, zero_standing) = total-unused s.next_pattern s.instances f in
      (
        All-append (IsCounted (s.instances ++ i ∷ [])) s.patterns _
            (All-weaken (λ q. IsCounted s.instances q × (q.id < s.next_pattern))
              (IsCounted (s.instances ++ i ∷ [])) s.patterns
              (λ q x. ground (
                arith,
                x.0,
                x.1,
                total-append q.id s.instances i,
                standing-append q.id s.instances i refl,
              ))
              (All-both (IsCounted s.instances) (λ q. q.id < s.next_pattern) s.patterns n b))
            (ground (
              arith,
              zero_total,
              zero_standing,
              total-append s.next_pattern s.instances i,
              standing-append s.next_pattern s.instances i refl,
            )),
        All-append (IsPending s.next_pattern) s.patterns _
            (All-weaken IsDecided (IsPending s.next_pattern) s.patterns
              (decided-IsPending s.next_pattern) d)
            (ground arith),
        (
          IsIncreasing-append pattern_key s.patterns _ b a,
          below-append pattern_key s.patterns _ s.next_pattern (s.next_pattern + 1) (omega arith)
              (omega arith) b,
          IsIncreasing-append instance_key s.instances i e inc,
          below-append instance_key s.instances i s.next_instance (s.next_instance + 1)
              (omega arith) (omega arith) e,
          All-append (λ (j : ResolutionInstance). j.pattern_id < s.next_pattern + 1) s.instances i
              (All-weaken (λ (j : ResolutionInstance). j.pattern_id < s.next_pattern)
                (λ (j : ResolutionInstance). j.pattern_id < s.next_pattern + 1) s.instances
                (λ j x. omega arith) f)
              (omega arith),
        ),
      )

  pub record_resolution-IsSound :
      (c : ConflictRecord) (strategy : String) (auto : Bool) (s : PatternStore)
      → IsSound s
      → IsSound (record_resolution to_lowercase sha256 c strategy auto s).0
  unfolding record_resolution
  record_resolution-IsSound c strategy auto s h =
      elim (Option-cases (find_by_hash (hash_of to_lowercase sha256 c) s.patterns)) [
        | inl e ↦
            rw (e, record_resolution)
              (promoted-IsSound s.next_pattern (recorded c strategy auto s none).0
                (first-IsAlmostSound c strategy auto s h))
        | inr (p, e) ↦
            let k =
              find_by_hash-All (λ q. q.id < s.next_pattern) (hash_of to_lowercase sha256 c)
                s.patterns p h.2.1 e in
            rw (e, record_resolution)
              (promoted-IsSound p.id (recorded c strategy auto s (some p)).0
                (again-IsAlmostSound c strategy auto s p h k))
      ]
