-- ===== src/Patterns/Store/Runs.antt =====
-- Sequences of the operations of src/merge_patterns/mod.rs, and what the invariant says of a conflict that
-- is resolved by itself.
use vai.Common.{
  ℕ, ◌*◌, ◌<◌, ◌≤◌, ◌≡◌, some, Bool, true, false, List, [], ◌∷◌, String, arith, Option-cases, inl,
  inr,
}
use vai.Common.Eq.{string_equality}
use text.Mathlib.TextEquality.{eq_iff}
use vai.Patterns.{MergePattern, ConflictRecord}
use vai.Patterns.Store.{
  PatternStore, find_by_hash, hash_of, record_resolution, check_auto_resolution, record_rollback,
  disable_pattern, enable_pattern,
}
use vai.Patterns.Store.Counts.{total, standing}
use vai.Patterns.Store.Sound.{IsCounted, IsDecided, IsSound}
use vai.Patterns.Store.Steps.{
  record_rollback-IsSound, enable_pattern-IsSound, disable_pattern-IsSound,
}
use vai.Patterns.Store.Record.{find_by_hash-All, record_resolution-IsSound}

find_by_hash-hash :
    (hash : String) (ps : List MergePattern) (p : MergePattern)
    → find_by_hash hash ps ≡ some p
    → p.pattern_hash ≡ hash
unfolding find_by_hash
find_by_hash-hash hash [] p h = cc
find_by_hash-hash hash (q ∷ ps) p h =
    ground (arith, find_by_hash-hash hash ps p, eq_iff q.pattern_hash hash)

-- What the switch says of the table.
switched_on :
    (s : PatternStore) (q : MergePattern)
    → IsCounted s.instances q
    → IsDecided q
    → q.auto_resolution_enabled ≡ true
    → (q.disabled_by_human ≡ false)
      × (10 < total q.id s.instances)
      × (9 * total q.id s.instances ≤ 10 * standing q.id s.instances)
switched_on s q n d on =
    (ground (arith, d, on), ground (arith, d, on, n.0), ground (arith, d, on, n.0, n.1))

module _ (to_lowercase : String → String) (sha256 : String → ℕ → String) where
  -- What a client may ask of the library.
  pub data Call : Type 0 where
    resolution_call : ConflictRecord → String → Bool → Call
    rollback_call disable_call enable_call : ℕ → Call

  abbrev pub run_call : Call → PatternStore → PatternStore
  run_call (resolution_call c strategy auto) s =
      (record_resolution to_lowercase sha256 c strategy auto s).0
  run_call (rollback_call conflict) s = (record_rollback conflict s).0
  run_call (disable_call id) s = (disable_pattern id s).0
  run_call (enable_call id) s = (enable_pattern id s).0

  abbrev pub run_calls : List Call → PatternStore → PatternStore
  run_calls [] s = s
  run_calls (c ∷ cs) s = run_calls cs (run_call c s)

  run_call-IsSound : (c : Call) (s : PatternStore) → IsSound s → IsSound (run_call c s)
  run_call-IsSound (resolution_call c strategy auto) s h =
      record_resolution-IsSound to_lowercase sha256 c strategy auto s h
  run_call-IsSound (rollback_call conflict) s h = record_rollback-IsSound conflict s h
  run_call-IsSound (disable_call id) s h = disable_pattern-IsSound id s h
  run_call-IsSound (enable_call id) s h = enable_pattern-IsSound id s h

  -- Every operation keeps the invariant: from a sound library, any sequence of calls ends in a sound one,
  -- where the statistics of each pattern are those of the resolutions in the table and the switch of each
  -- pattern is on exactly when it meets the criteria.
  pub run_calls-IsSound : (cs : List Call) (s : PatternStore) → IsSound s → IsSound (run_calls cs s)
  run_calls-IsSound [] s h = h
  run_calls-IsSound (c ∷ cs) s h = run_calls-IsSound cs (run_call c s) (run_call-IsSound c s h)

  -- A conflict that a sound library resolves by itself has a pattern with its hash that no human disabled,
  -- with more than ten resolutions in the table, of which at least nine in ten stand.
  pub check_auto_resolution-safe :
      (c : ConflictRecord) (s : PatternStore) (p : MergePattern)
      → IsSound s
      → check_auto_resolution to_lowercase sha256 c s ≡ some p
      → (p.pattern_hash ≡ hash_of to_lowercase sha256 c)
        × (p.disabled_by_human ≡ false)
        × (10 < total p.id s.instances)
        × (9 * total p.id s.instances ≤ 10 * standing p.id s.instances)
  unfolding check_auto_resolution
  check_auto_resolution-safe c s p h e =
      elim (Option-cases (find_by_hash (hash_of to_lowercase sha256 c) s.patterns)) [
        | inl q ↦ ground (arith, q, e)
        | inr (q, f) ↦
            let n =
              find_by_hash-All (IsCounted s.instances) (hash_of to_lowercase sha256 c) s.patterns q
                h.0 f in
            let d = find_by_hash-All IsDecided (hash_of to_lowercase sha256 c) s.patterns q h.1 f in
            let m = find_by_hash-hash (hash_of to_lowercase sha256 c) s.patterns q f in
            let on : q.auto_resolution_enabled ≡ true = ground (arith, e, f) in
            let same : q ≡ p = ground (arith, e, f) in
            let (x, y, z) = switched_on s q n d on in rw⁻¹ same (m, x, y, z)
      ]
