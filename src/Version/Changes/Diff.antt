-- ===== src/Version/Changes/Diff.antt =====
-- `get_versions_diff` of src/version/mod.rs over a version in between.
use vai.Common.{
  ℕ, ◌≤◌, ◌<◌, ◌≡◌, refl, sym, ap, ◌∙◌, Option, inl, inr, List, [], ◌∷◌, ◌++◌, String, leb, ltb,
  Bool-cases, leb→le, le→leb, ltb→lt, lt→ltb, All, arith,
}
use vai.Common.Sort.{IsSorted, sort_by_key-IsSorted}
use vai.Common.Table.{All-weaken}
use vai.EventLog.{Event}
use vai.EventLog.Store.{EventLog}
use vai.Version.{
  VersionMeta, Result, ok, err, ◌>>=◌, number_of, parse_version_number, list_versions,
}
use vai.Version.Changes.{VersionChanges, get_version_changes, diff_loop, get_versions_diff}

-- One list behind another, where both are there.
abbrev pub both :
    Result (List VersionChanges) → Result (List VersionChanges) → Result (List VersionChanges)
both xs ys = xs >>= λ x. ys >>= λ y. ok (x ++ y)

both-nil : (ys : Result (List VersionChanges)) → both (ok []) ys ≡ ys
both-nil (ok y) = refl
both-nil (err e) = refl

both-bind :
    (c : Result VersionChanges) (xs ys : Result (List VersionChanges))
    → both (c >>= λ v. xs >>= λ vs. ok (v ∷ vs)) ys ≡ (c >>= λ v. both xs ys >>= λ vs. ok (v ∷ vs))
both-bind (err e) xs ys = refl
both-bind (ok c) (err e) ys = refl
both-bind (ok c) (ok x) (err e) = refl
both-bind (ok c) (ok x) (ok y) = refl

module _ (to_json : Event → List ℕ) (from_json : List ℕ → Option Event) (log : EventLog) where
  abbrev loop : ℕ → ℕ → List VersionMeta → List VersionMeta → Result (List VersionChanges)
  loop = diff_loop to_json from_json log

  diff_loop-inside :
      (n_a n_b : ℕ) (versions listed : List VersionMeta) (v : VersionMeta)
      → n_a < number_of v
      → number_of v ≤ n_b
      → loop n_a n_b versions (v ∷ listed) ≡ (
          get_version_changes to_json from_json log v.version_id versions >>= λ c.
          loop n_a n_b versions listed >>= λ cs. ok (c ∷ cs))
  unfolding diff_loop
  diff_loop-inside n_a n_b versions listed v h k =
      rw (lt→ltb n_a (number_of v) h) (rw (le→leb (number_of v) n_b k) refl)

  diff_loop-before :
      (n_a n_b : ℕ) (versions listed : List VersionMeta) (v : VersionMeta)
      → number_of v ≤ n_a
      → loop n_a n_b versions (v ∷ listed) ≡ loop n_a n_b versions listed
  unfolding diff_loop
  diff_loop-before n_a n_b versions listed v h = ground arith

  diff_loop-empty :
      (n_a n_b : ℕ) (versions listed : List VersionMeta)
      → n_b ≤ n_a
      → loop n_a n_b versions listed ≡ ok []
  unfolding diff_loop
  diff_loop-empty n_a n_b versions [] h = refl
  diff_loop-empty n_a n_b versions (v ∷ listed) h =
      ground (arith, diff_loop-empty n_a n_b versions listed h)

  diff_loop-above :
      (n_a n_b : ℕ) (versions listed : List VersionMeta)
      → All (λ v. n_b < number_of v) listed
      → loop n_a n_b versions listed ≡ ok []
  unfolding diff_loop
  diff_loop-above n_a n_b versions [] h = refl
  diff_loop-above n_a n_b versions (v ∷ listed) h =
      ground (arith, h.0, diff_loop-above n_a n_b versions listed h.1)

  All-above :
      (n : ℕ) (v : VersionMeta) (listed : List VersionMeta)
      → n < number_of v
      → All (λ w. number_of v ≤ number_of w) listed
      → All (λ w. n < number_of w) (v ∷ listed)
  All-above n v listed h a = (
    h,
    All-weaken (λ w. number_of v ≤ number_of w) (λ w. n < number_of w) listed (λ w k. omega arith)
        a,
  )

  diff_loop-none_between :
      (n_a n_b n_c : ℕ) (versions listed : List VersionMeta)
      → All (λ v. n_b < number_of v) listed
      → loop n_a n_c versions listed
        ≡ both (loop n_a n_b versions listed) (loop n_b n_c versions listed)
      → loop n_a n_c versions listed ≡ loop n_b n_c versions listed
  diff_loop-none_between n_a n_b n_c versions listed a e =
      e
      ∙ ap (λ (r : Result (List VersionChanges)). both r (loop n_b n_c versions listed))
          (diff_loop-above n_a n_b versions listed a)
      ∙ both-nil (loop n_b n_c versions listed)

  diff_loop-split :
      (n_a n_b n_c : ℕ) (versions listed : List VersionMeta)
      → n_a ≤ n_b
      → n_b ≤ n_c
      → IsSorted number_of listed
      → loop n_a n_c versions listed
        ≡ both (loop n_a n_b versions listed) (loop n_b n_c versions listed)
  diff_loop-split n_a n_b n_c versions [] h k s = unfold diff_loop in refl
  diff_loop-split n_a n_b n_c versions (v ∷ listed) h k s =
      let rest = diff_loop-split n_a n_b n_c versions listed h k s.1 in
      let n = number_of v in
      let g = get_version_changes to_json from_json log v.version_id versions in
      elim (Bool-cases (leb n n_b)) [
        | inl b ↦
            let low = leb→le n n_b b in
            rw (diff_loop-before n_b n_c versions listed v low) (elim (Bool-cases (ltb n_a n)) [
              | inl a ↦
                  let after = ltb→lt n_a n a in
                  rw (diff_loop-inside n_a n_c versions listed v after (omega arith)) (
                    rw (diff_loop-inside n_a n_b versions listed v after low) (
                      rw rest (
                        sym (
                          both-bind g (loop n_a n_b versions listed)
                            (loop n_b n_c versions listed)))))
              | inr a ↦
                  rw (diff_loop-before n_a n_c versions listed v (ground arith))
                    (rw (diff_loop-before n_a n_b versions listed v (ground arith)) rest)
            ])
        | inr b ↦
            let high : n_b < n = ground arith in
            let aboves = All-above n_b v listed high s.0 in
            let more : VersionChanges → Result (List VersionChanges) =
              λ c. loop n_b n_c versions listed >>= λ cs. ok (c ∷ cs) in
            let whole : loop n_a n_c versions listed ≡ loop n_b n_c versions listed =
              diff_loop-none_between n_a n_b n_c versions listed aboves.1 rest in
            rw (diff_loop-above n_a n_b versions (v ∷ listed) aboves)
              (elim (Bool-cases (leb n n_c)) [
                | inl c ↦
                    rw (diff_loop-inside n_a n_c versions listed v (omega arith) (leb→le n n_c c)) (
                      rw (diff_loop-inside n_b n_c versions listed v high (leb→le n n_c c))
                        (rw whole (sym (both-nil (g >>= more)))))
                | inr c ↦
                    let beyond = All-above n_c v listed (ground arith) s.0 in
                    rw (diff_loop-above n_a n_c versions (v ∷ listed) beyond)
                      (rw (diff_loop-above n_b n_c versions (v ∷ listed) beyond) refl)
              ])
      ]

  get_versions_diff-loop :
      (version_a version_b : String) (versions : List VersionMeta)
      → get_versions_diff to_json from_json log version_a version_b versions
        ≡ loop
            (parse_version_number version_a)
            (parse_version_number version_b)
            versions
            (list_versions versions)
  unfolding get_versions_diff
  get_versions_diff-loop version_a version_b versions =
      let n_a = parse_version_number version_a in
      let n_b = parse_version_number version_b in
      elim (Bool-cases (leb n_b n_a)) [
        | inl b ↦
            rw b
              (sym (diff_loop-empty n_a n_b versions (list_versions versions) (leb→le n_b n_a b)))
        | inr b ↦ rw b refl
      ]

  -- The changes from one version to another are those to a version in between and those from there on, in
  -- this order; an error of either part is the error of the whole.
  pub get_versions_diff-between :
      (version_a version_b version_c : String) (versions : List VersionMeta)
      → parse_version_number version_a ≤ parse_version_number version_b
      → parse_version_number version_b ≤ parse_version_number version_c
      → get_versions_diff to_json from_json log version_a version_c versions
        ≡ both
            (get_versions_diff to_json from_json log version_a version_b versions)
            (get_versions_diff to_json from_json log version_b version_c versions)
  get_versions_diff-between version_a version_b version_c versions h k =
      rw (get_versions_diff-loop version_a version_c versions) (
        rw (get_versions_diff-loop version_a version_b versions) (
          rw (get_versions_diff-loop version_b version_c versions) (
            diff_loop-split (parse_version_number version_a) (parse_version_number version_b)
              (parse_version_number version_c) versions (list_versions versions) h k
              (sort_by_key-IsSorted number_of versions))))
