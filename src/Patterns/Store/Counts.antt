-- ===== src/Patterns/Store/Counts.antt =====
-- How many resolutions of a pattern the table of src/merge_patterns/mod.rs holds, and how many of them stand.
use vai.Common.{
  ℕ, suc, ◌<◌, ◌≡◌, refl, some, true, false, not, ◌&&◌, List, [], ◌∷◌, ◌++◌, nat_eq, nat_eq_iff,
  if◌then◌else◌, arith, All,
}
use vai.Common.Table.{update_key, update_key-above, IsIncreasing}
use vai.Patterns.{ResolutionInstance}
use vai.Patterns.Store.{instance_key, find_active}

-- All resolutions of the pattern, and those that were not rolled back.
abbrev pub total : ℕ → List ResolutionInstance → ℕ
total p [] = 0
total p (i ∷ is) = if nat_eq i.pattern_id p then suc (total p is) else total p is

abbrev pub standing : ℕ → List ResolutionInstance → ℕ
standing p [] = 0
standing p (i ∷ is) =
    if nat_eq i.pattern_id p && not i.rolled_back then suc (standing p is) else standing p is

abbrev pub rolled_back_row : ResolutionInstance → ResolutionInstance
rolled_back_row i = record i { rolled_back = true }

pub total-append :
    (p : ℕ) (is : List ResolutionInstance) (i : ResolutionInstance)
    → total p (is ++ i ∷ []) ≡ (if nat_eq i.pattern_id p then suc (total p is) else total p is)
total-append p [] i = ground arith
total-append p (j ∷ is) i = ground (arith, total-append p is i)

pub standing-append :
    (p : ℕ) (is : List ResolutionInstance) (i : ResolutionInstance)
    → i.rolled_back ≡ false
    → standing p (is ++ i ∷ [])
      ≡ (if nat_eq i.pattern_id p then suc (standing p is) else standing p is)
standing-append p [] i h = ground arith
standing-append p (j ∷ is) i h = ground (arith, standing-append p is i h)

pub total-mark :
    (p k : ℕ) (is : List ResolutionInstance)
    → total p (update_key instance_key k rolled_back_row is) ≡ total p is
unfolding update_key
total-mark p k [] = refl
total-mark p k (i ∷ is) = ground (arith, total-mark p k is)

find_active-above :
    (n conflict : ℕ) (is : List ResolutionInstance) (i : ResolutionInstance)
    → All (λ j. n < instance_key j) is
    → find_active conflict is ≡ some i
    → n < i.id
unfolding find_active
find_active-above n conflict [] i a h = cc
find_active-above n conflict (j ∷ is) i a h =
    ground (arith, a.0, find_active-above n conflict is i a.1)

-- Marking the row that was found takes one from its pattern, and none from another.
pub standing-mark :
    (p conflict : ℕ) (is : List ResolutionInstance) (i : ResolutionInstance)
    → IsIncreasing instance_key is
    → find_active conflict is ≡ some i
    → standing p is ≡ (
        if nat_eq i.pattern_id p
        then suc (standing p (update_key instance_key i.id rolled_back_row is))
        else standing p (update_key instance_key i.id rolled_back_row is))
unfolding find_active update_key
standing-mark p conflict [] i inc h = cc
standing-mark p conflict (j ∷ is) i inc h = ground (
  arith,
  update_key-above instance_key j.id rolled_back_row is inc.0,
  find_active-above j.id conflict is i inc.0,
  standing-mark p conflict is i inc.1,
  nat_eq_iff j.id i.id,
)

pub total-unused :
    (p : ℕ) (is : List ResolutionInstance)
    → All (λ (i : ResolutionInstance). i.pattern_id < p) is
    → (total p is ≡ 0) × (standing p is ≡ 0)
total-unused p [] a = (refl, refl)
total-unused p (i ∷ is) a = ground (arith, a.0, total-unused p is a.1)

pub find_active-refs :
    (n conflict : ℕ) (is : List ResolutionInstance) (i : ResolutionInstance)
    → All (λ (j : ResolutionInstance). j.pattern_id < n) is
    → find_active conflict is ≡ some i
    → i.pattern_id < n
unfolding find_active
find_active-refs n conflict [] i a h = cc
find_active-refs n conflict (j ∷ is) i a h =
    ground (arith, a.0, find_active-refs n conflict is i a.1)
