-- ===== src/EventLog/Store/Replay.antt =====
-- Runs of `append` of src/event_log/mod.rs, and what the log gives back after them.
use vai.Common.{
  ℕ, ◌+◌, ◌<◌, ◌≡◌, refl, sym, ◌∙◌, max, false, Option, List, [], ◌∷◌, ◌++◌, length, All, arith,
}
use vai.Common.Table.{IsIncreasing, IsIncreasing-append, All-weaken}
use vai.EventLog.{Event, EventKind}
use vai.Common.{ap}
use vai.EventLog.Store.{opened, Result}
use vai.EventLog.Store.{
  EventLog, IndexRow, ok, index_row, index_event, max_id, next_id, current_segment, file_size,
  write_to_segment, append,
}
use vai.EventLog.Store.Chunks.{
  Chunk, segments_of, rows_of, events_of, extend, append_line-extend, rows_of-extend,
  events_of-extend, extend-IsIncreasing,
}
use vai.EventLog.Store.Rebuild.{IsKeyed, is_taken}
use mathlib.Core.List.{append-nil, append_assoc}

max_id-append : (rs : List IndexRow) (r : IndexRow) → max_id (rs ++ r ∷ []) ≡ max (max_id rs) r.id
max_id-append [] r = ground arith
max_id-append (x ∷ rs) r = omega (arith, max_id-append rs r)

below-next_id : (rs : List IndexRow) (m : ℕ) → max_id rs < m → All (λ r. r.id < m) rs
below-next_id [] m h = tt
below-next_id (r ∷ rs) m h = (omega arith, below-next_id rs m (omega arith))

pub is_taken-below : (m : ℕ) (rs : List IndexRow) → max_id rs < m → is_taken m rs ≡ false
is_taken-below m [] h = refl
is_taken-below m (r ∷ rs) h =
    let here : r.id < m = omega arith in ground (arith, is_taken-below m rs (omega arith))

pub index_event-below :
    (e : Event) (n offset : ℕ) (rows : List IndexRow)
    → max_id rows < e.id
    → index_event e n offset rows ≡ ok (rows ++ index_row e n offset ∷ [])
unfolding index_event
index_event-below e n offset rows h = rw (is_taken-below e.id rows h) refl

-- Ids that grow are all different.
IsIncreasing-IsKeyed :
    (rows rs : List IndexRow)
    → All (λ r. max_id rows < r.id) rs
    → IsIncreasing (λ r. r.id) rs
    → IsKeyed rows rs
IsIncreasing-IsKeyed rows [] a i = tt
IsIncreasing-IsKeyed rows (r ∷ rs) a i =
    (is_taken-below r.id rows a.0, IsIncreasing-IsKeyed (rows ++ r ∷ []) rs (above rs i.0) i.1)
  where
    above :
        (qs : List IndexRow)
        → All (λ q. r.id < q.id) qs
        → All (λ q. max_id (rows ++ r ∷ []) < q.id) qs
    above [] b = tt
    above (q ∷ qs) b = (omega (arith, max_id-append rows r, a.0, b.0), above qs b.1)

pub IsIncreasing-IsKeyed_all : (rs : List IndexRow) → IsIncreasing (λ r. r.id) rs → IsKeyed [] rs
IsIncreasing-IsKeyed_all [] i = tt
IsIncreasing-IsKeyed_all (r ∷ rs) i = (
  refl,
  IsIncreasing-IsKeyed (r ∷ []) rs
      (All-weaken (λ q. r.id < q.id) (λ q. max_id (r ∷ []) < q.id) rs (λ q h. omega arith) i.0) i.1,
)

-- The events of a run, numbered from `k`.
abbrev pub numbered : ℕ → List (EventKind × ℕ) → List Event
numbered k [] = []
numbered k ((kind, now) ∷ calls) =
    record { id = k; timestamp = now; kind = kind } ∷ numbered (k + 1) calls

module _ (to_json : Event → List ℕ) (from_json : List ℕ → Option Event) where
  -- The log whose segments and index hold the events of these chunks.
  abbrev pub laid_out : List Chunk → EventLog
  laid_out cs = record { segments = segments_of to_json cs; events = rows_of to_json cs }

  abbrev pub IsOrdered : List Chunk → Type 0
  IsOrdered cs = IsIncreasing (λ c. c.0) cs × IsIncreasing (λ r. r.id) (rows_of to_json cs)

  abbrev pub next_event : EventKind → ℕ → List Chunk → Event
  next_event kind now cs = record {
    id = next_id (rows_of to_json cs);
    timestamp = now;
    kind = kind;
  }

  pub append-laid_out :
      (kind : EventKind) (now : ℕ) (cs : List Chunk)
      → IsOrdered cs
      → append to_json from_json kind now (laid_out cs)
        ≡ (laid_out (extend to_json (next_event kind now cs) cs), ok (next_event kind now cs))
  unfolding append write_to_segment
  append-laid_out kind now cs (i, d) =
      let e = next_event kind now cs in
      let rows = rows_of to_json cs in
      let n = current_segment (segments_of to_json cs) in
      let offset = file_size n (segments_of to_json cs) in
      rw (index_event-below e n offset rows (omega arith), append)
        (rw (append_line-extend to_json e cs i) (rw (rows_of-extend to_json e cs i) refl))

  pub extend-IsOrdered :
      (kind : EventKind) (now : ℕ) (cs : List Chunk)
      → IsOrdered cs
      → IsOrdered (extend to_json (next_event kind now cs) cs)
  extend-IsOrdered kind now cs (i, d) = (
    extend-IsIncreasing to_json (next_event kind now cs) cs i,
    rw (rows_of-extend to_json (next_event kind now cs) cs i) (
        IsIncreasing-append (λ r. r.id) (rows_of to_json cs) _
          (below-next_id (rows_of to_json cs) (next_id (rows_of to_json cs)) (omega arith)) d),
  )

  next_id-extend :
      (kind : EventKind) (now : ℕ) (cs : List Chunk)
      → IsOrdered cs
      → next_id (rows_of to_json (extend to_json (next_event kind now cs) cs))
        ≡ next_id (rows_of to_json cs) + 1
  next_id-extend kind now cs (i, d) =
      let e = next_event kind now cs in
      let n = current_segment (segments_of to_json cs) in
      rw (rows_of-extend to_json e cs i) (
        omega (
          arith,
          max_id-append (rows_of to_json cs) (index_row e n (file_size n (segments_of to_json cs))),
        ))

  -- The calls of a run, each with its time.
  unfoldable pub append_all : List (EventKind × ℕ) → EventLog → EventLog
  append_all [] log = log
  append_all ((kind, now) ∷ calls) log = append_all calls (append to_json from_json kind now log).0

  -- A run ends in a laid out log that holds the events of the run behind those that were there.
  pub record IsRun (calls : List (EventKind × ℕ)) (cs ds : List Chunk) : Type 0 where
    pub ends : append_all calls (laid_out cs) ≡ laid_out ds
    pub ordered : IsOrdered ds
    pub holds :
        events_of to_json ds ≡ events_of to_json cs ++ numbered (next_id (rows_of to_json cs)) calls
    pub next : next_id (rows_of to_json ds) ≡ next_id (rows_of to_json cs) + length calls

  pub append_all-IsRun :
      (calls : List (EventKind × ℕ)) (cs : List Chunk)
      → IsOrdered cs
      → (ds : List Chunk) × IsRun calls cs ds
  append_all-IsRun [] cs o = (
    cs,
    record {
      ends = unfold append_all in refl;
      ordered = o;
      holds = sym (append-nil (events_of to_json cs));
      next = omega arith;
    },
  )
  append_all-IsRun ((kind, now) ∷ calls) cs o =
      let e = next_event kind now cs in
      let (ds, r) = append_all-IsRun calls (extend to_json e cs) (extend-IsOrdered kind now cs o) in
      let count = next_id-extend kind now cs o in
      (
        ds,
        record {
          ends = first_step kind now calls cs o ∙ r.ends;
          ordered = r.ordered;
          holds =
              r.holds
              ∙ rw count (
                  rw (events_of-extend to_json e cs) (
                    append_assoc (events_of to_json cs) (e ∷ [])
                      (numbered (next_id (rows_of to_json cs) + 1) calls)));
          next = omega (arith, r.next, count);
        },
      )
    where
      first_step :
          (kind : EventKind) (now : ℕ) (calls : List (EventKind × ℕ)) (cs : List Chunk)
          → IsOrdered cs
          → append_all ((kind, now) ∷ calls) (laid_out cs)
            ≡ append_all calls (laid_out (extend to_json (next_event kind now cs) cs))
      first_step kind now calls cs o = unfold append_all in rw (append-laid_out kind now cs o) refl

  append_all-append_one :
      (calls : List (EventKind × ℕ)) (kind : EventKind) (now : ℕ) (log : EventLog)
      → append_all (calls ++ (kind, now) ∷ []) log
        ≡ (append to_json from_json kind now (append_all calls log)).0
  unfolding append_all
  append_all-append_one [] kind now log = refl
  append_all-append_one ((k, n) ∷ calls) kind now log =
      append_all-append_one calls kind now (append to_json from_json k n log).0

  -- After a run an append succeeds, and makes the run one longer.
  pub append-append_all :
      (calls : List (EventKind × ℕ)) (kind : EventKind) (now : ℕ)
      → (e : Event) × (append to_json from_json kind now (append_all calls opened)
          ≡ (append_all (calls ++ (kind, now) ∷ []) opened, ok e))
  append-append_all calls kind now =
      let (ds, r) = append_all-IsRun calls [] (tt, tt) in
      let log : EventLog = laid_out (extend to_json (next_event kind now ds) ds) in
      let step : append to_json from_json kind now (append_all calls opened)
          ≡ (log, ok (next_event kind now ds)) =
        rw r.ends (append-laid_out kind now ds r.ordered) in
      let longer : append_all (calls ++ (kind, now) ∷ []) opened ≡ log =
        append_all-append_one calls kind now opened
        ∙ ap (λ (q : EventLog × Result Event). q.0) step in
      (
        next_event kind now ds,
        step ∙ ap (λ (l : EventLog). (l, ok (next_event kind now ds))) (sym longer),
      )
