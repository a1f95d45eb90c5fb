-- ===== src/EventLog/Store/Recovery.antt =====
-- `rebuild_index` of src/event_log/mod.rs as crash recovery: what it makes of a log whose process ended
-- between the write of a line and its index row.
use vai.Common.{
  ℕ, ◌+◌, ◌≡◌, refl, sym, ap, ◌∙◌, true, List, [], ◌∷◌, ◌++◌, length, All, arith, Option,
}
use vai.Common.Table.{All-join}
use vai.EventLog.{Event, EventKind}
use vai.EventLog.Store.{
  EventLog, Segment, IndexRow, Result, ok, err, sqlite, opened, index_row, next_id, current_segment,
  file_size, write_to_segment, append, rebuild_index,
}
use vai.EventLog.Store.Chunks.{
  Chunk, segments_of, rows_of, events_of, extend, append_line-extend, rows_of-extend,
  events_of-extend, extend-IsIncreasing,
}
use vai.EventLog.Store.Reads.{IsReadable}
use vai.EventLog.Store.Rebuild.{
  IsKeyed, IsKeyed-split, is_taken, rebuild_index-keyed, rebuild_index-clash,
}
use vai.EventLog.Store.Replay.{
  laid_out, IsOrdered, next_event, append_all, numbered, append_all-IsRun, append-laid_out,
  extend-IsOrdered, IsIncreasing-IsKeyed_all, index_event-below,
}
use mathlib.Core.Path.{subst}

is_taken-append_one :
    (id : ℕ) (rows : List IndexRow) (r : IndexRow) → r.id ≡ id → is_taken id (rows ++ r ∷ []) ≡ true
is_taken-append_one id [] r h = ground (arith, h)
is_taken-append_one id (x ∷ rows) r h = ground (arith, is_taken-append_one id rows r h)

-- A table with one id twice at its end breaks the primary key.
repeated-not_IsKeyed :
    (rows : List IndexRow) (r q : IndexRow)
    → r.id ≡ q.id
    → ¬ IsKeyed [] ((rows ++ r ∷ []) ++ q ∷ [])
repeated-not_IsKeyed rows r q h k =
    let last = IsKeyed-split [] (rows ++ r ∷ []) (q ∷ []) k in
    cc (last.0, is_taken-append_one q.id rows r h)

-- The event that the `n`th call makes.
abbrev pub event_at : ℕ → EventKind → ℕ → Event
event_at n kind now = record { id = n; timestamp = now; kind = kind }

module _ (to_json : Event → List ℕ) (from_json : List ℕ → Option Event) where
  -- The process ends between the write of the line and its index row.
  abbrev pub crash : EventKind → ℕ → EventLog → EventLog
  crash kind now log =
      let e : Event = record { id = next_id log.events; timestamp = now; kind = kind } in
      record log { segments = (write_to_segment to_json from_json e log.segments).0 }

  crash-laid_out :
      (kind : EventKind) (now : ℕ) (cs : List Chunk)
      → IsOrdered to_json from_json cs
      → crash kind now (laid_out to_json from_json cs) ≡ record {
        segments =
            segments_of to_json (extend to_json (next_event to_json from_json kind now cs) cs);
        events = rows_of to_json cs;
      }
  unfolding write_to_segment
  crash-laid_out kind now cs o =
      rw (append_line-extend to_json (next_event to_json from_json kind now cs) cs o.0) refl

  rebuild_index-ordered :
      (cs : List Chunk) (rows : List IndexRow)
      → IsOrdered to_json from_json cs
      → All (IsReadable to_json from_json) (events_of to_json cs)
      → rebuild_index to_json from_json
          (record { segments = segments_of to_json cs; events = rows })
        ≡ (laid_out to_json from_json cs, ok tt)
  rebuild_index-ordered cs rows o a =
      rebuild_index-keyed to_json from_json cs rows a
        (IsIncreasing-IsKeyed_all (rows_of to_json cs) o.1)

  extend-IsReadable :
      (e : Event) (cs : List Chunk)
      → All (IsReadable to_json from_json) (events_of to_json cs)
      → IsReadable to_json from_json e
      → All (IsReadable to_json from_json) (events_of to_json (extend to_json e cs))
  extend-IsReadable e cs a b =
      rw (events_of-extend to_json e cs)
        (All-join (IsReadable to_json from_json) (events_of to_json cs) (e ∷ []) a (b, tt))

  rebuild_index-crash-laid_out :
      (kind : EventKind) (now : ℕ) (cs : List Chunk)
      → IsOrdered to_json from_json cs
      → All (IsReadable to_json from_json) (events_of to_json cs)
      → IsReadable to_json from_json (next_event to_json from_json kind now cs)
      → rebuild_index to_json from_json (crash kind now (laid_out to_json from_json cs))
        ≡ ((append to_json from_json kind now (laid_out to_json from_json cs)).0, ok tt)
  rebuild_index-crash-laid_out kind now cs o a b =
      let e = next_event to_json from_json kind now cs in
      ap (rebuild_index to_json from_json) (crash-laid_out kind now cs o)
      ∙ rebuild_index-ordered (extend to_json e cs) (rows_of to_json cs)
          (extend-IsOrdered to_json from_json kind now cs o) (extend-IsReadable e cs a b)
      ∙ ap (λ (q : EventLog × Result Event). (q.0, ok tt))
          (sym (append-laid_out to_json from_json kind now cs o))

  append-crashed :
      (kind : EventKind) (now : ℕ) (cs ds : List Chunk)
      → IsOrdered to_json from_json ds
      → let e = next_event to_json from_json kind now cs in
        let n = current_segment (segments_of to_json ds) in
        (append to_json from_json kind now
          (record { segments = segments_of to_json ds; events = rows_of to_json cs })).0
        ≡ record {
          segments = segments_of to_json (extend to_json e ds);
          events = rows_of to_json cs ++ index_row e n (file_size n (segments_of to_json ds)) ∷ [];
        }
  unfolding append write_to_segment
  append-crashed kind now cs ds o =
      let e = next_event to_json from_json kind now cs in
      let n = current_segment (segments_of to_json ds) in
      let offset = file_size n (segments_of to_json ds) in
      rw (index_event-below e n offset (rows_of to_json cs) (omega arith), append)
        (rw (append_line-extend to_json e ds o.0) refl)

  -- An append gets the id after those of the index, whatever the segments are.
  append-event_at :
      (kind : EventKind) (now : ℕ) (segments : List Segment) (cs : List Chunk)
      → (append to_json from_json kind now
          (record { segments = segments; events = rows_of to_json cs })).1
        ≡ ok (event_at (next_id (rows_of to_json cs)) kind now)
  unfolding append
  append-event_at kind now segments cs =
      let e = event_at (next_id (rows_of to_json cs)) kind now in
      let written = write_to_segment to_json from_json e segments in
      rw (index_event-below e written.1 written.2 (rows_of to_json cs) (omega arith), append) refl

  extend_twice-not_IsKeyed :
      (e e' : Event) (cs : List Chunk)
      → e.id ≡ e'.id
      → IsOrdered to_json from_json cs
      → ¬ IsKeyed [] (rows_of to_json (extend to_json e' (extend to_json e cs)))
  extend_twice-not_IsKeyed e e' cs h o =
      let numbered = extend-IsIncreasing to_json e cs o.0 in
      rw (rows_of-extend to_json e' (extend to_json e cs) numbered)
        (rw (rows_of-extend to_json e cs o.0) (repeated-not_IsKeyed (rows_of to_json cs) _ _ h))

  rebuild_index-append-crash-laid_out :
      (kind kind' : EventKind) (now now' : ℕ) (cs : List Chunk)
      → IsOrdered to_json from_json cs
      → All (IsReadable to_json from_json) (events_of to_json cs)
      → IsReadable to_json from_json (next_event to_json from_json kind now cs)
      → IsReadable to_json from_json (next_event to_json from_json kind' now' cs)
      → (rebuild_index to_json from_json
          (append to_json from_json kind' now'
            (crash kind now (laid_out to_json from_json cs))).0).1
        ≡ err sqlite
  rebuild_index-append-crash-laid_out kind kind' now now' cs o a b b' =
      let e = next_event to_json from_json kind now cs in
      let e' = next_event to_json from_json kind' now' cs in
      let ds = extend to_json e cs in
      let log =
        ap (λ (l : EventLog). (append to_json from_json kind' now' l).0)
          (crash-laid_out kind now cs o)
        ∙ append-crashed kind' now' cs ds (extend-IsOrdered to_json from_json kind now cs o) in
      ap (λ (l : EventLog). (rebuild_index to_json from_json l).1) log
      ∙ rebuild_index-clash to_json from_json (extend to_json e' ds) _
          (extend-IsReadable e' ds (extend-IsReadable e cs a b) b')
          (extend_twice-not_IsKeyed e e' cs refl o)

  -- On a log that no crash touched a rebuild changes nothing.
  pub rebuild_index-append_all :
      (calls : List (EventKind × ℕ))
      → All (IsReadable to_json from_json) (numbered 1 calls)
      → rebuild_index to_json from_json (append_all to_json from_json calls opened)
        ≡ (append_all to_json from_json calls opened, ok tt)
  rebuild_index-append_all calls a =
      let (ds, r) = append_all-IsRun to_json from_json calls [] (tt, tt) in
      rw r.ends (rebuild_index-ordered ds (rows_of to_json ds) r.ordered (rw (← r.holds) at a))

  -- After a run of `append` the process ends between a write and its index row: a rebuild then gives the log
  -- that it would have been without the crash, with the last event indexed. The codec is taken to read back
  -- the events.
  pub rebuild_index-crash :
      (calls : List (EventKind × ℕ)) (kind : EventKind) (now : ℕ)
      → All (IsReadable to_json from_json) (numbered 1 calls)
      → IsReadable to_json from_json (event_at (length calls + 1) kind now)
      → let log = append_all to_json from_json calls opened in
        rebuild_index to_json from_json (crash kind now log)
        ≡ ((append to_json from_json kind now log).0, ok tt)
  rebuild_index-crash calls kind now a b =
      let (ds, r) = append_all-IsRun to_json from_json calls [] (tt, tt) in
      let id : length calls + 1 ≡ next_id (rows_of to_json ds) = omega (arith, r.next) in
      rw r.ends (
        rebuild_index-crash-laid_out kind now ds r.ordered (rw (← r.holds) at a)
          (subst (λ n. IsReadable to_json from_json (event_at n kind now)) id b))

  -- If instead another event is appended after the crash, it gets the id of the event that was not indexed, and a
  -- rebuild right after that append stops at the primary key.
  pub rebuild_index-append-crash :
      (calls : List (EventKind × ℕ)) (kind kind' : EventKind) (now now' : ℕ)
      → All (IsReadable to_json from_json) (numbered 1 calls)
      → IsReadable to_json from_json (event_at (length calls + 1) kind now)
      → IsReadable to_json from_json (event_at (length calls + 1) kind' now')
      → let log = append_all to_json from_json calls opened in
        ((append to_json from_json kind now log).1 ≡ ok (event_at (length calls + 1) kind now))
        × ((append to_json from_json kind' now' (crash kind now log)).1
            ≡ ok (event_at (length calls + 1) kind' now'))
        × ((rebuild_index to_json from_json
              (append to_json from_json kind' now' (crash kind now log)).0).1
            ≡ err sqlite)
  rebuild_index-append-crash calls kind kind' now now' a b b' =
      let (ds, r) = append_all-IsRun to_json from_json calls [] (tt, tt) in
      let id : length calls + 1 ≡ next_id (rows_of to_json ds) = omega (arith, r.next) in
      rw r.ends (
        append-event_at kind now (segments_of to_json ds) ds
            ∙ ap (λ n. ok (event_at n kind now)) (sym id),
        append-event_at kind' now' (crash kind now (laid_out to_json from_json ds)).segments ds
            ∙ ap (λ n. ok (event_at n kind' now')) (sym id),
        rebuild_index-append-crash-laid_out kind kind' now now' ds r.ordered (rw (← r.holds) at a)
            (subst (λ n. IsReadable to_json from_json (event_at n kind now)) id b)
            (subst (λ n. IsReadable to_json from_json (event_at n kind' now')) id b'),
      )
