-- ===== src/EventLog/Store/Rebuild.antt =====
-- `rebuild_index` of src/event_log/mod.rs over the segments of a laid out log.
use vai.Common.{
  ℕ, ◌+◌, ◌≡◌, refl, sym, ap, ◌∙◌, Bool, true, false, Option, ◌⊎◌, inl, inr, List, [], ◌∷◌, ◌++◌,
  nat_eq, Bool-cases, any, length, All,
}
use vai.Common.Table.{All-split}
use vai.EventLog.{Event}
use vai.EventLog.Lines.{lines, is_blank, lines-text, is_blank-object}
use vai.EventLog.Store.{
  Segment, IndexRow, EventLog, Result, EventLogError, ok, err, sqlite, index_row, index_event,
  index_lines, index_segments, rebuild_index,
}
use vai.EventLog.Store.Chunks.{
  Chunk, text_of, segment_of, segments_of, rows_from, rows_of, events_of,
}
use vai.EventLog.Store.Reads.{IsReadable}
use mathlib.Core.List.{append-nil, append_assoc}

-- Whether a row of that id is there, which the primary key forbids.
abbrev pub is_taken : ℕ → List IndexRow → Bool
is_taken id rows = any (λ r. nat_eq r.id id) rows

-- No id is in the table twice.
abbrev pub IsKeyed : List IndexRow → List IndexRow → Type 0
IsKeyed rows [] = Unit
IsKeyed rows (r ∷ rs) = (is_taken r.id rows ≡ false) × IsKeyed (rows ++ r ∷ []) rs

pub IsKeyed-split :
    (rows own more : List IndexRow) → IsKeyed rows (own ++ more) → IsKeyed (rows ++ own) more
IsKeyed-split rows [] more k = rw (append-nil rows) k
IsKeyed-split rows (r ∷ own) more k =
    rw (append_assoc rows (r ∷ []) own) at (IsKeyed-split (rows ++ r ∷ []) own more k.1)

module _ (to_json : Event → List ℕ) (from_json : List ℕ → Option Event) where
  -- The loop over the lines of one segment, on the events that they hold.
  abbrev index_events : ℕ → ℕ → List Event → List IndexRow → List IndexRow × Result (Unit {0})
  index_events n offset [] rows = (rows, ok tt)
  index_events n offset (e ∷ es) rows = elim (index_event e n offset rows) [
    | err error ↦ (rows, err error)
    | ok rows' ↦ index_events n (offset + length (to_json e) + 1) es rows'
  ]

  index_lines-events :
      (n offset : ℕ) (es : List Event) (rows : List IndexRow)
      → All (IsReadable to_json from_json) es
      → index_lines to_json from_json n offset (lines (text_of to_json es)) rows
        ≡ index_events n offset es rows
  unfolding index_lines
  index_lines-events n offset [] rows a = unfold lines in refl
  index_lines-events n offset (e ∷ es) rows ((text, (body, object), decodes), a) =
      let full : is_blank (to_json e) ≡ false = rw object (is_blank-object body) in
      rw (lines-text (to_json e) (text_of to_json es) text) (
        rw full (
          rw decodes (
            go (index_event e n offset rows)
              λ rows'. index_lines-events n (offset + length (to_json e) + 1) es rows' a)))
    where
      go :
          (r : Result (List IndexRow))
          → ((rows' : List IndexRow)
              → index_lines to_json from_json n
                  (offset + length (to_json e) + 1)
                  (lines (text_of to_json es))
                  rows'
                ≡ index_events n (offset + length (to_json e) + 1) es rows')
          → (elim r as (λ x. List IndexRow × Result (Unit {0})) [
            | err error ↦ (rows, err error)
            | ok rows' ↦
                index_lines to_json from_json n
                  (offset + length (to_json e) + 1)
                  (lines (text_of to_json es))
                  rows'
          ])
            ≡ (elim r as (λ x. List IndexRow × Result (Unit {0})) [
              | err error ↦ (rows, err error)
              | ok rows' ↦ index_events n (offset + length (to_json e) + 1) es rows'
            ])
      go (err error) rest = refl
      go (ok rows') rest = rest rows'

  index_events-free :
      (n offset : ℕ) (e : Event) (es : List Event) (rows : List IndexRow)
      → is_taken e.id rows ≡ false
      → index_events n offset (e ∷ es) rows
        ≡ index_events n (offset + length (to_json e) + 1) es (rows ++ index_row e n offset ∷ [])
  unfolding index_event
  index_events-free n offset e es rows h = rw (h, index_events) refl

  index_events-taken :
      (n offset : ℕ) (e : Event) (es : List Event) (rows : List IndexRow)
      → is_taken e.id rows ≡ true
      → index_events n offset (e ∷ es) rows ≡ (rows, err sqlite)
  unfolding index_event
  index_events-taken n offset e es rows h = rw (h, index_events) refl

  -- The loop over one segment either adds all its rows, or meets an id that is taken.
  abbrev Indexes : ℕ → ℕ → List Event → List IndexRow → Type 0
  Indexes n offset es rows =
      (index_events n offset es rows ≡ (rows ++ rows_from to_json n offset es, ok tt))
      × ((more : List IndexRow)
          → IsKeyed (rows ++ rows_from to_json n offset es) more
          → IsKeyed rows (rows_from to_json n offset es ++ more))

  abbrev Collides : ℕ → ℕ → List Event → List IndexRow → Type 0
  Collides n offset es rows =
      ((index_events n offset es rows).1 ≡ err sqlite)
      × ((more : List IndexRow) → ¬ IsKeyed rows (rows_from to_json n offset es ++ more))

  index_events-cases :
      (n offset : ℕ) (es : List Event) (rows : List IndexRow)
      → Indexes n offset es rows ⊎ Collides n offset es rows
  index_events-cases n offset [] rows = inl (
    ap (λ (rs : List IndexRow). (rs, ok tt)) (sym (append-nil rows)),
    λ more k. rw (append-nil rows) at k,
  )
  index_events-cases n offset (e ∷ es) rows = elim (Bool-cases (is_taken e.id rows)) [
    | inl taken ↦
        inr (ap (λ r. r.1) (index_events-taken n offset e es rows taken), λ more k. cc (taken, k.0))
    | inr free ↦
        let after = offset + length (to_json e) + 1 in
        let row = index_row e n offset in
        let step = index_events-free n offset e es rows free in
        let shift = append_assoc rows (row ∷ []) (rows_from to_json n after es) in
        elim (index_events-cases n after es (rows ++ row ∷ [])) [
          | inl (eq, keyed) ↦ inl (
            step ∙ eq ∙ ap (λ (rs : List IndexRow). (rs, ok tt)) shift,
            λ more k. (free, keyed more (rw (← shift) at k)),
          )
          | inr (bad, clash) ↦ inr (ap (λ r. r.1) step ∙ bad, λ more k. clash more k.1)
        ]
  ]

  index_segments-step :
      (s : Segment) (ss : List Segment) (rows rows' : List IndexRow)
      → index_lines to_json from_json s.number 0 (lines s.content) rows ≡ (rows', ok tt)
      → index_segments to_json from_json (s ∷ ss) rows ≡ index_segments to_json from_json ss rows'
  unfolding index_segments
  index_segments-step s ss rows rows' h =
      rw (ap (λ r. r.1) h, index_segments)
        (ap (λ (rs : List IndexRow). index_segments to_json from_json ss rs) (ap (λ r. r.0) h))

  index_segments-stop :
      (s : Segment) (ss : List Segment) (rows : List IndexRow) (error : EventLogError)
      → (index_lines to_json from_json s.number 0 (lines s.content) rows).1 ≡ err error
      → (index_segments to_json from_json (s ∷ ss) rows).1 ≡ err error
  unfolding index_segments
  index_segments-stop s ss rows error h = rw (h, index_segments) refl

  index_segments-cases :
      (cs : List Chunk) (rows : List IndexRow)
      → All (IsReadable to_json from_json) (events_of to_json cs)
      → ((index_segments to_json from_json (segments_of to_json cs) rows
            ≡ (rows ++ rows_of to_json cs, ok tt))
          × IsKeyed rows (rows_of to_json cs))
        ⊎ (((index_segments to_json from_json (segments_of to_json cs) rows).1 ≡ err sqlite)
            × ¬ IsKeyed rows (rows_of to_json cs))
  index_segments-cases [] rows a =
      unfold index_segments in
      inl (ap (λ (rs : List IndexRow). (rs, ok tt)) (sym (append-nil rows)), tt)
  index_segments-cases (c ∷ cs) rows a =
      let r = All-split (IsReadable to_json from_json) c.1 (events_of to_json cs) a in
      let read = index_lines-events c.0 0 c.1 rows r.0 in
      let own = rows_from to_json c.0 0 c.1 in
      elim (index_events-cases c.0 0 c.1 rows) [
        | inl (eq, keyed) ↦
            let step =
              index_segments-step (segment_of to_json c) (segments_of to_json cs) rows (rows ++ own)
                (read ∙ eq) in
            elim (index_segments-cases cs (rows ++ own) r.1) [
              | inl (eq', keyed') ↦ inl (
                step
                    ∙ eq'
                    ∙ ap (λ (rs : List IndexRow). (rs, ok tt))
                        (append_assoc rows own (rows_of to_json cs)),
                keyed (rows_of to_json cs) keyed',
              )
              | inr (bad, clash) ↦ inr (
                ap (λ r. r.1) step ∙ bad,
                λ k. clash (IsKeyed-split rows own (rows_of to_json cs) k),
              )
            ]
        | inr (bad, clash) ↦ inr (
          index_segments-stop (segment_of to_json c) (segments_of to_json cs) rows sqlite
              (ap (λ r. r.1) read ∙ bad),
          λ k. clash (rows_of to_json cs) k,
        )
      ]

  -- Where the ids of the events differ, the rebuilt index is the one of the layout.
  pub rebuild_index-keyed :
      (cs : List Chunk) (rows : List IndexRow)
      → All (IsReadable to_json from_json) (events_of to_json cs)
      → IsKeyed [] (rows_of to_json cs)
      → rebuild_index to_json from_json
          (record { segments = segments_of to_json cs; events = rows })
        ≡ (record { segments = segments_of to_json cs; events = rows_of to_json cs }, ok tt)
  unfolding rebuild_index
  rebuild_index-keyed cs rows a k = elim (index_segments-cases cs [] a) [
    | inl (eq, keyed) ↦
        ap
          (λ (r : List IndexRow × Result (Unit {0})).
            let log : EventLog = record { segments = segments_of to_json cs; events = r.0 } in
            (log, r.1))
          eq
    | inr (bad, clash) ↦ absurd (clash k)
  ]

  -- Where two events have one id, it stops at the primary key.
  pub rebuild_index-clash :
      (cs : List Chunk) (rows : List IndexRow)
      → All (IsReadable to_json from_json) (events_of to_json cs)
      → ¬ IsKeyed [] (rows_of to_json cs)
      → (rebuild_index to_json from_json
          (record { segments = segments_of to_json cs; events = rows })).1
        ≡ err sqlite
  unfolding rebuild_index
  rebuild_index-clash cs rows a n = elim (index_segments-cases cs [] a) [
    | inl (eq, keyed) ↦ absurd (n keyed)
    | inr (bad, clash) ↦ bad
  ]
