-- ===== src/EventLog/Store/Reads.antt =====
-- The reads of src/event_log/mod.rs: what `read_event_at` finds behind each row of the index, and what the
-- queries make of it.
use vai.Common.{
  ℕ, ◌+◌, ◌<◌, ◌≡◌, refl, sym, ap, ◌∙◌, Bool, Option, some, inl, inr, List, [], ◌∷◌, ◌++◌,
  nat_eq_iff, Bool-cases, keep, length, All, length-append, arith,
}
use vai.Common.Table.{IsIncreasing, IsIncreasing-keep, sort_by_key-IsIncreasing, All-split}
use vai.EventLog.{Event}
use vai.EventLog.Lines.{
  newline, brace, IsText, trim_end, read_line-text, trim_end-object, drop-append,
}
use vai.EventLog.Store.{
  Segment, IndexRow, EventLog, ok, index_row, find_segment, read_event_at, load_events, query_index,
}
use vai.EventLog.Store.Chunks.{
  Chunk, text_of, segment_of, segments_of, rows_from, rows_of, events_of,
}
use mathlib.Core.List.{append_assoc}

module _ (to_json : Event → List ℕ) (from_json : List ℕ → Option Event) where
  -- What a JSON codec does with an event: the text is an object without control characters, and it is
  -- read back.
  abbrev pub IsReadable : Event → Type 0
  IsReadable e =
      IsText (to_json e)
      × ((body : List ℕ) × (to_json e ≡ body ++ brace ∷ []))
      × (from_json (to_json e) ≡ some e)

  -- Row by row, the event that the row was made of stands where the row says.
  abbrev pub Stored : List Segment → List IndexRow → List Event → Type 0
  Stored segments [] [] = Unit
  Stored segments [] (e ∷ es) = ⊥
  Stored segments (r ∷ rs) [] = ⊥
  Stored segments (r ∷ rs) (e ∷ es) =
      (r ≡ index_row e r.segment_file r.byte_offset)
      × (read_event_at to_json from_json r.segment_file r.byte_offset segments ≡ ok e)
      × Stored segments rs es

  -- One line of a segment, behind a text and before another.
  read_event_at-line :
      (segments : List Segment) (n : ℕ) (before after : List ℕ) (e : Event)
      → IsReadable e
      → find_segment n segments
        ≡ some (record { number = n; content = before ++ (to_json e ++ newline ∷ after) })
      → read_event_at to_json from_json n (length before) segments ≡ ok e
  unfolding read_event_at
  read_event_at-line segments n before after e (text, (body, object), decodes) found =
      let line : trim_end (to_json e ++ newline ∷ []) ≡ to_json e =
        rw object (trim_end-object body) in
      rw (found, read_event_at)
        (rw (drop-append before (to_json e ++ newline ∷ after))
          (rw (read_line-text (to_json e) after text) (rw line (rw decodes refl))))

  rows_from-Stored :
      (segments : List Segment) (n : ℕ) (before : List ℕ) (es : List Event)
      → All IsReadable es
      → find_segment n segments
        ≡ some (record { number = n; content = before ++ text_of to_json es })
      → Stored segments (rows_from to_json n (length before) es) es
  rows_from-Stored segments n before [] a found = tt
  rows_from-Stored segments n before (e ∷ es) a found =
      let after = text_of to_json es in
      let line : List ℕ = to_json e ++ newline ∷ [] in
      let here = read_event_at-line segments n before after e a.0 found in
      let content : before ++ (to_json e ++ newline ∷ after) ≡ (before ++ line) ++ after =
        ap (λ (t : List ℕ). before ++ t) (sym (append_assoc (to_json e) (newline ∷ []) after))
        ∙ sym (append_assoc before line after) in
      let offset : length (before ++ line) ≡ length before + length (to_json e) + 1 =
        omega (arith, length-append before line, length-append (to_json e) (newline ∷ [])) in
      let found' = rw content at found in
      (refl, here, rw offset at (rows_from-Stored segments n (before ++ line) es a.1 found'))

  Stored-append :
      (segments : List Segment) (rs qs : List IndexRow) (es ds : List Event)
      → Stored segments rs es
      → Stored segments qs ds
      → Stored segments (rs ++ qs) (es ++ ds)
  Stored-append segments [] qs [] ds s t = t
  Stored-append segments [] qs (e ∷ es) ds s t = absurd s
  Stored-append segments (r ∷ rs) qs [] ds s t = absurd s
  Stored-append segments (r ∷ rs) qs (e ∷ es) ds s t =
      (s.0, s.1, Stored-append segments rs qs es ds s.2 t)

  abbrev IsFound : List Segment → Chunk → Type 0
  IsFound segments c = find_segment c.0 segments ≡ some (segment_of to_json c)

  rows_of-Stored :
      (segments : List Segment) (cs : List Chunk)
      → All IsReadable (events_of to_json cs)
      → All (IsFound segments) cs
      → Stored segments (rows_of to_json cs) (events_of to_json cs)
  rows_of-Stored segments [] a f = tt
  rows_of-Stored segments (c ∷ cs) a f =
      let r = All-split IsReadable c.1 (events_of to_json cs) a in
      Stored-append segments (rows_from to_json c.0 0 c.1) (rows_of to_json cs) c.1
        (events_of to_json cs) (rows_from-Stored segments c.0 [] c.1 r.0 f.0)
        (rows_of-Stored segments cs r.1 f.1)

  IsFound-cons :
      (c : Chunk) (segments : List Segment) (cs : List Chunk)
      → All (λ d. c.0 < d.0) cs
      → All (IsFound segments) cs
      → All (IsFound (segment_of to_json c ∷ segments)) cs
  unfolding find_segment
  IsFound-cons c segments [] above f = tt
  IsFound-cons c segments (d ∷ cs) above f =
      (ground (arith, above.0, f.0), IsFound-cons c segments cs above.1 f.1)

  segments_of-IsFound :
      (cs : List Chunk) → IsIncreasing (λ c. c.0) cs → All (IsFound (segments_of to_json cs)) cs
  segments_of-IsFound [] i = tt
  segments_of-IsFound (c ∷ cs) i = (
    unfold find_segment in rw ((nat_eq_iff c.0 c.0).1 refl) refl,
    IsFound-cons c (segments_of to_json cs) cs i.0 (segments_of-IsFound cs i.1),
  )

  -- Behind each row of the index of a laid out log stands its event.
  pub layout-Stored :
      (cs : List Chunk)
      → IsIncreasing (λ c. c.0) cs
      → All IsReadable (events_of to_json cs)
      → Stored (segments_of to_json cs) (rows_of to_json cs) (events_of to_json cs)
  layout-Stored cs i a = rows_of-Stored (segments_of to_json cs) cs a (segments_of-IsFound cs i)

  -- A filter of rows that looks only at what they say of the event.
  pub load_events-keep :
      (segments : List Segment) (wanted : IndexRow → Bool) (is_wanted : Event → Bool)
      → ((e : Event) (n offset : ℕ) → wanted (index_row e n offset) ≡ is_wanted e)
      → (rs : List IndexRow) (es : List Event) → Stored segments rs es
      → load_events to_json from_json segments (keep wanted rs) ≡ ok (keep is_wanted es)
  unfolding load_events
  load_events-keep segments wanted is_wanted w [] [] s = refl
  load_events-keep segments wanted is_wanted w [] (e ∷ es) s = absurd s
  load_events-keep segments wanted is_wanted w (r ∷ rs) [] s = absurd s
  load_events-keep segments wanted is_wanted w (r ∷ rs) (e ∷ es) s =
      let same : wanted r ≡ is_wanted e = ap wanted s.0 ∙ w e r.segment_file r.byte_offset in
      let rest = load_events-keep segments wanted is_wanted w rs es s.2 in
      elim (Bool-cases (is_wanted e)) [
        | inl b ↦ rw (same ∙ b) (rw b (rw s.1 (rw rest refl)))
        | inr b ↦ rw (same ∙ b) (rw b rest)
      ]

  pub query_index-keep :
      (log : EventLog) (wanted : IndexRow → Bool) (is_wanted : Event → Bool) (es : List Event)
      → ((e : Event) (n offset : ℕ) → wanted (index_row e n offset) ≡ is_wanted e)
      → IsIncreasing (λ r. r.id) log.events
      → Stored log.segments log.events es
      → query_index to_json from_json wanted log ≡ ok (keep is_wanted es)
  unfolding query_index
  query_index-keep log wanted is_wanted es w i s =
      rw
        (sort_by_key-IsIncreasing (λ r. r.id) (keep wanted log.events)
          (IsIncreasing-keep (λ r. r.id) wanted log.events i))
        (load_events-keep log.segments wanted is_wanted w log.events es s)
