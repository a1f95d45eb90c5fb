-- ===== src/EventLog/Store/Chunks.antt =====
-- The layout of a log in src/event_log/mod.rs: which events stand in which segment, and what an append does
-- to it.
use vai.Common.{
  ℕ, ◌+◌, ◌<◌, ◌≡◌, refl, sym, ap, ◌∙◌, List, [], ◌∷◌, ◌++◌, inl, inr, ltb, if◌then◌else◌,
  Bool-cases, length, All, length-append, arith,
}
use vai.Common.Table.{IsIncreasing}
use vai.EventLog.{Event}
use vai.EventLog.Lines.{newline}
use vai.EventLog.Store.{
  Segment, IndexRow, index_row, current_segment, max_segment_bytes, append_line, file_size,
}
use mathlib.Core.List.{append-nil, append_assoc}

-- A segment's number and its events.
abbrev pub Chunk : Type 0
Chunk = ℕ × List Event

module _ (to_json : Event → List ℕ) where
  abbrev pub text_of : List Event → List ℕ
  text_of [] = []
  text_of (e ∷ es) = to_json e ++ newline ∷ text_of es

  abbrev pub segment_of : Chunk → Segment
  segment_of c = record { number = c.0; content = text_of c.1 }

  abbrev pub segments_of : List Chunk → List Segment
  segments_of [] = []
  segments_of (c ∷ cs) = segment_of c ∷ segments_of cs

  abbrev pub rows_from : ℕ → ℕ → List Event → List IndexRow
  rows_from n offset [] = []
  rows_from n offset (e ∷ es) =
      index_row e n offset ∷ rows_from n (offset + length (to_json e) + 1) es

  abbrev pub rows_of : List Chunk → List IndexRow
  rows_of [] = []
  rows_of (c ∷ cs) = rows_from c.0 0 c.1 ++ rows_of cs

  abbrev pub events_of : List Chunk → List Event
  events_of [] = []
  events_of (c ∷ cs) = c.1 ++ events_of cs

  -- The event goes to the last segment, or to a new one where that is full.
  abbrev pub extend : Event → List Chunk → List Chunk
  extend e [] = (1, e ∷ []) ∷ []
  extend e (c ∷ []) =
      if ltb (length (text_of c.1)) max_segment_bytes
      then (c.0, c.1 ++ e ∷ []) ∷ []
      else c ∷ (c.0 + 1, e ∷ []) ∷ []
  extend e (c ∷ d ∷ cs) = c ∷ extend e (d ∷ cs)

  text_of-append_one :
      (es : List Event) (e : Event)
      → text_of (es ++ e ∷ []) ≡ text_of es ++ (to_json e ++ newline ∷ [])
  text_of-append_one [] e = refl
  text_of-append_one (x ∷ es) e =
      rw (text_of-append_one es e)
        (sym (append_assoc (to_json x) (newline ∷ text_of es) (to_json e ++ newline ∷ [])))

  rows_from-append_one :
      (n offset : ℕ) (es : List Event) (e : Event)
      → rows_from n offset (es ++ e ∷ [])
        ≡ rows_from n offset es ++ index_row e n (offset + length (text_of es)) ∷ []
  rows_from-append_one n offset [] e =
      let h : offset ≡ offset + 0 = omega arith in ap (λ (o : ℕ). index_row e n o ∷ []) h
  rows_from-append_one n offset (x ∷ es) e =
      let after = offset + length (to_json x) + 1 in
      let h : after + length (text_of es) ≡ offset + length (text_of (x ∷ es)) =
        rw length-append (omega arith) in
      ap (λ (rs : List IndexRow). index_row x n offset ∷ rs)
        (rows_from-append_one n after es e
          ∙ ap (λ (o : ℕ). rows_from n after es ++ index_row e n o ∷ []) h)

  above-current_segment :
      (k : ℕ) (c : Chunk) (cs : List Chunk)
      → All (λ d. k < d.0) (c ∷ cs)
      → k < current_segment (segments_of (c ∷ cs))
  unfolding current_segment
  above-current_segment k c [] a = ground (arith, a.0)
  above-current_segment k c (d ∷ cs) a = above-current_segment k d cs a.1

  pub append_line-extend :
      (e : Event) (cs : List Chunk)
      → IsIncreasing (λ c. c.0) cs
      → append_line (current_segment (segments_of cs)) (to_json e ++ newline ∷ []) (segments_of cs)
        ≡ segments_of (extend e cs)
  unfolding append_line current_segment
  append_line-extend e [] i = refl
  append_line-extend e (c ∷ []) i =
      elim (Bool-cases (ltb (length (text_of c.1)) max_segment_bytes)) [
        | inl room ↦ rw room (ground (arith, text_of-append_one c.1 e))
        | inr full ↦ rw full (ground arith)
      ]
  append_line-extend e (c ∷ d ∷ cs) i =
      ground (arith, above-current_segment c.0 d cs i.0, append_line-extend e (d ∷ cs) i.1)

  pub rows_of-extend :
      (e : Event) (cs : List Chunk)
      → IsIncreasing (λ c. c.0) cs
      → let n = current_segment (segments_of cs) in
        rows_of (extend e cs) ≡ rows_of cs ++ index_row e n (file_size n (segments_of cs)) ∷ []
  unfolding file_size current_segment
  rows_of-extend e [] i = refl
  rows_of-extend e (c ∷ []) i = elim (Bool-cases (ltb (length (text_of c.1)) max_segment_bytes)) [
    | inl room ↦ rw room (
        rw (append-nil (rows_from c.0 0 (c.1 ++ e ∷ [])))
          (ground (arith, rows_from-append_one c.0 0 c.1 e, append-nil (rows_from c.0 0 c.1))))
    | inr full ↦ rw full (ground (arith, append-nil (rows_from c.0 0 c.1)))
  ]
  rows_of-extend e (c ∷ d ∷ cs) i =
      let n = current_segment (segments_of (d ∷ cs)) in
      let skip : file_size n (segments_of (c ∷ d ∷ cs)) ≡ file_size n (segments_of (d ∷ cs)) =
        ground (arith, above-current_segment c.0 d cs i.0) in
      rw skip (
        ap (λ (rs : List IndexRow). rows_from c.0 0 c.1 ++ rs) (rows_of-extend e (d ∷ cs) i.1)
        ∙ sym (append_assoc (rows_from c.0 0 c.1) (rows_of (d ∷ cs)) _))

  pub events_of-extend :
      (e : Event) (cs : List Chunk) → events_of (extend e cs) ≡ events_of cs ++ e ∷ []
  events_of-extend e [] = refl
  events_of-extend e (c ∷ []) = elim (Bool-cases (ltb (length (text_of c.1)) max_segment_bytes)) [
    | inl room ↦
        rw room (
          append-nil (c.1 ++ e ∷ [])
          ∙ ap (λ (es : List Event). es ++ e ∷ []) (sym (append-nil c.1)))
    | inr full ↦ rw full (ap (λ (es : List Event). es ++ e ∷ []) (sym (append-nil c.1)))
  ]
  events_of-extend e (c ∷ d ∷ cs) =
      rw (events_of-extend e (d ∷ cs)) (sym (append_assoc c.1 (events_of (d ∷ cs)) (e ∷ [])))

  All-extend :
      (k : ℕ) (e : Event) (c : Chunk) (cs : List Chunk)
      → All (λ d. k < d.0) (c ∷ cs)
      → All (λ d. k < d.0) (extend e (c ∷ cs))
  All-extend k e c [] a = ground (arith, a.0)
  All-extend k e c (d ∷ cs) a = (a.0, All-extend k e d cs a.1)

  pub extend-IsIncreasing :
      (e : Event) (cs : List Chunk)
      → IsIncreasing (λ c. c.0) cs
      → IsIncreasing (λ c. c.0) (extend e cs)
  extend-IsIncreasing e [] i = (tt, tt)
  extend-IsIncreasing e (c ∷ []) i = ground arith
  extend-IsIncreasing e (c ∷ d ∷ cs) i =
      (All-extend c.0 e d cs i.0, extend-IsIncreasing e (d ∷ cs) i.1)
