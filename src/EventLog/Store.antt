-- ===== src/EventLog/Store.antt =====
-- `EventLog` of src/event_log/mod.rs: segment files of lines, and the table that indexes them. A directory is
-- the list of its segments in the order of their names, so `segments.sort()` is done; a segment's name is its
-- number (six digits, so names are sorted as the numbers below 1,000,000 are). A statement or a file operation
-- fails only where the code reads what is not there or breaks the table's primary key. The JSON codec is a
-- parameter.
pub mod Chunks
pub mod Reads
pub mod Rebuild
pub mod Replay
pub mod History
pub mod Recovery
use vai.Common.{
  ℕ, zero, suc, ◌+◌, max, Option, none, some, Bool, true, false, ◌&&◌, List, [], ◌∷◌, ◌++◌, String,
  ◌==◌, nat_eq, ltb, leb, if◌then◌else◌, any, keep, length, drop,
}
use vai.Common.Eq.{string_equality, nat_equality}
use vai.Common.Sort.{sort_by_key}
use vai.EventLog.{Event, EventKind, event_type, workspace_id, entity_id}
use vai.EventLog.Lines.{newline, read_line, trim_end, is_blank, lines}

pub data EventLogError : Type 0 where
  io sqlite serde not_found : EventLogError

pub data Result (A : Type 0) : Type 0 where
  ok : A → Result A
  err : EventLogError → Result A

infixl 5 ◌>>=◌
abbrev pub ◌>>=◌ : {A B : Type 0} → Result A → (A → Result B) → Result B
ok a >>= f = f a
err e >>= f = err e

pub record Segment : Type 0 where
  pub number : ℕ
  pub content : List ℕ

pub record IndexRow : Type 0 where
  pub id : ℕ
  pub timestamp : ℕ
  pub event_type : String
  pub workspace_id : Option ℕ
  pub entity_id : Option String
  pub segment_file : ℕ
  pub byte_offset : ℕ

pub record EventLog : Type 0 where
  pub segments : List Segment
  pub events : List IndexRow

abbrev pub opened : EventLog
opened = record { segments = []; events = [] }

-- `MAX_SEGMENT_BYTES`, 64 MiB.
abbrev pub max_segment_bytes : ℕ
max_segment_bytes = 67108864

abbrev pub max_id : List IndexRow → ℕ
max_id [] = 0
max_id (r ∷ rs) = max r.id (max_id rs)

abbrev pub next_id : List IndexRow → ℕ
next_id rows = max_id rows + 1

unfoldable pub current_segment : List Segment → ℕ
current_segment [] = 1
current_segment (s ∷ []) =
    if ltb (length s.content) max_segment_bytes then s.number else s.number + 1
current_segment (s ∷ t ∷ ss) = current_segment (t ∷ ss)

-- The line at the end of the file of that number, which is made if it is not there.
unfoldable pub append_line : ℕ → List ℕ → List Segment → List Segment
append_line n line [] = record { number = n; content = line } ∷ []
append_line n line (s ∷ ss) =
    let rest = append_line n line ss in
    if nat_eq s.number n then record s { content = s.content ++ line } ∷ ss else s ∷ rest

-- The length of the file before the write, 0 if it is not there.
unfoldable pub file_size : ℕ → List Segment → ℕ
file_size n [] = 0
file_size n (s ∷ ss) =
    let rest = file_size n ss in if nat_eq s.number n then length s.content else rest

abbrev pub index_row : Event → ℕ → ℕ → IndexRow
index_row e n offset = record {
  id = e.id;
  timestamp = e.timestamp;
  event_type = event_type e.kind;
  workspace_id = workspace_id e.kind;
  entity_id = entity_id e.kind;
  segment_file = n;
  byte_offset = offset;
}

-- `INSERT`; the id is the primary key.
unfoldable pub index_event : Event → ℕ → ℕ → List IndexRow → Result (List IndexRow)
index_event e n offset rows =
    if any (λ r. nat_eq r.id e.id) rows then err sqlite else ok (rows ++ index_row e n offset ∷ [])

unfoldable pub find_segment : ℕ → List Segment → Option Segment
find_segment n [] = none
find_segment n (s ∷ ss) = let rest = find_segment n ss in if nat_eq s.number n then some s else rest

abbrev pub count : EventLog → ℕ
count log = length log.events

abbrev pub same_text : Option String → String → Bool
same_text none s = false
same_text (some t) s = t == s

abbrev pub same_id : Option ℕ → ℕ → Bool
same_id none n = false
same_id (some m) n = nat_eq m n

module _ (to_json : Event → List ℕ) (from_json : List ℕ → Option Event) where
  unfoldable pub write_to_segment : Event → List Segment → List Segment × ℕ × ℕ
  write_to_segment e segments =
      let n = current_segment segments in
      (append_line n (to_json e ++ newline ∷ []) segments, n, file_size n segments)

  -- `now` is `Utc::now()`. The line is written before it is indexed.
  unfoldable pub append : EventKind → ℕ → EventLog → EventLog × Result Event
  unfolding write_to_segment
  append kind now log =
      let e : Event = record { id = next_id log.events; timestamp = now; kind = kind } in
      let (segments, n, offset) = write_to_segment e log.segments in
      elim (index_event e n offset log.events) [
        | ok rows ↦ (record { segments = segments; events = rows }, ok e)
        | err error ↦ (record log { segments = segments }, err error)
      ]

  abbrev pub decoded : Option Event → Result Event
  decoded none = err serde
  decoded (some e) = ok e

  unfoldable pub read_event_at : ℕ → ℕ → List Segment → Result Event
  read_event_at n offset segments = elim (find_segment n segments) [
    | none ↦ err io
    | some s ↦ decoded (from_json (trim_end (read_line (drop offset s.content))))
  ]

  unfoldable pub load_events : List Segment → List IndexRow → Result (List Event)
  load_events segments [] = ok []
  load_events segments (r ∷ rs) =
      let rest = load_events segments rs in
      read_event_at r.segment_file r.byte_offset segments >>= λ e. rest >>= λ es. ok (e ∷ es)

  -- `SELECT ... WHERE ... ORDER BY id`, and the events of the rows.
  unfoldable pub query_index : (IndexRow → Bool) → EventLog → Result (List Event)
  query_index wanted log =
      load_events log.segments (sort_by_key (λ r. r.id) (keep wanted log.events))

  abbrev pub query_by_type : String → EventLog → Result (List Event)
  query_by_type type = query_index (λ r. r.event_type == type)

  abbrev pub query_by_workspace : ℕ → EventLog → Result (List Event)
  query_by_workspace w = query_index (λ r. same_id r.workspace_id w)

  abbrev pub query_by_entity : String → EventLog → Result (List Event)
  query_by_entity entity = query_index (λ r. same_text r.entity_id entity)

  abbrev pub query_by_time_range : ℕ → ℕ → EventLog → Result (List Event)
  query_by_time_range start end = query_index (λ r. leb start r.timestamp && leb r.timestamp end)

  abbrev pub all : EventLog → Result (List Event)
  all = query_index (λ r. true)

  abbrev pub read_first : List Segment → List IndexRow → Result (Option Event)
  read_first segments [] = ok none
  read_first segments (r ∷ rs) =
      read_event_at r.segment_file r.byte_offset segments >>= λ e. ok (some e)

  unfoldable pub get_by_id : ℕ → EventLog → Result (Option Event)
  get_by_id id log = read_first log.segments (keep (λ r. nat_eq r.id id) log.events)

  -- The rows, and whether the loop came to the end; on an error the rows so far stay.
  unfoldable pub index_lines :
      ℕ → ℕ → List (List ℕ) → List IndexRow → List IndexRow × Result (Unit {0})
  index_lines n offset [] rows = (rows, ok tt)
  index_lines n offset (line ∷ rest) rows =
      let after = offset + length line + 1 in
      let skipped = index_lines n after rest rows in
      if is_blank line then skipped else elim (from_json line) [
        | none ↦ (rows, err serde)
        | some e ↦ elim (index_event e n offset rows) [
          | err error ↦ (rows, err error)
          | ok rows' ↦ index_lines n after rest rows'
        ]
      ]

  unfoldable pub index_segments : List Segment → List IndexRow → List IndexRow × Result (Unit {0})
  index_segments [] rows = (rows, ok tt)
  index_segments (s ∷ ss) rows =
      let r = index_lines s.number 0 (lines s.content) rows in
      elim (r.1) [ err error ↦ (r.0, err error) | ok u ↦ index_segments ss r.0 ]

  unfoldable pub rebuild_index : EventLog → EventLog × Result (Unit {0})
  rebuild_index log = let r = index_segments log.segments [] in (record log { events = r.0 }, r.1)
