-- ===== src/EventLog/Tests.antt =====
-- Runs of the event log, and the instances of its theorems.
use vai.Common.{
  ℕ, ◌+◌, ◌-◌, ◌≡◌, refl, Option, none, some, List, [], ◌∷◌, if◌then◌else◌, nat_eq, All, arith,
  length,
}
use vai.EventLog.{Event, EventKind, workspace_created, file_removed, issue_closed}
use vai.EventLog.Lines.{brace, lines}
use vai.EventLog.Store.{opened, ok, err, sqlite, append, rebuild_index}
use vai.EventLog.Store.Reads.{IsReadable}
use vai.EventLog.Store.Replay.{append_all, numbered}
use vai.EventLog.Store.History.{Answers, append_all-Answers}
use vai.EventLog.Store.Recovery.{crash, event_at, rebuild_index-crash, rebuild_index-append-crash}

abbrev ws_made : EventKind
ws_made = workspace_created 7 "fix" "v1"

abbrev removed : EventKind
removed = file_removed 7 "a.rs"

abbrev closed : EventKind
closed = issue_closed 3 "done"

abbrev code_of : EventKind → ℕ
code_of (workspace_created w i b) = 65
code_of (file_removed w p) = 66
code_of k = 67

abbrev kind_of : ℕ → EventKind
kind_of n = if nat_eq n 65 then ws_made else if nat_eq n 66 then removed else closed

-- A codec for these three events at times below 100: an object of three characters.
abbrev to_bytes : Event → List ℕ
to_bytes e = (e.id + 100) ∷ (e.timestamp + 100) ∷ code_of e.kind ∷ brace ∷ []

abbrev from_bytes : List ℕ → Option Event
from_bytes (i ∷ t ∷ k ∷ b ∷ []) =
    some (record { id = i - 100; timestamp = t - 100; kind = kind_of k })
from_bytes bs = none

abbrev calls : List (EventKind × ℕ)
calls = (ws_made, 5) ∷ (removed, 6) ∷ []

crlf : lines (65 ∷ 13 ∷ 10 ∷ 66 ∷ 10 ∷ 67 ∷ []) ≡ (65 ∷ []) ∷ (66 ∷ []) ∷ (67 ∷ []) ∷ []
unfolding lines
crlf = refl

ws_made-IsReadable : IsReadable to_bytes from_bytes (event_at 1 ws_made 5)
ws_made-IsReadable = (omega arith, (101 ∷ 105 ∷ 65 ∷ [], refl), refl)

removed-IsReadable : IsReadable to_bytes from_bytes (event_at 2 removed 6)
removed-IsReadable = (omega arith, (102 ∷ 106 ∷ 66 ∷ [], refl), refl)

closed-IsReadable : IsReadable to_bytes from_bytes (event_at 3 closed 9)
closed-IsReadable = (omega arith, (103 ∷ 109 ∷ 67 ∷ [], refl), refl)

calls-IsReadable : All (IsReadable to_bytes from_bytes) (numbered 1 calls)
calls-IsReadable = (ws_made-IsReadable, (removed-IsReadable, tt))

append_all-Answers_example :
    Answers to_bytes from_bytes (append_all to_bytes from_bytes calls opened) (numbered 1 calls)
append_all-Answers_example = append_all-Answers to_bytes from_bytes calls calls-IsReadable

rebuild_index-crash_example :
    rebuild_index to_bytes from_bytes
      (crash to_bytes from_bytes closed 9 (append_all to_bytes from_bytes calls opened))
    ≡ ((append to_bytes from_bytes closed 9 (append_all to_bytes from_bytes calls opened)).0, ok tt)
rebuild_index-crash_example =
    rebuild_index-crash to_bytes from_bytes calls closed 9 calls-IsReadable closed-IsReadable

rebuild_index-append-crash_example :
    ((append to_bytes from_bytes closed 9 (append_all to_bytes from_bytes calls opened)).1
      ≡ ok (event_at (length calls + 1) closed 9))
    × ((append to_bytes from_bytes closed 9
          (crash to_bytes from_bytes closed 9 (append_all to_bytes from_bytes calls opened))).1
        ≡ ok (event_at (length calls + 1) closed 9))
    × ((rebuild_index to_bytes from_bytes
          (append to_bytes from_bytes closed 9
            (crash to_bytes from_bytes closed 9 (append_all to_bytes from_bytes calls opened))).0).1
        ≡ err sqlite)
rebuild_index-append-crash_example =
    rebuild_index-append-crash to_bytes from_bytes calls closed closed 9 9 calls-IsReadable
      closed-IsReadable closed-IsReadable
