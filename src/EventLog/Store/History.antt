-- ===== src/EventLog/Store/History.antt =====
-- The queries of src/event_log/mod.rs against the abstract log, the list of the events appended.
use vai.Common.{
  ℕ, suc, ◌≡◌, refl, ap, ◌∙◌, Bool, true, ◌&&◌, Option, some, none, inl, inr, List, [], ◌∷◌, String,
  ◌==◌, nat_eq, leb, Bool-cases, keep, length, All,
}
use vai.Common.Eq.{string_equality}
use vai.EventLog.{Event, EventKind, event_type, workspace_id, entity_id}
use vai.EventLog.Store.{
  EventLog, IndexRow, ok, opened, index_row, same_id, same_text, read_first, query_by_type,
  query_by_workspace, query_by_entity, query_by_time_range, all, count, get_by_id,
}
use vai.EventLog.Store.Chunks.{Chunk, rows_of, events_of}
use vai.EventLog.Store.Reads.{IsReadable, Stored, layout-Stored, query_index-keep}
use vai.EventLog.Store.Replay.{laid_out, IsOrdered, append_all, numbered, append_all-IsRun}

abbrev pub first : List Event → Option Event
first [] = none
first (e ∷ es) = some e

keep_all : (es : List Event) → keep (λ e. true) es ≡ es
keep_all [] = refl
keep_all (e ∷ es) = ap (λ (l : List Event). e ∷ l) (keep_all es)

module _ (to_json : Event → List ℕ) (from_json : List ℕ → Option Event) where
  -- What every query answers on a log that stands for these events.
  pub record Answers (log : EventLog) (es : List Event) : Type 0 where
    pub by_type :
        (type : String)
        → query_by_type to_json from_json type log ≡ ok (keep (λ e. event_type e.kind == type) es)
    pub by_workspace :
        (w : ℕ)
        → query_by_workspace to_json from_json w log
          ≡ ok (keep (λ e. same_id (workspace_id e.kind) w) es)
    pub by_entity :
        (entity : String)
        → query_by_entity to_json from_json entity log
          ≡ ok (keep (λ e. same_text (entity_id e.kind) entity) es)
    pub by_time :
        (start end : ℕ)
        → query_by_time_range to_json from_json start end log
          ≡ ok (keep (λ e. leb start e.timestamp && leb e.timestamp end) es)
    pub by_id :
        (id : ℕ) → get_by_id to_json from_json id log ≡ ok (first (keep (λ e. nat_eq e.id id) es))
    pub every : all to_json from_json log ≡ ok es
    pub counted : count log ≡ length es

  read_first-keep :
      (log : EventLog) (id : ℕ) (rs : List IndexRow) (es : List Event)
      → Stored to_json from_json log.segments rs es
      → read_first to_json from_json log.segments (keep (λ r. nat_eq r.id id) rs)
        ≡ ok (first (keep (λ e. nat_eq e.id id) es))
  read_first-keep log id [] [] s = refl
  read_first-keep log id [] (e ∷ es) s = absurd s
  read_first-keep log id (r ∷ rs) [] s = absurd s
  read_first-keep log id (r ∷ rs) (e ∷ es) s =
      let same : nat_eq r.id id ≡ nat_eq e.id id = ap (λ (q : IndexRow). nat_eq q.id id) s.0 in
      let rest = read_first-keep log id rs es s.2 in
      elim (Bool-cases (nat_eq e.id id)) [
        | inl b ↦ rw (same ∙ b) (rw b (rw s.1 refl))
        | inr b ↦ rw (same ∙ b) (rw b rest)
      ]

  length-Stored :
      (log : EventLog) (rs : List IndexRow) (es : List Event)
      → Stored to_json from_json log.segments rs es
      → length rs ≡ length es
  length-Stored log [] [] s = refl
  length-Stored log [] (e ∷ es) s = absurd s
  length-Stored log (r ∷ rs) [] s = absurd s
  length-Stored log (r ∷ rs) (e ∷ es) s = ap suc (length-Stored log rs es s.2)

  laid_out-Answers :
      (cs : List Chunk)
      → IsOrdered to_json from_json cs
      → All (IsReadable to_json from_json) (events_of to_json cs)
      → Answers (laid_out to_json from_json cs) (events_of to_json cs)
  laid_out-Answers cs o a =
      let log = laid_out to_json from_json cs in
      let es = events_of to_json cs in
      let stored = layout-Stored to_json from_json cs o.0 a in
      let answer =
        λ (wanted : IndexRow → Bool) (is_wanted : Event → Bool)
            (w : (e : Event) (n offset : ℕ) → wanted (index_row e n offset) ≡ is_wanted e).
          query_index-keep to_json from_json log wanted is_wanted es w o.1 stored in
      record {
        by_type = λ type. answer (λ r. r.event_type == type) _ (λ e n offset. refl);
        by_workspace = λ w. answer (λ r. same_id r.workspace_id w) _ (λ e n offset. refl);
        by_entity = λ s. answer (λ r. same_text r.entity_id s) _ (λ e n offset. refl);
        by_time = λ start end.
            answer (λ r. leb start r.timestamp && leb r.timestamp end) _ (λ e n offset. refl);
        by_id = λ id. unfold get_by_id in read_first-keep log id log.events es stored;
        every = answer (λ r. true) (λ e. true) (λ e n offset. refl) ∙ ap ok (keep_all es);
        counted = length-Stored log (rows_of to_json cs) es stored;
      }

  -- After any run of `append`, from an empty log, every query answers as the list of the events appended
  -- does, numbered from 1 in the order of the calls: `all` is that list, `count` its length, the queries by
  -- type, by workspace, by entity and by time its filters, and `get_by_id` its first event with the id. The
  -- codec is taken to read back the events of the run.
  pub append_all-Answers :
      (calls : List (EventKind × ℕ))
      → All (IsReadable to_json from_json) (numbered 1 calls)
      → Answers (append_all to_json from_json calls opened) (numbered 1 calls)
  append_all-Answers calls a =
      let (ds, r) = append_all-IsRun to_json from_json calls [] (tt, tt) in
      let readable = rw (← r.holds) at a in
      rw r.ends (rw (← r.holds) (laid_out-Answers ds r.ordered readable))
