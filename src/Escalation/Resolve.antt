-- ===== src/Escalation/Resolve.antt =====
-- What the operations of src/escalation/mod.rs do to an escalation and to the number of pending ones.
use vai.Common.{ℕ, ◌≡◌, refl, ap, ◌∙◌, inl, inr, some, String, nat_eq_iff, arith, Option-cases}
use vai.Common.Eq.{string_equality}
use vai.Common.Table.{find_key, update_key, find_key-update_key}
use vai.Escalation.{
  ResolutionOption, pending, resolved, Escalation, option_from_db_str-option_as_str,
  escalation_status_from_db_str,
}
use vai.Escalation.Store.{
  EscalationRow, EscalationWorld, answer, failed, already_resolved, escalation_key,
  row_to_escalation, read_escalation, get_escalation, resolved_row, resolve_in, resolve_escalation,
}

abbrev pub as_resolved : ResolutionOption → String → ℕ → Escalation → Escalation
as_resolved option resolved_by now e = record e {
  status = resolved;
  resolution = some option;
  resolved_by = some resolved_by;
  resolved_at = some now;
}

row_to_escalation-resolved_row :
    (option : ResolutionOption) (resolved_by : String) (now : ℕ) (r : EscalationRow)
    → row_to_escalation (resolved_row option resolved_by now r)
      ≡ as_resolved option resolved_by now (row_to_escalation r)
unfolding row_to_escalation escalation_status_from_db_str
row_to_escalation-resolved_row option resolved_by now r =
    ap
      (λ o. record (row_to_escalation r) {
        status = resolved;
        resolution = o;
        resolved_by = some resolved_by;
        resolved_at = some now;
      })
      (option_from_db_str-option_as_str option)

row_of_answer :
    (id : ℕ) (w : EscalationWorld) (e : Escalation)
    → get_escalation id w ≡ answer e
    → (r : EscalationRow) × (find_key escalation_key id w.rows ≡ some r) × (row_to_escalation r ≡ e)
unfolding get_escalation
row_of_answer id w e h = elim (Option-cases (find_key escalation_key id w.rows)) [
  | inl p ↦ ground (arith, p, h)
  | inr (r, p) ↦ (r, p, ground (arith, p, h))
]

-- A pending escalation is resolved with the option that was given: the answer is the escalation with the
-- option, the name and the time, and it is what is read from then on.
pub resolve_escalation-reads_back :
    (id now : ℕ) (option : ResolutionOption) (resolved_by : String) (w : EscalationWorld)
    (e : Escalation)
    → get_escalation id w ≡ answer e
    → e.status ≡ pending
    → ((resolve_escalation id option resolved_by now w).1
        ≡ answer (as_resolved option resolved_by now e))
      × (get_escalation id (resolve_escalation id option resolved_by now w).0
          ≡ answer (as_resolved option resolved_by now e))
unfolding resolve_escalation
resolve_escalation-reads_back id now option resolved_by w e h p =
    let (r, f, k) = row_of_answer id w e h in
    let found =
      find_key-update_key escalation_key id id (resolved_row option resolved_by now) w.rows
        (λ x. refl) in
    let here : find_key escalation_key id
          (update_key escalation_key id (resolved_row option resolved_by now) w.rows)
        ≡ some (resolved_row option resolved_by now r) =
      ground (arith, found, f, nat_eq_iff id id) in
    let same : row_to_escalation (resolved_row option resolved_by now r)
        ≡ as_resolved option resolved_by now e =
      row_to_escalation-resolved_row option resolved_by now r
      ∙ ap (as_resolved option resolved_by now) k in
    rw h (rw p (refl, unfold get_escalation in ap (read_escalation id) here ∙ ap answer same))

-- Once a pending escalation is resolved, every further attempt, with any option, is refused and changes
-- neither the table nor the event log.
pub resolve_escalation-once :
    (id now : ℕ) (option : ResolutionOption) (resolved_by : String) (w : EscalationWorld)
    (e : Escalation) (later : ℕ) (other : ResolutionOption) (someone : String)
    → get_escalation id w ≡ answer e
    → e.status ≡ pending
    → resolve_escalation id other someone later (resolve_escalation id option resolved_by now w).0
      ≡ ((resolve_escalation id option resolved_by now w).0, failed (already_resolved id))
resolve_escalation-once id now option resolved_by w e later other someone h p =
    let after = (resolve_escalation id option resolved_by now w).0 in
    let seen = (resolve_escalation-reads_back id now option resolved_by w e h p).1 in
    unfold resolve_escalation in ap (resolve_in id other someone later after) seen
