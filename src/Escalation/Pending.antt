-- ===== src/Escalation/Pending.antt =====
-- The number of pending escalations that src/escalation/mod.rs reports.
use vai.Common.{
  ℕ, suc, ◌≡◌, refl, sym, ap, ◌∙◌, inl, inr, none, some, Bool, true, false, List, [], ◌∷◌, ◌++◌,
  String, ◌==◌, keep, length, any, nat_eq, nat_eq_iff, arith, Bool-cases,
}
use vai.Common.Eq.{string_equality}
use vai.Common.Table.{find_key, update_key, find_key-append}
use vai.Issue.{unwrap_or}
use vai.Escalation.{
  ResolutionOption, pending, escalation_status_from_db_str, severity_from_db_str, severity_as_str,
  type_from_db_str-type_as_str, severity_from_db_str-severity_as_str, merge_conflict, high,
}
use vai.Escalation.Store.{
  EscalationRow, NewEscalation, new_escalation, new_escalation_row, EscalationWorld, answer,
  escalation_key, row_to_escalation, read_escalation, get_escalation, create_escalation,
  resolved_row, resolve_escalation, count_pending,
}

abbrev is_pending : EscalationRow → Bool
is_pending r = r.status == "pending"

-- No row has the id.
abbrev pub has_id : ℕ → List EscalationRow → Bool
has_id id rows = any (λ (r : EscalationRow). nat_eq r.id id) rows

-- The id is a primary key.
abbrev pub IsKeyed : List EscalationRow → Type 0
IsKeyed [] = Unit
IsKeyed (r ∷ rows) = (has_id r.id rows ≡ false) × IsKeyed rows

update_key-absent :
    (id : ℕ) (set : EscalationRow → EscalationRow) (rows : List EscalationRow)
    → has_id id rows ≡ false
    → update_key escalation_key id set rows ≡ rows
unfolding update_key
update_key-absent id set [] h = refl
update_key-absent id set (r ∷ rows) h = ground (arith, update_key-absent id set rows)

count-update_key :
    (id now : ℕ) (option : ResolutionOption) (name : String) (rows : List EscalationRow)
    (r : EscalationRow)
    → IsKeyed rows
    → find_key escalation_key id rows ≡ some r
    → is_pending r ≡ true
    → length (keep is_pending rows)
      ≡ suc (
          length
            (keep is_pending (update_key escalation_key id (resolved_row option name now) rows)))
unfolding find_key update_key
count-update_key id now option name [] r k f p = cc
count-update_key id now option name (x ∷ rows) r k f p = elim (Bool-cases (nat_eq x.id id)) [
  | inl b ↦
      let e : x ≡ r = ground (arith, b, f) in
      let same : x.id ≡ id = ground (arith, b, nat_eq_iff x.id id) in
      let absent : has_id id rows ≡ false = ap (λ i. has_id i rows) (sym same) ∙ k.0 in
      let px : is_pending x ≡ true = ap is_pending e ∙ p in
      rw b (rw px (rw (update_key-absent id (resolved_row option name now) rows absent) refl))
  | inr b ↦ ground (arith, b, f, count-update_key id now option name rows r k.1)
]

-- Resolving a pending escalation takes exactly one from the count of pending ones.
pub count_pending-resolve_escalation :
    (id now : ℕ) (option : ResolutionOption) (name : String) (w : EscalationWorld)
    (r : EscalationRow)
    → IsKeyed w.rows
    → find_key escalation_key id w.rows ≡ some r
    → r.status ≡ "pending"
    → count_pending w ≡ suc (count_pending (resolve_escalation id option name now w).0)
unfolding count_pending resolve_escalation
count_pending-resolve_escalation id now option name w r k f p =
    let reads : get_escalation id w ≡ answer (row_to_escalation r) =
      unfold get_escalation in ap (read_escalation id) f in
    let open_still : (row_to_escalation r).status ≡ pending =
      unfold row_to_escalation escalation_status_from_db_str in rw p refl in
    let is : is_pending r ≡ true = rw p refl in
    let out : (resolve_escalation id option name now w).0.rows
        ≡ update_key escalation_key id (resolved_row option name now) w.rows =
      unfold resolve_escalation in rw reads (rw open_still refl) in
    count-update_key id now option name w.rows r k f is
    ∙ ap (λ rows. suc (length (keep is_pending rows))) (sym out)

length-keep_append :
    (rows : List EscalationRow) (r : EscalationRow)
    → is_pending r ≡ true
    → length (keep is_pending (rows ++ r ∷ [])) ≡ suc (length (keep is_pending rows))
length-keep_append [] r h = rw h refl
length-keep_append (x ∷ rows) r h = elim (Bool-cases (is_pending x)) [
  | inl b ↦ rw b (ap suc (length-keep_append rows r h))
  | inr b ↦ rw b (length-keep_append rows r h)
]

new_row_read : (n : NewEscalation) → row_to_escalation (new_escalation_row n) ≡ new_escalation n
unfolding row_to_escalation escalation_status_from_db_str
new_row_read n =
    ap
      (λ t. record (new_escalation n) {
        escalation_type = unwrap_or merge_conflict t;
        severity = unwrap_or high (severity_from_db_str (severity_as_str n.severity));
      })
      (type_from_db_str-type_as_str n.kind)
    ∙ ap (λ s. record (new_escalation n) { severity = unwrap_or high s })
        (severity_from_db_str-severity_as_str n.severity)

-- A new escalation is read back as it was returned, pending and with the options of its type, and adds one
-- to the count of pending ones.
pub create_escalation-reads_back :
    (n : NewEscalation) (w : EscalationWorld)
    → find_key escalation_key n.id w.rows ≡ none
    → (get_escalation n.id (create_escalation n w).0 ≡ answer (create_escalation n w).1)
      × (count_pending (create_escalation n w).0 ≡ suc (count_pending w))
unfolding create_escalation count_pending
create_escalation-reads_back n w f =
    let found : find_key escalation_key n.id (w.rows ++ new_escalation_row n ∷ [])
        ≡ some (new_escalation_row n) =
      ground (
        arith,
        find_key-append escalation_key n.id w.rows (new_escalation_row n),
        f,
        nat_eq_iff n.id n.id,
      ) in
    (
      unfold get_escalation in ap (read_escalation n.id) found ∙ ap answer (new_row_read n),
      length-keep_append w.rows (new_escalation_row n) refl,
    )
