-- ===== src/Escalation/Tests.antt =====
-- Runs of the escalation store, and the instances of its theorems.
use vai.Common.{◌≡◌, refl, none, some, [], ◌∷◌}
use vai.Common.Table.{find_key}
use vai.Escalation.{
  merge_conflict, critical, keep_agent_b, escalation_status_from_db_str, type_from_db_str,
  severity_from_db_str,
}
use vai.Escalation.Store.{
  NewEscalation, new_escalation, new_escalation_row, EscalationWorld, answer, escalation_key,
  get_escalation, resolve_escalation, row_to_escalation,
}
use vai.Escalation.Resolve.{as_resolved, resolve_escalation-reads_back}

abbrev first : NewEscalation
first = record {
  id = 1;
  now = 10;
  kind = merge_conflict;
  severity = critical;
  summary = "both rename login";
  intents = "auth" ∷ "sessions" ∷ [];
  agents = [];
  workspace_ids = 4 ∷ 5 ∷ [];
  affected_entities = "login" ∷ [];
  conflicts = [];
}

abbrev empty_world : EscalationWorld
empty_world = record { rows = []; events = [] }

abbrev one : EscalationWorld
one = record { rows = new_escalation_row first ∷ []; events = [] }

nothing_yet : find_key escalation_key 1 empty_world.rows ≡ none
unfolding find_key
nothing_yet = refl

one_read : get_escalation 1 one ≡ answer (new_escalation first)
unfolding get_escalation find_key row_to_escalation escalation_status_from_db_str type_from_db_str
    severity_from_db_str
one_read = refl

resolve_escalation-reads_back_example :
    ((resolve_escalation 1 keep_agent_b "ann" 20 one).1
      ≡ answer (as_resolved keep_agent_b "ann" 20 (new_escalation first)))
    × (get_escalation 1 (resolve_escalation 1 keep_agent_b "ann" 20 one).0
        ≡ answer (as_resolved keep_agent_b "ann" 20 (new_escalation first)))
resolve_escalation-reads_back_example =
    resolve_escalation-reads_back 1 20 keep_agent_b "ann" one (new_escalation first) one_read refl

one_found : find_key escalation_key 1 one.rows ≡ some (new_escalation_row first)
unfolding find_key
one_found = refl
