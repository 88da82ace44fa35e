-- ===== src/System/AuditChain/Examples.antt =====
-- A log of two events under a digest that only keeps its text, and the theorems at it.
use srms.Prelude.{ℕ, ◌≡◌, ◌⊎◌, refl, sym, ap, none, some, List, [], ◌∷◌, arith}
use srms.Prelude.Texts.{codes}
use srms.Prelude.Decimal.{decimal, digits}
use srms.Prelude.Fallible.{ok}
use srms.System.StableJson.{JsonLike, string, number, object, field, no_fields, stable_json}
use srms.System.AuditChain.{
  SecurityAuditChainEvent, SecurityAuditLog, AuditTables, chained_log, hash_payload,
  hash_security_audit_record,
}
use srms.System.StableJson.Quoting.{first}
use srms.System.StableJson.Order.{same_object, swap_fields, stable_json_reordered}
use srms.System.AuditChain.Kept.{IsAudited, Records, append_each, append_each-IsAudited}
use srms.System.AuditChain.Tamper.{AgreeFrom, Collision, chains_agree}

abbrev digest : List ℕ → List ℕ
digest text = text

abbrev time_text : ℕ → List ℕ
time_text t = decimal t

abbrev event : ℕ → SecurityAuditChainEvent
event n = record {
  event_type = codes "VOID";
  entity_type = codes "CONTRACT";
  entity_id = some n;
  operator_id = 3;
  event_data = object (field (codes "amount") (string (codes "12.50")) no_fields);
  reason = none;
  occurred_at = none;
}

abbrev tables : AuditTables
tables = record { logs = []; heads = record { id = 1; latest_record_hash = none } ∷ [] }

start : IsAudited digest time_text tables
start = record {
  head = record { id = 1; latest_record_hash = none };
  one_head = refl;
  is_chain = tt;
}

abbrev events : List (ℕ × SecurityAuditChainEvent)
events = (100, event 7) ∷ (200, event 8) ∷ []

append_each-IsAudited_example :
    (s' : AuditTables) × (append_each digest time_text events tables ≡ ok s')
    × IsAudited digest time_text s'
    × Records digest time_text events tables.logs s'.logs
append_each-IsAudited_example = append_each-IsAudited digest time_text events tables start

abbrev amounts : JsonLike
amounts = object (
    field (codes "paid") (number (codes "12.5"))
      (field (codes "due") (number (codes "20")) no_fields))

-- The same object with its keys in the other order.
abbrev swapped : JsonLike
swapped = object (
    field (codes "due") (number (codes "20"))
      (field (codes "paid") (number (codes "12.5")) no_fields))

abbrev row : JsonLike → SecurityAuditLog
row json = chained_log digest time_text 100 (record (event 7) { event_data = json }) none

abbrev hash_of : JsonLike → List ℕ
hash_of json = hash_security_audit_record digest time_text (row json).input

same_hash : hash_of amounts ≡ hash_of swapped
unfolding hash_payload stable_json digits
same_hash = refl

chains_agree_example :
    AgreeFrom digest time_text (some (hash_of amounts)) (row amounts ∷ []) (row swapped ∷ [])
    ⊎ Collision digest time_text (row amounts ∷ []) (row swapped ∷ [])
chains_agree_example =
    chains_agree digest time_text (some (hash_of amounts)) (row amounts ∷ []) (row swapped ∷ [])
      (refl, refl, tt) (ap some (sym same_hash), same_hash, tt) ((refl, (refl, tt)), tt)
      ((refl, (refl, tt)), tt)

stable_json_reordered_example : stable_json amounts ≡ stable_json swapped
stable_json_reordered_example = stable_json_reordered (
    same_object (
      swap_fields (codes "paid") (codes "due") (number (codes "12.5")) (number (codes "20"))
        no_fields (λ h. omega (arith, ap first h))))
