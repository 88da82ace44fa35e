-- ===== src/System/AuditChain.antt =====
-- The chain of the security audit log: backend/src/system/security-audit-chain.service.ts.
-- The rows of the log stand in the order of their ids, the latest first.
pub mod Kept
pub mod Payload
pub mod Tamper
mod Examples
use srms.Prelude.{
  ℕ, ◌==◌, Bool, true, false, not, if◌then◌else◌, Option, none, some, List, [], ◌∷◌, filter, length,
}
use srms.Prelude.Texts.{codes}
use srms.Prelude.Decimal.{decimal}
use srms.Prelude.Fallible.{Result, ok, err}
use srms.Payments.Store.{update_where}
use srms.System.StableJson.{
  JsonLike, null_value, number, string, object, no_fields, field, stable_json,
}

pub record SecurityAuditChainEvent : Type 0 where
  pub event_type : List ℕ
  pub entity_type : List ℕ
  pub entity_id : Option ℕ
  pub operator_id : ℕ
  pub event_data : JsonLike
  pub reason : Option (List ℕ)
  pub occurred_at : Option ℕ

pub record SecurityAuditHashInput : Type 0 where
  pub event_type : List ℕ
  pub entity_type : List ℕ
  pub entity_id : Option ℕ
  pub operator_id : ℕ
  pub event_data : JsonLike
  pub reason : Option (List ℕ)
  pub occurred_at : ℕ
  pub previous_hash : Option (List ℕ)

-- A row, whose columns but the hash are those of the hash's input.
pub record SecurityAuditLog : Type 0 where
  pub input : SecurityAuditHashInput
  pub record_hash : Option (List ℕ)

pub record SecurityAuditChainHead : Type 0 where
  pub id : ℕ
  pub latest_record_hash : Option (List ℕ)

pub record AuditTables : Type 0 where
  pub logs : List SecurityAuditLog
  pub heads : List SecurityAuditChainHead

pub data AuditError : Type 0 where
  head_missing : AuditError

abbrev pub json_number : Option ℕ → JsonLike
json_number none = null_value
json_number (some n) = number (decimal n)

abbrev pub json_text : Option (List ℕ) → JsonLike
json_text none = null_value
json_text (some text) = string text

abbrev pub is_head : SecurityAuditChainHead → Bool
is_head h = h.id == 1

pub record Appended : Type 0 where
  pub tables : AuditTables
  pub created : SecurityAuditLog

abbrev pub hash_input : ℕ → SecurityAuditChainEvent → Option (List ℕ) → SecurityAuditHashInput
hash_input now event previous_hash = record {
  event_type = event.event_type;
  entity_type = event.entity_type;
  entity_id = event.entity_id;
  operator_id = event.operator_id;
  event_data = event.event_data;
  reason = event.reason;
  occurred_at = elim event.occurred_at [ none ↦ now | some t ↦ t ];
  previous_hash = previous_hash;
}

-- The digest, `sha256` in hexadecimal, is the library's and the text of a time the runtime's.
module _ (sha256 : List ℕ → List ℕ) (to_iso_string : ℕ → List ℕ) where
  unfoldable pub hash_payload : SecurityAuditHashInput → List ℕ
  hash_payload input = stable_json (
      object (
        field (codes "eventType") (string input.event_type) (
          field (codes "entityType") (string input.entity_type) (
            field (codes "entityId") (json_number input.entity_id) (
              field (codes "operatorId") (number (decimal input.operator_id)) (
                field (codes "eventData") input.event_data (
                  field (codes "reason") (json_text input.reason) (
                    field (codes "occurredAt") (string (to_iso_string input.occurred_at)) (
                      field (codes "previousHash") (json_text input.previous_hash)
                        no_fields)))))))))

  abbrev pub hash_security_audit_record : SecurityAuditHashInput → List ℕ
  hash_security_audit_record input = sha256 (hash_payload input)

  abbrev pub chained_log : ℕ → SecurityAuditChainEvent → Option (List ℕ) → SecurityAuditLog
  chained_log now event previous_hash =
      let input = hash_input now event previous_hash in
      record { input = input; record_hash = some (hash_security_audit_record input) }

  unfoldable pub append_in_transaction :
      ℕ → SecurityAuditChainEvent → AuditTables → Result AuditError Appended
  append_in_transaction now event s = elim (filter is_head s.heads) [
    | [] ↦ err head_missing
    | head ∷ others ↦
        let created = chained_log now event head.latest_record_hash in
        if not (length (head ∷ others) == 1)
        then err head_missing
        else ok (record {
          tables = record {
            logs = created ∷ s.logs;
            heads =
                update_where is_head (λ h. record h { latest_record_hash = created.record_hash })
                  s.heads;
          };
          created = created;
        })
  ]
