-- ===== src/System/AuditChain/Payload.antt =====
-- The text that `hashSecurityAuditRecord` of backend/src/system/security-audit-chain.service.ts digests,
-- with its columns read back.
use srms.Prelude.{
  ℕ, suc, ◌≡◌, refl, sym, ap, ◌∙◌, true, false, Option, none, some, List, [], ◌∷◌, ◌++◌, map,
  length, all, arith, All,
}
use mathlib.Core.List.{append_assoc}
use srms.Prelude.Texts.{codes}
use srms.Prelude.Decimal.{decimal, decimal-injective, all-digits}
use srms.System.StableJson.{JsonLike, number, string, Entry, quote, stable_json, print_entry, join}
use srms.System.StableJson.Reading.{IsJson, is_number_char, starts_after, stable_json-split}
use srms.System.StableJson.Quoting.{quote-injective, first, tail}
use srms.System.AuditChain.{SecurityAuditHashInput, json_number, json_text, hash_payload}

abbrev column : List ℕ → JsonLike → Entry
column key value = record { key = key; printed = stable_json value }

-- An object's text from the brace or the comma before a field on, with a comma for the brace.
abbrev fields_text : List Entry → List ℕ
fields_text [] = b'}' ∷ []
fields_text (e ∷ es) = b',' ∷ (quote e.key ++ b':' ∷ (e.printed ++ fields_text es))

join-fields :
    (e : Entry) (es : List Entry)
    → b',' ∷ (join (map print_entry (e ∷ es)) ++ b'}' ∷ []) ≡ fields_text (e ∷ es)
join-fields e [] = ap (λ u. b',' ∷ u) (append_assoc (quote e.key) (b':' ∷ e.printed) (b'}' ∷ []))
join-fields e (x ∷ es) =
    ap (λ u. b',' ∷ u)
      (append_assoc (print_entry e) (b',' ∷ join (map print_entry (x ∷ es))) (b'}' ∷ [])
        ∙ append_assoc (quote e.key) (b':' ∷ e.printed) _
        ∙ ap (λ u. quote e.key ++ b':' ∷ (e.printed ++ u)) (join-fields x es))

-- The keys of a payload in their order, with the values of a row.
abbrev keys : List (List ℕ)
keys =
    codes "entityId"
    ∷ codes "entityType"
    ∷ codes "eventData"
    ∷ codes "eventType"
    ∷ codes "occurredAt"
    ∷ codes "operatorId"
    ∷ codes "previousHash"
    ∷ codes "reason"
    ∷ []

abbrev values : (ℕ → List ℕ) → SecurityAuditHashInput → List JsonLike
values to_iso_string input =
    json_number input.entity_id
    ∷ string input.entity_type
    ∷ input.event_data
    ∷ string input.event_type
    ∷ string (to_iso_string input.occurred_at)
    ∷ number (decimal input.operator_id)
    ∷ json_text input.previous_hash
    ∷ json_text input.reason
    ∷ []

abbrev columns : List (List ℕ) → List JsonLike → List Entry
columns (key ∷ keys) (value ∷ values) = column key value ∷ columns keys values
columns _ _ = []

abbrev rest_entries : List Entry → List Entry
rest_entries [] = []
rest_entries (e ∷ es) = es

hash_payload-columns :
    (sha256 : List ℕ → List ℕ) (to_iso_string : ℕ → List ℕ) (input : SecurityAuditHashInput)
    → b',' ∷ tail (hash_payload sha256 to_iso_string input)
      ≡ fields_text (columns keys (values to_iso_string input))
unfolding hash_payload stable_json
hash_payload-columns sha256 to_iso_string input =
    join-fields (column (codes "entityId") (json_number input.entity_id))
      (rest_entries (columns keys (values to_iso_string input)))

append_cancel_left : (s t u : List ℕ) → s ++ t ≡ s ++ u → t ≡ u
append_cancel_left [] t u h = h
append_cancel_left (c ∷ s) t u h = append_cancel_left s t u (ap tail h)

fields_text-starts : (es : List Entry) → starts_after (fields_text es) ≡ true
fields_text-starts [] = refl
fields_text-starts (e ∷ es) = refl

abbrev AreSame : List JsonLike → List JsonLike → Type 0
AreSame [] [] = Unit
AreSame (v ∷ vs) (w ∷ ws) = (stable_json v ≡ stable_json w) × AreSame vs ws
AreSame _ _ = ⊥

columns-AreSame :
    (ks : List (List ℕ)) (vs ws : List JsonLike)
    → length vs ≡ length ks
    → length ws ≡ length ks
    → All IsJson vs
    → All IsJson ws
    → fields_text (columns ks vs) ≡ fields_text (columns ks ws)
    → AreSame vs ws
columns-AreSame [] [] [] lv lw jv jw h = tt
columns-AreSame (k ∷ ks) (v ∷ vs) (w ∷ ws) lv lw jv jw h =
    let after_key =
      append_cancel_left (quote k) (b':' ∷ (stable_json v ++ fields_text (columns ks vs)))
        (b':' ∷ (stable_json w ++ fields_text (columns ks ws))) (ap tail h) in
    let (same, rest) =
      stable_json-split v w (fields_text (columns ks vs)) (fields_text (columns ks ws)) jv.0 jw.0
        (fields_text-starts (columns ks vs)) (fields_text-starts (columns ks ws))
        (ap tail after_key) in
    (same, columns-AreSame ks vs ws (omega (arith, lv)) (omega (arith, lw)) jv.1 jw.1 rest)
columns-AreSame [] (v ∷ vs) ws lv lw jv jw h = absurd (omega (arith, lv))
columns-AreSame [] [] (w ∷ ws) lv lw jv jw h = absurd (omega (arith, lw))
columns-AreSame (k ∷ ks) [] ws lv lw jv jw h = absurd (omega (arith, lv))
columns-AreSame (k ∷ ks) (v ∷ vs) [] lv lw jv jw h = absurd (omega (arith, lw))

-- Texts of values that only equal values have.
not_digit : all is_number_char (codes "null") ≡ false
not_digit = refl

decimal-chars : (n : ℕ) → all is_number_char (decimal n) ≡ true
decimal-chars n = all-digits is_number_char (λ d h. ground (arith, h)) (suc n) n [] refl

json_number-IsJson : (n : Option ℕ) → IsJson (json_number n)
json_number-IsJson none = tt
json_number-IsJson (some n) = decimal-chars n

json_text-IsJson : (t : Option (List ℕ)) → IsJson (json_text t)
json_text-IsJson none = tt
json_text-IsJson (some t) = tt

null-decimal : (n : ℕ) → ¬ (codes "null" ≡ decimal n)
null-decimal n h =
    let clash : false ≡ true = ap (all is_number_char) h ∙ decimal-chars n in absurd (cc)

json_number-same :
    (m n : Option ℕ) → stable_json (json_number m) ≡ stable_json (json_number n) → m ≡ n
unfolding stable_json
json_number-same none none h = refl
json_number-same none (some n) h = absurd (null-decimal n h)
json_number-same (some m) none h = absurd (null-decimal m (sym h))
json_number-same (some m) (some n) h = ap some (decimal-injective m n h)

json_text-same :
    (s t : Option (List ℕ)) → stable_json (json_text s) ≡ stable_json (json_text t) → s ≡ t
unfolding stable_json
json_text-same none none h = refl
json_text-same none (some t) h = absurd (omega (arith, ap first h))
json_text-same (some s) none h = absurd (omega (arith, ap first h))
json_text-same (some s) (some t) h = ap some (quote-injective s t h)

module _ (sha256 : List ℕ → List ℕ) (to_iso_string : ℕ → List ℕ) where
  -- Rows with the same columns; of the event's data and the time, as they are printed.
  pub record SameInput (a b : SecurityAuditHashInput) : Type 0 where
    pub same_event_type : a.event_type ≡ b.event_type
    pub same_entity_type : a.entity_type ≡ b.entity_type
    pub same_entity_id : a.entity_id ≡ b.entity_id
    pub same_operator : a.operator_id ≡ b.operator_id
    pub same_data : stable_json a.event_data ≡ stable_json b.event_data
    pub same_reason : a.reason ≡ b.reason
    pub same_time : to_iso_string a.occurred_at ≡ to_iso_string b.occurred_at
    pub same_previous : a.previous_hash ≡ b.previous_hash

  values-IsJson :
      (a : SecurityAuditHashInput) → IsJson a.event_data → All IsJson (values to_iso_string a)
  values-IsJson a ja =
      let texts : All IsJson (json_text a.previous_hash ∷ json_text a.reason ∷ []) =
        (json_text-IsJson a.previous_hash, (json_text-IsJson a.reason, tt)) in
      (json_number-IsJson a.entity_id, (tt, (ja, (tt, (tt, (decimal-chars a.operator_id, texts))))))

  pub hash_payload-SameInput :
      (a b : SecurityAuditHashInput)
      → IsJson a.event_data
      → IsJson b.event_data
      → hash_payload sha256 to_iso_string a ≡ hash_payload sha256 to_iso_string b
      → SameInput a b
  unfolding stable_json
  hash_payload-SameInput a b ja jb h =
      let same =
        columns-AreSame keys (values to_iso_string a) (values to_iso_string b) refl refl
          (values-IsJson a ja) (values-IsJson b jb)
          (sym (hash_payload-columns sha256 to_iso_string a)
            ∙ ap (λ u. b',' ∷ tail u) h
            ∙ hash_payload-columns sha256 to_iso_string b) in
      let (
        entity_id,
        (entity_type, (event_data, (event_type, (occurred, (operator, (previous, (reason, u))))))),
      ) =
        same in
      record {
        same_event_type = quote-injective a.event_type b.event_type event_type;
        same_entity_type = quote-injective a.entity_type b.entity_type entity_type;
        same_entity_id = json_number-same a.entity_id b.entity_id entity_id;
        same_operator = decimal-injective a.operator_id b.operator_id operator;
        same_data = event_data;
        same_reason = json_text-same a.reason b.reason reason;
        same_time =
            quote-injective (to_iso_string a.occurred_at) (to_iso_string b.occurred_at) occurred;
        same_previous = json_text-same a.previous_hash b.previous_hash previous;
      }
