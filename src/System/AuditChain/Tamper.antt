-- ===== src/System/AuditChain/Tamper.antt =====
-- Two logs under the same head of the chain of
-- backend/src/system/security-audit-chain.service.ts.
use srms.Prelude.{
  ℕ, ◌==◌, ◌≡◌, ◌≢◌, ◌⊎◌, refl, sym, ap, ◌∙◌, Option, none, some, List, [], ◌∷◌, arith, All,
  Bool-cases, inl, inr,
}
use srms.System.StableJson.Reading.{IsJson}
use srms.System.StableJson.Quoting.{first, tail}
use srms.System.AuditChain.{SecurityAuditLog, hash_payload, hash_security_audit_record}
use srms.System.AuditChain.Kept.{IsChain}
use srms.System.AuditChain.Payload.{SameInput, hash_payload-SameInput}

text_cases : (s t : List ℕ) → (s ≡ t) ⊎ (s ≢ t)
text_cases [] [] = inl refl
text_cases [] (d ∷ t) = inr (λ h. cc)
text_cases (c ∷ s) [] = inr (λ h. cc)
text_cases (c ∷ s) (d ∷ t) = elim (Bool-cases (c == d)) [
  | inl same ↦ elim (text_cases s t) [
    | inl rest ↦ let head : c ≡ d = ground (arith, same) in inl (rw (head, rest) refl)
    | inr differ ↦ inr (λ h. differ (ap tail h))
  ]
  | inr differ ↦ inr (λ h. let head : c ≡ d = ap first h in absurd (ground (arith, differ, head)))
]

module _ (sha256 : List ℕ → List ℕ) (to_iso_string : ℕ → List ℕ) where
  abbrev pub IsIn : SecurityAuditLog → List SecurityAuditLog → Type 0
  IsIn l [] = ⊥
  IsIn l (x ∷ xs) = (l ≡ x) ⊎ IsIn l xs

  -- A row of each log, whose texts differ and have one digest.
  pub record Collision (ls ls' : List SecurityAuditLog) : Type 0 where
    pub left : SecurityAuditLog
    pub right : SecurityAuditLog
    pub left_in : IsIn left ls
    pub right_in : IsIn right ls'
    pub differ :
        hash_payload sha256 to_iso_string left.input ≢ hash_payload sha256 to_iso_string right.input
    pub collide :
        hash_security_audit_record sha256 to_iso_string left.input
        ≡ hash_security_audit_record sha256 to_iso_string right.input

  -- From a hash down to the first row of the chain, two logs have the same rows.
  abbrev pub AgreeFrom : Option (List ℕ) → List SecurityAuditLog → List SecurityAuditLog → Type 0
  AgreeFrom none ls ls' = Unit
  AgreeFrom (some h) (l ∷ ls) (l' ∷ ls') =
      SameInput sha256 to_iso_string l.input l'.input × AgreeFrom l.input.previous_hash ls ls'
  AgreeFrom (some h) _ _ = ⊥

  abbrev pub HaveData : List SecurityAuditLog → Type 0
  HaveData ls = All (λ (l : SecurityAuditLog). IsJson l.input.event_data) ls

  -- Two logs of rows with data in JSON, whose chains end in the same hash, have the same rows along
  -- the chain, column by column, or a row of the one and a row of the other differ in the text that
  -- is digested and have the same digest.
  pub chains_agree :
      (latest : Option (List ℕ)) (ls ls' : List SecurityAuditLog)
      → IsChain sha256 to_iso_string latest ls
      → IsChain sha256 to_iso_string latest ls'
      → HaveData ls
      → HaveData ls'
      → AgreeFrom latest ls ls' ⊎ Collision ls ls'
  chains_agree none [] ls' c c' d d' = inl tt
  chains_agree none (l ∷ ls) ls' c c' d d' = inl tt
  chains_agree (some h) [] ls' c c' d d' = absurd c
  chains_agree (some h) (l ∷ ls) [] c c' d d' = absurd c'
  chains_agree (some h) (l ∷ ls) (l' ∷ ls') c c' d d' =
      let agree_below = chains_agree l.input.previous_hash ls in
      elim (text_cases (hash_payload sha256 to_iso_string l.input)
        (hash_payload sha256 to_iso_string l'.input)) [
          | inr differ ↦ inr (record {
            left = l;
            right = l';
            left_in = inl refl;
            right_in = inl refl;
            differ = differ;
            collide = sym c.1 ∙ c'.1;
          })
          | inl texts ↦
              let same =
                hash_payload-SameInput sha256 to_iso_string l.input l'.input d.0 d'.0 texts in
              let below : IsChain sha256 to_iso_string l.input.previous_hash ls' =
                rw same.same_previous c'.2 in
              elim (agree_below ls' c.2 below d.1 d'.1) [
                | inl agree ↦ inl (same, agree)
                | inr collision ↦ inr (record {
                  left = collision.left;
                  right = collision.right;
                  left_in = inr collision.left_in;
                  right_in = inr collision.right_in;
                  differ = collision.differ;
                  collide = collision.collide;
                })
              ]
        ]
