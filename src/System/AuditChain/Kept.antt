-- ===== src/System/AuditChain/Kept.antt =====
-- What `appendInTransaction` of backend/src/system/security-audit-chain.service.ts keeps.
use srms.Prelude.{
  ℕ, ◌≡◌, refl, sym, ap, ◌∙◌, Option, none, some, List, [], ◌∷◌, filter, map, All, Bool-cases, inl,
  inr,
}
use srms.Prelude.Fallible.{Result, ok, ◌>>=◌}
use srms.Payments.Store.{update_where}
use srms.System.AuditChain.{
  SecurityAuditChainEvent, SecurityAuditLog, SecurityAuditChainHead, AuditTables, AuditError,
  is_head, Appended, hash_security_audit_record, chained_log, append_in_transaction,
}

module _ (sha256 : List ℕ → List ℕ) (to_iso_string : ℕ → List ℕ) where
  -- Rows that lead from a hash back to the first row of the chain: each row's hash is the digest
  -- of its columns, among them the hash of the row before. Rows of releases that wrote no hash may
  -- stand below the chain.
  abbrev pub IsChain : Option (List ℕ) → List SecurityAuditLog → Type 0
  IsChain none ls = All (λ (l : SecurityAuditLog). l.record_hash ≡ none) ls
  IsChain (some h) [] = ⊥
  IsChain (some h) (l ∷ ls) =
      (l.record_hash ≡ some h)
      × (h ≡ hash_security_audit_record sha256 to_iso_string l.input)
      × IsChain l.input.previous_hash ls

  pub record IsAudited (s : AuditTables) : Type 0 where
    pub head : SecurityAuditChainHead
    pub one_head : filter is_head s.heads ≡ head ∷ []
    pub is_chain : IsChain head.latest_record_hash s.logs

  update-heads :
      (hash : Option (List ℕ)) (heads : List SecurityAuditChainHead)
      → filter is_head (update_where is_head (λ h. record h { latest_record_hash = hash }) heads)
        ≡ map
            (λ (h : SecurityAuditChainHead). record h { latest_record_hash = hash })
            (filter is_head heads)
  update-heads hash [] = refl
  update-heads hash (h ∷ heads) = elim (Bool-cases (is_head h)) [
    | inl own ↦
        rw own (
          rw own (ap (λ xs. record h { latest_record_hash = hash } ∷ xs) (update-heads hash heads)))
    | inr other ↦ rw other (rw other (update-heads hash heads))
  ]

  -- The rows `new` are those of the events, the latest first, on top of `old`.
  abbrev pub Records :
      List (ℕ × SecurityAuditChainEvent) → List SecurityAuditLog → List SecurityAuditLog → Type 0
  Records [] old new = new ≡ old
  Records ((now, event) ∷ events) old new =
      (previous : Option (List ℕ)) × Records events
        (chained_log sha256 to_iso_string now event previous ∷ old) new

  -- Transactions one after the other, each with the time of its run.
  abbrev pub append_each :
      List (ℕ × SecurityAuditChainEvent) → AuditTables → Result AuditError AuditTables
  append_each [] s = ok s
  append_each ((now, event) ∷ events) s =
      append_in_transaction sha256 to_iso_string now event s >>= λ done.
      append_each events done.tables

  record IsAppended (now : ℕ) (event : SecurityAuditChainEvent) (s : AuditTables) (done : Appended)
      : Type 0 where
    still_audited : IsAudited done.tables
    previous : Option (List ℕ)
    logs_are : done.tables.logs ≡ chained_log sha256 to_iso_string now event previous ∷ s.logs

  append-IsAppended :
      (now : ℕ) (event : SecurityAuditChainEvent) (s : AuditTables)
      → IsAudited s
      → (done : Appended) × (append_in_transaction sha256 to_iso_string now event s ≡ ok done)
        × IsAppended now event s done
  unfolding append_in_transaction
  append-IsAppended now event s audited =
      let h = audited.head in
      let log = chained_log sha256 to_iso_string now event h.latest_record_hash in
      (
        record {
          tables = record {
            logs = log ∷ s.logs;
            heads =
                update_where is_head (λ x. record x { latest_record_hash = log.record_hash })
                  s.heads;
          };
          created = log;
        },
        rw (audited.one_head, append_in_transaction) refl,
        record {
          still_audited = record {
            head = record h { latest_record_hash = log.record_hash };
            one_head =
                update-heads log.record_hash s.heads
                ∙ ap
                    (map (λ (x : SecurityAuditChainHead). record x {
                      latest_record_hash = log.record_hash;
                    }))
                    audited.one_head;
            is_chain = (refl, refl, audited.is_chain);
          };
          previous = h.latest_record_hash;
          logs_are = refl;
        },
      )

  -- On tables with one head and a chain that ends in it, every sequence of appends succeeds, puts
  -- one row with its digest on top for each event in their order, changes no older row, and leaves
  -- such tables.
  pub append_each-IsAudited :
      (events : List (ℕ × SecurityAuditChainEvent)) (s : AuditTables)
      → IsAudited s
      → (s' : AuditTables) × (append_each events s ≡ ok s')
        × IsAudited s'
        × Records events s.logs s'.logs
  append_each-IsAudited [] s audited = (s, refl, audited, refl)
  append_each-IsAudited ((now, event) ∷ events) s audited =
      let (done, e, appended) = append-IsAppended now event s audited in
      let (s', e', audited', records) =
        append_each-IsAudited events done.tables appended.still_audited in
      (
        s',
        ap (λ m. m >>= λ (d : Appended). append_each events d.tables) e ∙ e',
        audited',
        (appended.previous, rw (sym appended.logs_are) records),
      )
