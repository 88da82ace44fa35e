-- ===== src/Payments/Store/Rounds.antt =====
-- Loops over ids that write, for each, the row of a table as it was read before the loop.
use srms.Prelude.{
  ℕ, ◌==◌, ◌≡◌, refl, sym, ap, ◌∙◌, true, false, if◌then◌else◌, Option-cases, none, some, List, [],
  ◌∷◌, map, filter, find, contains, has_duplicates, Bool-cases, inl, inr, arith, All, ==_refl,
}
use srms.Payments.Store.Tables.{update_where}
use srms.Payments.Store.Sweep.{HasKeys, Without, update-Without, map_same}

pub map_ext {ℓ} :
    {A : Type 0} {B : Type ℓ} (f h : A → B)
    → ((a : A) → f a ≡ h a)
    → (xs : List A) → map f xs ≡ map h xs
map_ext f h same [] = refl
map_ext f h same (x ∷ xs) = rw (same x, map_ext f h same xs) refl

module _ {A : Type 0} (id_of : A → ℕ) (write : A → A → A)
    (keeps : (a x : A) → id_of (write a x) ≡ id_of x) where
  abbrev pub round : List A → ℕ → List A → List A
  round read id rows = elim (find (λ a. id_of a == id) read) [
    | none ↦ rows
    | some a ↦ update_where (λ x. id_of x == id) (write a) rows
  ]

  abbrev pub rounds : List A → List ℕ → List A → List A
  rounds read [] rows = rows
  rounds read (id ∷ ids) rows = rounds read ids (round read id rows)

  module _ (g : A → A) (same_id : (a : A) → id_of (g a) ≡ id_of a) where
    abbrev after_round : ℕ → A → A
    after_round id a = if id_of a == id then write a (g a) else g a

    map-Without : (id : ℕ) (rows : List A) → Without id_of id rows → Without id_of id (map g rows)
    map-Without id [] h = tt
    map-Without id (a ∷ rows) h = (rw (same_id a) h.0, map-Without id rows h.1)

    map-missed :
        (id : ℕ) (rows : List A) → Without id_of id rows → map g rows ≡ map (after_round id) rows
    map-missed id [] h = refl
    map-missed id (a ∷ rows) h = rw (h.0, sym (map-missed id rows h.1)) refl

    find-none :
        (id : ℕ) (rows : List A) → find (λ a. id_of a == id) rows ≡ none → Without id_of id rows
    find-none id [] h = tt
    find-none id (a ∷ rows) h = elim (Bool-cases (id_of a == id)) [
      | inl same ↦ absurd (ground arith)
      | inr other ↦ (other, find-none id rows (ground arith))
    ]

    update-map :
        (id : ℕ) (a : A) (rows : List A)
        → HasKeys id_of rows
        → find (λ x. id_of x == id) rows ≡ some a
        → update_where (λ x. id_of x == id) (write a) (map g rows) ≡ map (after_round id) rows
    update-map id a [] keys h = absurd (cc)
    update-map id a (x ∷ rows) keys h = elim (Bool-cases (id_of x == id)) [
      | inl own ↦
          let same : x ≡ a = ground arith in
          let key : id_of x ≡ id = ground arith in
          let apart : Without id_of id rows = rw (sym key) keys.0 in
          let rest =
            update-Without id_of id (write a) (map g rows) (map-Without id rows apart)
            ∙ map-missed id rows apart in
          rw (same_id x, own, rest) (ap (λ t. write t (g x) ∷ map (after_round id) rows) (sym same))
      | inr other ↦
          rw (same_id x, other) (ap (λ t. g x ∷ t) (update-map id a rows keys.1 (ground arith)))
    ]

    round-map :
        (id : ℕ) (read : List A)
        → HasKeys id_of read
        → round read id (map g read) ≡ map (after_round id) read
    round-map id read keys = elim (Option-cases (find (λ a. id_of a == id) read)) [
      | inl missing ↦ rw (round, missing) (map-missed id read (find-none id read missing))
      | inr (a, found) ↦ rw (round, found) (update-map id a read keys found)
    ]

    after-id : (id : ℕ) (a : A) → id_of (after_round id a) ≡ id_of a
    after-id id a = elim (Bool-cases (id_of a == id)) [
      | inl own ↦ rw own (keeps a (g a) ∙ same_id a)
      | inr other ↦ rw other (same_id a)
    ]

  rounds-after :
      (g : A → A) (same_id : (a : A) → id_of (g a) ≡ id_of a) (read : List A)
      → HasKeys id_of read
      → (ids : List ℕ) → has_duplicates ids ≡ false
      → rounds read ids (map g read)
        ≡ map (λ a. if contains (id_of a) ids then write a (g a) else g a) read
  rounds-after g same_id read keys [] distinct = refl
  rounds-after g same_id read keys (id ∷ ids) distinct =
      let h = after_round g same_id id in
      let fresh : contains id ids ≡ false = ground arith in
      let more : has_duplicates ids ≡ false = ground arith in
      ap (rounds read ids) (round-map g same_id id read keys)
      ∙ rounds-after h (after-id g same_id id) read keys ids more
      ∙ map_ext (λ a. if contains (id_of a) ids then write a (h a) else h a)
          (λ a. if contains (id_of a) (id ∷ ids) then write a (g a) else g a)
          (λ a. elim (Bool-cases (id_of a == id)) [
            | inr other ↦ rw other refl
            | inl own ↦ let key : id_of a ≡ id = ground arith in rw (own, key, fresh) refl
          ])
          read

  -- On a table with keys, rounds over ids without repetition write each row with such an id once.
  pub rounds-map :
      (read : List A) (ids : List ℕ)
      → HasKeys id_of read
      → has_duplicates ids ≡ false
      → rounds read ids read ≡ map (λ a. if contains (id_of a) ids then write a a else a) read
  rounds-map read ids keys distinct =
      ap (rounds read ids) (sym (map_same read))
      ∙ rounds-after (λ a. a) (λ a. refl) read keys ids distinct

  pub find-filter :
      (id : ℕ) (all_ids : List ℕ) (rows : List A)
      → contains id all_ids ≡ true
      → find (λ a. id_of a == id) (filter (λ a. contains (id_of a) all_ids) rows)
        ≡ find (λ a. id_of a == id) rows
  find-filter id all_ids [] h = refl
  find-filter id all_ids (a ∷ rows) h = elim (Bool-cases (id_of a == id)) [
    | inl own ↦
        let key : id_of a ≡ id = ground arith in
        let chosen : contains (id_of a) all_ids ≡ true = rw key h in rw (chosen, own) refl
    | inr other ↦ elim (Bool-cases (contains (id_of a) all_ids)) [
      | inl chosen ↦ rw (chosen, other) (find-filter id all_ids rows h)
      | inr passed ↦ rw (passed, other) (find-filter id all_ids rows h)
    ]
  ]

  -- Only the rows with the ids of the loop need to have been read.
  pub rounds-filter :
      (all_ids : List ℕ) (read : List A) (ids : List ℕ) (rows : List A)
      → All (λ id. contains id all_ids ≡ true) ids
      → rounds (filter (λ a. contains (id_of a) all_ids) read) ids rows ≡ rounds read ids rows
  rounds-filter all_ids read [] rows h = refl
  rounds-filter all_ids read (id ∷ ids) rows h =
      rw (round, find-filter id all_ids read h.0)
        (rounds-filter all_ids read ids (round read id rows) h.1)

All-contains-more :
    (id : ℕ) (all_ids ids : List ℕ)
    → All (λ k. contains k all_ids ≡ true) ids
    → All (λ k. contains k (id ∷ all_ids) ≡ true) ids
All-contains-more id all_ids [] h = tt
All-contains-more id all_ids (k ∷ ids) h =
    (ground (arith, h.0), All-contains-more id all_ids ids h.1)

pub All-contains : (ids : List ℕ) → All (λ k. contains k ids ≡ true) ids
All-contains [] = tt
All-contains (id ∷ ids) = (ground arith, All-contains-more id ids ids (All-contains ids))

pub map-All :
    {A B : Type 0} (f h : A → B) (xs : List A) → All (λ a. f a ≡ h a) xs → map f xs ≡ map h xs
map-All f h [] same = refl
map-All f h (x ∷ xs) same = rw (same.0, map-All f h xs same.1) refl

-- Every row has its key among those of all rows.
module _ {A : Type 0} (key_of : A → ℕ) where
  All-keys-more :
      (k : ℕ) (ks : List ℕ) (xs : List A)
      → All (λ a. contains (key_of a) ks ≡ true) xs
      → All (λ a. contains (key_of a) (k ∷ ks) ≡ true) xs
  All-keys-more k ks [] h = tt
  All-keys-more k ks (x ∷ xs) h = (ground (arith, h.0), All-keys-more k ks xs h.1)

  pub All-keys : (xs : List A) → All (λ a. contains (key_of a) (map key_of xs) ≡ true) xs
  All-keys [] = tt
  All-keys (x ∷ xs) =
      (rw (==_refl (key_of x)) refl, All-keys-more (key_of x) (map key_of xs) xs (All-keys xs))
