-- ===== src/System/StableJson/Order.antt =====
-- `stableJson` of backend/src/system/security-audit-chain.service.ts on values that differ in the
-- order of their keys.
use srms.Prelude.{ℕ, ◌≡◌, ◌≢◌, refl, ap, ◌∙◌, List, [], ◌∷◌, ◌++◌, map, Bool-cases, inl, inr}
use srms.Prelude.Texts.{text_before}
use srms.Prelude.TextOrder.{before_asym, before_total, before_trans}
use srms.System.StableJson.{
  JsonLike, JsonArray, JsonObject, array, object, no_items, item, no_fields, field, Entry,
  insert_entry, sort_entries, print_entry, join, stable_json, print_items, entries,
}

insert-insert :
    (a b : Entry) (es : List Entry)
    → a.key ≢ b.key
    → insert_entry a (insert_entry b es) ≡ insert_entry b (insert_entry a es)
insert-insert a b [] differ = elim (Bool-cases (text_before b.key a.key)) [
  | inl first ↦ rw (first, before_asym b.key a.key first) refl
  | inr later ↦ elim (Bool-cases (text_before a.key b.key)) [
    | inl other ↦ rw (later, other) refl
    | inr same ↦ absurd (differ (before_total a.key b.key same later))
  ]
]
insert-insert a b (x ∷ es) differ = elim (Bool-cases (text_before x.key a.key)) [
  | inl xa ↦ elim (Bool-cases (text_before x.key b.key)) [
    | inl xb ↦ rw (xa, xb, xa) (ap (λ ys. x ∷ ys) (insert-insert a b es differ))
    | inr bx ↦ let ba = before_trans b.key x.key a.key bx xa in rw (xa, bx, ba, xa) refl
  ]
  | inr ax ↦ elim (Bool-cases (text_before x.key b.key)) [
    | inl xb ↦ let ab = before_trans a.key x.key b.key ax xb in rw (ax, xb, ab, ax) refl
    | inr bx ↦ elim (Bool-cases (text_before b.key a.key)) [
      | inl ba ↦ rw (ax, bx, ba, before_asym b.key a.key ba, ax) refl
      | inr later ↦ elim (Bool-cases (text_before a.key b.key)) [
        | inl ab ↦ rw (ax, bx, later, ab) refl
        | inr same ↦ absurd (differ (before_total a.key b.key same later))
      ]
    ]
  ]
]

-- Values that differ in the order of the keys of their objects, at any depth.
mutual
  pub data SameJson : JsonLike → JsonLike → Type 0 where
    same : (v : JsonLike) → SameJson v v
    same_array : {xs ys : JsonArray} → SameItems xs ys → SameJson (array xs) (array ys)
    same_object : {xs ys : JsonObject} → SameFields xs ys → SameJson (object xs) (object ys)

  pub data SameItems : JsonArray → JsonArray → Type 0 where
    same_none : SameItems no_items no_items
    same_item :
        {v w : JsonLike} {xs ys : JsonArray}
        → SameJson v w
        → SameItems xs ys
        → SameItems (item v xs) (item w ys)

  pub data SameFields : JsonObject → JsonObject → Type 0 where
    same_end : SameFields no_fields no_fields
    same_field :
        {v w : JsonLike} {xs ys : JsonObject} (key : List ℕ)
        → SameJson v w
        → SameFields xs ys
        → SameFields (field key v xs) (field key w ys)
    swap_fields :
        (key other : List ℕ) (v w : JsonLike) (xs : JsonObject)
        → key ≢ other
        → SameFields (field key v (field other w xs)) (field other w (field key v xs))
    then_fields : {xs ys zs : JsonObject} → SameFields xs ys → SameFields ys zs → SameFields xs zs

abbrev close_object : List Entry → List ℕ
close_object es = b'{' ∷ (join (map print_entry es) ++ b'}' ∷ [])

mutual
  unfolding stable_json

  stable_json-SameJson : {v w : JsonLike} → SameJson v w → stable_json v ≡ stable_json w
  stable_json-SameJson (same v) = refl
  stable_json-SameJson (same_array items) =
      ap (λ ts. b'[' ∷ (join ts ++ b']' ∷ [])) (items-SameItems items)
  stable_json-SameJson (same_object fields) = ap close_object (fields-SameFields fields)

  items-SameItems : {xs ys : JsonArray} → SameItems xs ys → print_items xs ≡ print_items ys
  items-SameItems same_none = refl
  items-SameItems (same_item {v} {w} {xs} {ys} value items) =
      ap (λ t. t ∷ print_items xs) (stable_json-SameJson value)
      ∙ ap (λ ts. stable_json w ∷ ts) (items-SameItems items)

  fields-SameFields :
      {xs ys : JsonObject}
      → SameFields xs ys
      → sort_entries (entries xs) ≡ sort_entries (entries ys)
  fields-SameFields same_end = refl
  fields-SameFields (same_field {v} {w} {xs} {ys} key value fields) =
      ap (λ t. insert_entry (record { key = key; printed = t }) (sort_entries (entries xs)))
        (stable_json-SameJson value)
      ∙ ap (insert_entry (record { key = key; printed = stable_json w })) (fields-SameFields fields)
  fields-SameFields (swap_fields key other v w xs differ) =
      insert-insert (record { key = key; printed = stable_json v })
        (record { key = other; printed = stable_json w }) (sort_entries (entries xs)) differ
  fields-SameFields (then_fields first second) = fields-SameFields first ∙ fields-SameFields second

-- Values that differ only in the order of the keys of their objects, at any depth, are printed
-- alike.
pub stable_json_reordered : {v w : JsonLike} → SameJson v w → stable_json v ≡ stable_json w
stable_json_reordered s = stable_json-SameJson s
