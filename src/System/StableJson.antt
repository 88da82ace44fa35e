-- ===== src/System/StableJson.antt =====
-- `stableJson` of backend/src/system/security-audit-chain.service.ts, with the part of
-- `JSON.stringify` that it uses. Texts are lists of UTF-16 code units without lone surrogates; a
-- number is given by the text that JavaScript prints for it.
pub mod Reading
pub mod Quoting
pub mod Order
use srms.Prelude.{
  ℕ, ◌+◌, ◌-◌, ◌/◌, ◌%◌, ◌==◌, ltb, Bool, true, false, if◌then◌else◌, List, [], ◌∷◌, ◌++◌, map,
}
use srms.Prelude.Texts.{codes, text_before}

mutual
  pub data JsonLike : Type 0 where
    null_value : JsonLike
    boolean : Bool → JsonLike
    number : List ℕ → JsonLike
    string : List ℕ → JsonLike
    array : JsonArray → JsonLike
    object : JsonObject → JsonLike

  pub data JsonArray : Type 0 where
    no_items : JsonArray
    item : JsonLike → JsonArray → JsonArray

  pub data JsonObject : Type 0 where
    no_fields : JsonObject
    field : List ℕ → JsonLike → JsonObject → JsonObject

abbrev pub hex_digit : ℕ → ℕ
hex_digit d = if ltb d 10 then b'0' + d else b'a' + (d - 10)

-- One code unit in a text of JSON.
abbrev pub escape : ℕ → List ℕ
escape c =
    if c == b'"'
    then b'\\' ∷ b'"' ∷ []
    else if c == b'\\'
    then b'\\' ∷ b'\\' ∷ []
    else if c == 8
    then b'\\' ∷ b'b' ∷ []
    else if c == 9
    then b'\\' ∷ b't' ∷ []
    else if c == 10
    then b'\\' ∷ b'n' ∷ []
    else if c == 12
    then b'\\' ∷ b'f' ∷ []
    else if c == 13
    then b'\\' ∷ b'r' ∷ []
    else if ltb c 32
    then b'\\' ∷ b'u' ∷ b'0' ∷ b'0' ∷ hex_digit (c / 16) ∷ hex_digit (c % 16) ∷ []
    else c ∷ []

abbrev pub escape_all : List ℕ → List ℕ
escape_all [] = []
escape_all (c ∷ cs) = escape c ++ escape_all cs

-- `JSON.stringify` of a text.
abbrev pub quote : List ℕ → List ℕ
quote text = b'"' ∷ (escape_all text ++ b'"' ∷ [])

-- A key with its value as printed.
pub record Entry : Type 0 where
  pub key : List ℕ
  pub printed : List ℕ

abbrev pub insert_entry : Entry → List Entry → List Entry
insert_entry e [] = e ∷ []
insert_entry e (x ∷ xs) = if text_before x.key e.key then x ∷ insert_entry e xs else e ∷ x ∷ xs

-- `Object.keys(value).sort()`.
abbrev pub sort_entries : List Entry → List Entry
sort_entries [] = []
sort_entries (e ∷ es) = insert_entry e (sort_entries es)

abbrev pub print_entry : Entry → List ℕ
print_entry e = quote e.key ++ b':' ∷ e.printed

-- `join(',')`.
abbrev pub join : List (List ℕ) → List ℕ
join [] = []
join (x ∷ []) = x
join (x ∷ y ∷ ys) = x ++ b',' ∷ join (y ∷ ys)

abbrev pub print_object : List Entry → List ℕ
print_object es = b'{' ∷ (join (map print_entry (sort_entries es)) ++ b'}' ∷ [])

unfoldable mutual
  pub stable_json : JsonLike → List ℕ
  stable_json null_value = codes "null"
  stable_json (boolean true) = codes "true"
  stable_json (boolean false) = codes "false"
  stable_json (number text) = text
  stable_json (string text) = quote text
  stable_json (array items) = b'[' ∷ (join (print_items items) ++ b']' ∷ [])
  stable_json (object fields) = print_object (entries fields)

  pub print_items : JsonArray → List (List ℕ)
  print_items no_items = []
  print_items (item value items) = stable_json value ∷ print_items items

  pub entries : JsonObject → List Entry
  entries no_fields = []
  entries (field key value fields) =
      record { key = key; printed = stable_json value } ∷ entries fields
