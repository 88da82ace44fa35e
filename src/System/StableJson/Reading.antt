-- ===== src/System/StableJson/Reading.antt =====
-- Where a printed value of backend/src/system/security-audit-chain.service.ts ends in a longer text.
use srms.Prelude.{
  ℕ, zero, suc, ◌/◌, ◌%◌, ◌<◌, ◌-◌, ◌==◌, leb, ◌≡◌, refl, sym, ap, ◌∙◌, Bool, true, false, ◌&&◌,
  ◌||◌, if◌then◌else◌, List, [], ◌∷◌, ◌++◌, map, all, length, arith, All, Bool-cases, inl, inr,
  length-append,
}
use mathlib.Core.List.{append_assoc}
use srms.Prelude.Texts.{text_before}
use srms.System.StableJson.Quoting.{short, long, itself, escape-cases, first, tail}
use srms.System.StableJson.{
  JsonLike, JsonArray, JsonObject, null_value, boolean, number, string, array, object, no_items,
  item, no_fields, field, escape, escape_all, quote, Entry, insert_entry, sort_entries, print_entry,
  join, stable_json, print_items, entries, hex_digit,
}

-- What JavaScript prints numbers with.
abbrev pub is_number_char : ℕ → Bool
is_number_char c =
    (leb b'0' c && leb c b'9') || (c == b'-') || (c == b'+') || (c == b'.') || (c == b'e')

-- The numbers of a value are texts of such characters.
abbrev mutual
  pub IsJson : JsonLike → Type 0
  IsJson null_value = Unit
  IsJson (boolean b) = Unit
  IsJson (number text) = all is_number_char text ≡ true
  IsJson (string text) = Unit
  IsJson (array items) = AreJson items
  IsJson (object fields) = HaveJson fields

  pub AreJson : JsonArray → Type 0
  AreJson no_items = Unit
  AreJson (item value items) = IsJson value × AreJson items

  pub HaveJson : JsonObject → Type 0
  HaveJson no_fields = Unit
  HaveJson (field key value fields) = IsJson value × HaveJson fields

data Mode : Type 0 where
  plain quoted escaped : Mode

abbrev is_end : ℕ → Bool
is_end c = (c == b',') || (c == b'}') || (c == b']')

abbrev is_zero : ℕ → Bool
is_zero zero = true
is_zero (suc d) = false

abbrev depth_after : ℕ → ℕ → ℕ
depth_after c d =
    if (c == b'{') || (c == b'[') then suc d else if (c == b'}') || (c == b']') then d - 1 else d

-- What is left of a text after the value at its start.
abbrev rest_of : Mode → ℕ → List ℕ → List ℕ
rest_of mode d [] = []
rest_of escaped d (c ∷ cs) = rest_of quoted d cs
rest_of quoted d (c ∷ cs) =
    rest_of (if c == b'"' then plain else if c == b'\\' then escaped else quoted) d cs
rest_of plain d (c ∷ cs) =
    let rest = rest_of (if c == b'"' then quoted else plain) (depth_after c d) cs in
    if is_end c && is_zero d then c ∷ cs else rest

-- A text that the reading passes over, at any depth or inside of a value.
abbrev Passes : List ℕ → Type 0
Passes t = (d : ℕ) (s : List ℕ) → rest_of plain d (t ++ s) ≡ rest_of plain d s

abbrev PassesInside : List ℕ → Type 0
PassesInside t = (d : ℕ) (s : List ℕ) → rest_of plain (suc d) (t ++ s) ≡ rest_of plain (suc d) s

abbrev mode_after : ℕ → Mode
mode_after c = if c == b'"' then plain else if c == b'\\' then escaped else quoted

hex-quoted : (d : ℕ) → d < 16 → mode_after (hex_digit d) ≡ quoted
hex-quoted d h = ground arith

escape-passes : (c d : ℕ) (s : List ℕ) → rest_of quoted d (escape c ++ s) ≡ rest_of quoted d s
escape-passes c d s = elim (escape-cases c) [
  | short x e no_u back ↦ rw e refl
  | long e low ↦ rw e (
      ap (λ m. rest_of m d (hex_digit (c % 16) ∷ s)) (hex-quoted (c / 16) (omega (arith, low)))
      ∙ ap (λ m. rest_of m d s) (hex-quoted (c % 16) (omega arith)))
  | itself e no_quote no_backslash ↦
      let stays : mode_after c ≡ quoted = rw (no_quote, no_backslash) refl in
      rw e (ap (λ m. rest_of m d s) stays)
]

escape_all-passes :
    (t : List ℕ) (d : ℕ) (s : List ℕ)
    → rest_of quoted d (escape_all t ++ b'"' ∷ s) ≡ rest_of plain d s
escape_all-passes [] d s = refl
escape_all-passes (c ∷ cs) d s =
    ap (rest_of quoted d) (append_assoc (escape c) (escape_all cs) (b'"' ∷ s))
    ∙ escape-passes c d (escape_all cs ++ b'"' ∷ s)
    ∙ escape_all-passes cs d s

quote-Passes : (t : List ℕ) → Passes (quote t)
quote-Passes t d s =
    ap (rest_of quoted d) (append_assoc (escape_all t) (b'"' ∷ []) s) ∙ escape_all-passes t d s

number-Passes : (t : List ℕ) → all is_number_char t ≡ true → Passes t
number-Passes [] h d s = refl
number-Passes (c ∷ cs) h d s =
    let ends : is_end c ≡ false = ground arith in
    let quotes : (c == b'"') ≡ false = ground arith in
    let keeps : depth_after c d ≡ d = ground arith in
    rw (ends, quotes, keeps) (number-Passes cs (ground arith) d s)

-- What is passed over at any depth, is so inside of a value; there commas are too.
Passes-PassesInside : (t : List ℕ) → Passes t → PassesInside t
Passes-PassesInside t h d s = h (suc d) s

append-PassesInside : (t u : List ℕ) → PassesInside t → PassesInside u → PassesInside (t ++ u)
append-PassesInside t u ht hu d s =
    ap (rest_of plain (suc d)) (append_assoc t u s) ∙ ht d (u ++ s) ∙ hu d s

comma-PassesInside : (t : List ℕ) → PassesInside t → PassesInside (b',' ∷ t)
comma-PassesInside t h d s = h d s

join-PassesInside : (ts : List (List ℕ)) → All PassesInside ts → PassesInside (join ts)
join-PassesInside [] h d s = refl
join-PassesInside (t ∷ []) h d s = h.0 d s
join-PassesInside (t ∷ u ∷ ts) h d s =
    append-PassesInside t (b',' ∷ join (u ∷ ts)) h.0
      (comma-PassesInside (join (u ∷ ts)) (join-PassesInside (u ∷ ts) h.1)) d s

-- The brackets of a value open and close one level.
array-Passes : (t : List ℕ) → PassesInside t → Passes (b'[' ∷ (t ++ b']' ∷ []))
array-Passes t h d s =
    ap (rest_of plain (suc d)) (append_assoc t (b']' ∷ []) s)
    ∙ h d (b']' ∷ s)
    ∙ ap (λ k. rest_of plain k s) (omega arith)

object-Passes : (t : List ℕ) → PassesInside t → Passes (b'{' ∷ (t ++ b'}' ∷ []))
object-Passes t h d s =
    ap (rest_of plain (suc d)) (append_assoc t (b'}' ∷ []) s)
    ∙ h d (b'}' ∷ s)
    ∙ ap (λ k. rest_of plain k s) (omega arith)

entry-PassesInside : (e : Entry) → PassesInside e.printed → PassesInside (print_entry e)
entry-PassesInside e h d s =
    append-PassesInside (quote e.key) (b':' ∷ e.printed)
      (Passes-PassesInside (quote e.key) (quote-Passes e.key)) h d s

insert-PassesInside :
    (e : Entry) (es : List Entry)
    → PassesInside e.printed
    → All (λ (x : Entry). PassesInside x.printed) es
    → All (λ (x : Entry). PassesInside x.printed) (insert_entry e es)
insert-PassesInside e [] he h = (he, tt)
insert-PassesInside e (x ∷ es) he h = elim (Bool-cases (text_before x.key e.key)) [
  | inl later ↦ rw later (h.0, insert-PassesInside e es he h.1)
  | inr here ↦ rw here (he, (h.0, h.1))
]

sort-PassesInside :
    (es : List Entry)
    → All (λ (x : Entry). PassesInside x.printed) es
    → All (λ (x : Entry). PassesInside x.printed) (sort_entries es)
sort-PassesInside [] h = tt
sort-PassesInside (e ∷ es) h =
    insert-PassesInside e (sort_entries es) h.0 (sort-PassesInside es h.1)

entries-PassesInside :
    (es : List Entry)
    → All (λ (x : Entry). PassesInside x.printed) es
    → All PassesInside (map print_entry es)
entries-PassesInside [] h = tt
entries-PassesInside (e ∷ es) h = (entry-PassesInside e h.0, entries-PassesInside es h.1)

mutual
  unfolding stable_json

  stable_json-Passes : (value : JsonLike) → IsJson value → Passes (stable_json value)
  stable_json-Passes null_value h d s = refl
  stable_json-Passes (boolean true) h d s = refl
  stable_json-Passes (boolean false) h d s = refl
  stable_json-Passes (number text) h d s = number-Passes text h d s
  stable_json-Passes (string text) h d s = quote-Passes text d s
  stable_json-Passes (array items) h d s =
      array-Passes (join (print_items items))
        (join-PassesInside (print_items items) (items-Pass items h)) d s
  stable_json-Passes (object fields) h d s =
      let es = entries fields in
      object-Passes (join (map print_entry (sort_entries es)))
        (join-PassesInside (map print_entry (sort_entries es))
          (entries-PassesInside (sort_entries es) (sort-PassesInside es (fields-Pass fields h))))
        d s

  items-Pass : (items : JsonArray) → AreJson items → All PassesInside (print_items items)
  items-Pass no_items h = tt
  items-Pass (item value items) h =
      (Passes-PassesInside (stable_json value) (stable_json-Passes value h.0), items-Pass items h.1)

  fields-Pass :
      (fields : JsonObject)
      → HaveJson fields
      → All (λ (x : Entry). PassesInside x.printed) (entries fields)
  fields-Pass no_fields h = tt
  fields-Pass (field key value fields) h = (
    Passes-PassesInside (stable_json value) (stable_json-Passes value h.0),
    fields-Pass fields h.1,
  )

append_cancel_right : (xs ys s : List ℕ) → xs ++ s ≡ ys ++ s → xs ≡ ys
append_cancel_right [] [] s h = refl
append_cancel_right [] (y ∷ ys) s h = absurd (omega (arith, ap length h, length-append ys s))
append_cancel_right (x ∷ xs) [] s h = absurd (omega (arith, ap length h, length-append xs s))
append_cancel_right (x ∷ xs) (y ∷ ys) s h =
    let tails : xs ++ s ≡ ys ++ s = ap tail h in
    let heads : x ≡ y = ap first h in
    ap (λ z. z ∷ xs) heads ∙ ap (λ zs. y ∷ zs) (append_cancel_right xs ys s tails)

-- A text that begins where a value has ended.
abbrev pub starts_after : List ℕ → Bool
starts_after [] = true
starts_after (c ∷ cs) = is_end c

rest_of-end : (s : List ℕ) → starts_after s ≡ true → rest_of plain 0 s ≡ s
rest_of-end [] h = refl
rest_of-end (c ∷ cs) h = rw h refl

-- In two equal texts that begin with printed values, the values are printed alike and what follows
-- them is the same.
pub stable_json-split :
    (v w : JsonLike) (s t : List ℕ)
    → IsJson v
    → IsJson w
    → starts_after s ≡ true
    → starts_after t ≡ true
    → stable_json v ++ s ≡ stable_json w ++ t
    → (stable_json v ≡ stable_json w) × (s ≡ t)
stable_json-split v w s t jv jw es et h =
    let rests : s ≡ t =
      sym (stable_json-Passes v jv 0 s ∙ rest_of-end s es)
      ∙ ap (rest_of plain 0) h
      ∙ stable_json-Passes w jw 0 t
      ∙ rest_of-end t et in
    (
      append_cancel_right (stable_json v) (stable_json w) t
          (ap (λ u. stable_json v ++ u) (sym rests) ∙ h),
      rests,
    )
