-- ===== src/System/StableJson/Quoting.antt =====
-- `JSON.stringify` of a text, read back.
use srms.Prelude.{
  ℕ, ◌+◌, ◌-◌, ◌*◌, ◌/◌, ◌%◌, ◌<◌, ◌==◌, ltb, ◌≡◌, refl, sym, ap, ◌∙◌, true, false, if◌then◌else◌,
  List, [], ◌∷◌, ◌++◌, arith, Bool-cases, inl, inr,
}
use mathlib.Core.List.{append_assoc}
use srms.System.StableJson.{hex_digit, escape, escape_all, quote}

-- The code unit of a letter after the backslash.
abbrev unescaped : ℕ → ℕ
unescaped x =
    if x == b'b'
    then 8
    else if x == b't'
    then 9
    else if x == b'n'
    then 10
    else if x == b'f'
    then 12
    else if x == b'r'
    then 13
    else x

pub data EscapeCase (c : ℕ) : Type 0 where
  short : (x : ℕ) → escape c ≡ b'\\' ∷ x ∷ [] → (x == b'u') ≡ false → unescaped x ≡ c → EscapeCase c
  long :
      escape c ≡ b'\\' ∷ b'u' ∷ b'0' ∷ b'0' ∷ hex_digit (c / 16) ∷ hex_digit (c % 16) ∷ []
      → c < 32
      → EscapeCase c
  itself : escape c ≡ c ∷ [] → (c == b'"') ≡ false → (c == b'\\') ≡ false → EscapeCase c

short_case :
    (c k x : ℕ)
    → (c == k) ≡ true
    → escape k ≡ b'\\' ∷ x ∷ []
    → (x == b'u') ≡ false
    → unescaped x ≡ k
    → EscapeCase c
short_case c k x h e no_u back =
    let same : c ≡ k = ground (arith, h) in short x (ap escape same ∙ e) no_u (back ∙ sym same)

pub escape-cases : (c : ℕ) → EscapeCase c
escape-cases c = elim (Bool-cases (c == b'"')) [
  | inl h ↦ short_case c b'"' b'"' h refl refl refl
  | inr a ↦ elim (Bool-cases (c == b'\\')) [
    | inl h ↦ short_case c b'\\' b'\\' h refl refl refl
    | inr b ↦ elim (Bool-cases (c == 8)) [
      | inl h ↦ short_case c 8 b'b' h refl refl refl
      | inr d ↦ elim (Bool-cases (c == 9)) [
        | inl h ↦ short_case c 9 b't' h refl refl refl
        | inr e ↦ elim (Bool-cases (c == 10)) [
          | inl h ↦ short_case c 10 b'n' h refl refl refl
          | inr f ↦ elim (Bool-cases (c == 12)) [
            | inl h ↦ short_case c 12 b'f' h refl refl refl
            | inr g ↦ elim (Bool-cases (c == 13)) [
              | inl h ↦ short_case c 13 b'r' h refl refl refl
              | inr i ↦ elim (Bool-cases (ltb c 32)) [
                | inl low ↦ long (rw (a, b, d, e, f, g, i, low) refl) (ground arith)
                | inr high ↦ itself (rw (a, b, d, e, f, g, i, high) refl) a b
              ]
            ]
          ]
        ]
      ]
    ]
  ]
]

abbrev unhex : ℕ → ℕ
unhex d = if ltb d 58 then d - 48 else d - 87

unhex-digit : (d : ℕ) → d < 16 → unhex (hex_digit d) ≡ d
unhex-digit d h = ground arith

-- The code unit that an escape at the start of a text stands for, and what follows it.
abbrev after_u : List ℕ → ℕ × List ℕ
after_u (a ∷ b ∷ h ∷ l ∷ rest) = (unhex h * 16 + unhex l, rest)
after_u _ = (0, [])

abbrev after_backslash : List ℕ → ℕ × List ℕ
after_backslash [] = (0, [])
after_backslash (x ∷ rest) = if x == b'u' then after_u rest else (unescaped x, rest)

abbrev first_unit : List ℕ → ℕ × List ℕ
first_unit [] = (0, [])
first_unit (c ∷ rest) = if c == b'\\' then after_backslash rest else (c, rest)

first_unit-escape : (c : ℕ) (s : List ℕ) → first_unit (escape c ++ s) ≡ (c, s)
first_unit-escape c s = elim (escape-cases c) [
  | short x e no_u back ↦ rw (e, no_u, back) refl
  | long e low ↦
      let high : unhex (hex_digit (c / 16)) ≡ c / 16 = unhex-digit (c / 16) (omega (arith, low)) in
      let rest : unhex (hex_digit (c % 16)) ≡ c % 16 = unhex-digit (c % 16) (omega arith) in
      let whole : c / 16 * 16 + c % 16 ≡ c = omega arith in
      rw e (
        ap (λ (h : ℕ). (h * 16 + unhex (hex_digit (c % 16)), s)) high
        ∙ ap (λ (l : ℕ). (c / 16 * 16 + l, s)) rest
        ∙ ap (λ (u : ℕ). (u, s)) whole)
  | itself e no_quote no_backslash ↦ rw (e, no_backslash) refl
]

pub escape-split : (a b : ℕ) (s t : List ℕ) → escape a ++ s ≡ escape b ++ t → (a ≡ b) × (s ≡ t)
escape-split a b s t h =
    let same : (a, s) ≡ (b, t) =
      sym (first_unit-escape a s) ∙ ap first_unit h ∙ first_unit-escape b t in
    (ap (λ (p : ℕ × List ℕ). p.0) same, ap (λ (p : ℕ × List ℕ). p.1) same)

abbrev pub first : List ℕ → ℕ
first [] = 0
first (c ∷ cs) = c

escape-quote : (c : ℕ) (s t : List ℕ) → ¬ (escape c ++ s ≡ b'"' ∷ t)
escape-quote c s t h = elim (escape-cases c) [
  | short x e no_u back ↦
      let starts : b'\\' ≡ first (escape c ++ s) = rw e refl in
      absurd (omega (arith, starts ∙ ap first h))
  | long e low ↦
      let starts : b'\\' ≡ first (escape c ++ s) = rw e refl in
      absurd (omega (arith, starts ∙ ap first h))
  | itself e no_quote no_backslash ↦
      let starts : c ≡ first (escape c ++ s) = rw e refl in
      let is : c ≡ b'"' = starts ∙ ap first h in absurd (ground (arith, no_quote, is))
]

escape_all-quote :
    (s t : List ℕ) (x y : List ℕ) → escape_all s ++ b'"' ∷ x ≡ escape_all t ++ b'"' ∷ y → s ≡ t
escape_all-quote [] [] x y h = refl
escape_all-quote [] (c ∷ t) x y h = absurd (
    escape-quote c (escape_all t ++ b'"' ∷ y) x
      (sym (h ∙ append_assoc (escape c) (escape_all t) (b'"' ∷ y))))
escape_all-quote (c ∷ s) [] x y h = absurd (
    escape-quote c (escape_all s ++ b'"' ∷ x) y
      (sym (append_assoc (escape c) (escape_all s) (b'"' ∷ x)) ∙ h))
escape_all-quote (c ∷ s) (d ∷ t) x y h =
    let (same, rest) = escape-split c d (escape_all s ++ b'"' ∷ x) (escape_all t ++ b'"' ∷ y) (
      sym (append_assoc (escape c) (escape_all s) (b'"' ∷ x))
      ∙ h
      ∙ append_assoc (escape d) (escape_all t) (b'"' ∷ y)) in
    let tails = escape_all-quote s t x y rest in ap (λ u. u ∷ s) same ∙ ap (λ u. d ∷ u) tails

abbrev pub tail : List ℕ → List ℕ
tail [] = []
tail (c ∷ cs) = cs

pub quote-injective : (s t : List ℕ) → quote s ≡ quote t → s ≡ t
quote-injective s t h = escape_all-quote s t [] [] (ap tail h)
