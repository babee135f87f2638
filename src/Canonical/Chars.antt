-- ===== src/Canonical/Chars.antt =====
-- Texts as lists of characters: the tests and the splitting of core/canonical.py's `normalize_path`
-- and `normalize_mode`.
use Prim.Native.String.{◌++◌ as append}
use Prim.Native.Char.{Char, code}
use mathlib.Core.List.{reverse}
use agent_workflow_pack.Prelude.{
  Bool, List, Option, String, [], all, any, eqb, false, if◌then◌else◌, leb, length, ltb, none, some,
  suc, true, zero, ℕ, ◌%◌, ◌&&◌, ◌*◌, ◌++◌, ◌+◌, ◌-◌, ◌/◌, ◌||◌, ◌∷◌,
}

abbrev pub chars : String → List Char
chars String.[] = []
chars (String.◌∷◌ c s) = c ∷ chars s

abbrev pub of_chars : List Char → String
of_chars [] = String.[]
of_chars (c ∷ cs) = String.◌∷◌ c (of_chars cs)

-- `character in text`
abbrev pub has_code : ℕ → List Char → Bool
has_code n cs = any (λ c. eqb (code c) n) cs

-- `text.startswith(character)`
abbrev pub starts_with_code : ℕ → List Char → Bool
starts_with_code n [] = false
starts_with_code n (c ∷ cs) = eqb (code c) n

abbrev is_letter : ℕ → Bool
is_letter n = leb b'A' n && leb n b'Z' || leb b'a' n && leb n b'z'

-- `^[A-Za-z]:`
abbrev pub has_drive : List Char → Bool
has_drive (c ∷ d ∷ cs) = is_letter (code c) && eqb (code d) b':'
has_drive _ = false

abbrev pub is_control : Char → Bool
is_control c = ltb (code c) 0x20 || eqb (code c) 0x7F

-- `segment in {"", ".", ".."}`
abbrev pub is_alias : List Char → Bool
is_alias [] = true
is_alias (c ∷ []) = eqb (code c) b'.'
is_alias (c ∷ d ∷ []) = eqb (code c) b'.' && eqb (code d) b'.'
is_alias _ = false

-- Put one character in front of the first segment.
abbrev pub push : Char → List (List Char) → List (List Char)
push c [] = (c ∷ []) ∷ []
push c (s ∷ ss) = (c ∷ s) ∷ ss

-- `text.split(separator)`: at least one segment, empty ones included.
unfoldable pub split : Char → List Char → List (List Char)
split sep [] = [] ∷ []
split sep (c ∷ cs) =
    let rest = split sep cs in if eqb (code c) (code sep) then [] ∷ rest else push c rest

-- `separator.join(segments)`
unfoldable pub join : Char → List (List Char) → List Char
join sep [] = []
join sep (s ∷ []) = s
join sep (s ∷ t ∷ ss) = s ++ sep ∷ join sep (t ∷ ss)

abbrev is_octal : Char → Bool
is_octal c = leb b'0' (code c) && leb (code c) b'7'

abbrev drop_prefix : List Char → List Char
drop_prefix (c ∷ d ∷ cs) = if eqb (code c) b'0' && eqb (code d) b'o' then cs else c ∷ d ∷ cs
drop_prefix cs = cs

abbrev octal_value : ℕ → List Char → ℕ
octal_value acc [] = acc
octal_value acc (c ∷ cs) = octal_value (acc * 8 + (code c - b'0')) cs

-- `^(?:0o)?[0-7]{3,6}$`, and the number that it spells
abbrev pub octal? : List Char → Option ℕ
octal? cs =
    let ds = drop_prefix cs in
    if all is_octal ds && (leb 3 (length ds) && leb (length ds) 6)
    then some (octal_value 0 ds)
    else none

abbrev pub digit_text : ℕ → String
digit_text n =
    if eqb n 0
    then "0"
    else if eqb n 1
    then "1"
    else if eqb n 2
    then "2"
    else if eqb n 3
    then "3"
    else if eqb n 4
    then "4"
    else if eqb n 5
    then "5"
    else if eqb n 6
    then "6"
    else if eqb n 7
    then "7"
    else if eqb n 8
    then "8"
    else if eqb n 9
    then "9"
    else if eqb n 10
    then "a"
    else if eqb n 11
    then "b"
    else if eqb n 12
    then "c"
    else if eqb n 13
    then "d"
    else if eqb n 14
    then "e"
    else "f"

-- `f"{n:04o}"` for a number below 0o10000
abbrev pub octal_text : ℕ → String
octal_text n =
    append (digit_text (n / 512 % 8))
      (append (digit_text (n / 64 % 8)) (append (digit_text (n / 8 % 8)) (digit_text (n % 8))))

-- `str(n)`, by fuel; `n + 1` rounds are enough.
unfoldable pub decimal_from : ℕ → ℕ → String → String
decimal_from zero n acc = acc
decimal_from (suc f) n acc =
    let next = append (digit_text (n % 10)) acc in
    let rest = decimal_from f (n / 10) next in if ltb n 10 then next else rest

unfoldable pub decimal : ℕ → String
unfolding decimal_from
decimal n = decimal_from (suc n) n ""

-- One character inside a JSON string, as `json.dumps(..., ensure_ascii=False)` writes it.
abbrev pub escape : Char → String
escape c =
    let n = code c in
    if eqb n 0x22
    then "\\\""
    else if eqb n 0x5C
    then "\\\\"
    else if eqb n 0x0A
    then "\\n"
    else if eqb n 0x0D
    then "\\r"
    else if eqb n 0x09
    then "\\t"
    else if eqb n 0x08
    then "\\b"
    else if eqb n 0x0C
    then "\\f"
    else if ltb n 0x20
    then append "\\u00" (append (digit_text (n / 16)) (digit_text (n % 16)))
    else String.◌∷◌ c String.[]

abbrev pub quote_body : String → String
quote_body String.[] = ""
quote_body (String.◌∷◌ c s) = append (escape c) (quote_body s)

-- `json.dumps(text, ensure_ascii=False)`
abbrev pub quote : String → String
quote s = append "\"" (append (quote_body s) "\"")

-- `str.isspace` of one character
abbrev pub is_space : Char → Bool
is_space c =
    let n = code c in
    leb 0x09 n && leb n 0x0D
    || leb 0x1C n && leb n 0x20
    || eqb n 0x85
    || eqb n 0xA0
    || eqb n 0x1680
    || leb 0x2000 n && leb n 0x200A
    || eqb n 0x2028
    || eqb n 0x2029
    || eqb n 0x202F
    || eqb n 0x205F
    || eqb n 0x3000

abbrev pub drop_spaces : List Char → List Char
drop_spaces [] = []
drop_spaces (c ∷ cs) = let rest = drop_spaces cs in if is_space c then rest else c ∷ cs

-- `text.strip()`
unfoldable pub strip : String → String
strip s = of_chars (reverse (drop_spaces (reverse (drop_spaces (chars s)))))
