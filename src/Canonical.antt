-- ===== src/Canonical.antt =====
-- core/canonical.py: normalisation of texts, paths, modes and documents, the canonical JSON text and
-- the digest. A text holds Unicode scalar values only, so the check for surrogates cannot fail.
use Prim.Native.String.{◌++◌ as append}
pub mod Chars
pub mod Distinct
use Prim.Native.Char.{code}
use agent_workflow_pack.Canonical.Chars.{
  chars, decimal, has_code, has_drive, is_alias, is_control, join, octal?, octal_text, of_chars,
  quote, split, starts_with_code,
}
use agent_workflow_pack.Json.{
  Fields, Items, Value, arr, bool, cons, end, field, int, keys, negsuc, nil, null, obj, pos, put,
  text, ℤ,
}
use agent_workflow_pack.Platform.{Platform}
use agent_workflow_pack.Prelude.{
  Bool, List, String, [], all, any, codes, eqb, false, if◌then◌else◌, is_empty, ltb, map, mem, none,
  some, true, ℕ, ◌%◌, ◌+◌, ◌-◌, ◌/◌, ◌||◌, ◌∷◌,
}
use agent_workflow_pack.Prelude.Sort.{sorted}
use agent_workflow_pack.Result.{
  Exn, Result, err, failure, map_result, ok, reject, require, ◌>>=◌, ◌>>◌,
}

abbrev pub canonical_failure : String → Exn
canonical_failure message = failure "AWP_CANONICALIZATION_INVALID" message

abbrev pub canonical_null : String
canonical_null = "canonical-null"

-- Texts are compared by their UTF-16 code units, most significant byte first.
abbrev utf16_units : List ℕ → List ℕ
utf16_units [] = []
utf16_units (c ∷ cs) =
    let rest = utf16_units cs in
    if ltb c 0x10000
    then c ∷ rest
    else (0xD800 + (c - 0x10000) / 0x400) ∷ (0xDC00 + (c - 0x10000) % 0x400) ∷ rest

abbrev leb_units : List ℕ → List ℕ → Bool
leb_units [] bs = true
leb_units (a ∷ as_) [] = false
leb_units (a ∷ as_) (b ∷ bs) = if eqb a b then leb_units as_ bs else ltb a b

abbrev pub leb_utf16 : String → String → Bool
leb_utf16 s t = leb_units (utf16_units (codes s)) (utf16_units (codes t))

abbrev pub distinct : List String → List String
distinct [] = []
distinct (x ∷ xs) = let rest = distinct xs in elim (mem x rest) [ true ↦ rest | false ↦ x ∷ rest ]

module _ (py : Platform) where
  unfoldable pub normalize_nfc : String → String
  normalize_nfc value = py.nfc value

  unfoldable pub normalize_string_set : List String → List String
  normalize_string_set values = sorted leb_utf16 (distinct (map normalize_nfc values))

  unfoldable pub normalize_path : String → Result String
  unfolding normalize_nfc
  normalize_path value =
      let normalized = normalize_nfc value in
      let cs = chars normalized in
      let segments = split "/" cs in
      do
        reject (is_empty cs) (canonical_failure "repository path must not be empty")
        reject (has_code 0 cs || has_code b'\\' cs)
            (canonical_failure "repository path contains a forbidden separator or NUL")
        reject (starts_with_code b'/' cs || has_drive cs)
            (canonical_failure "repository path must be relative")
        reject (any is_control cs)
            (canonical_failure "repository path contains a control character")
        reject (any is_alias segments)
            (canonical_failure "repository path contains an empty or alias segment")
        ok (of_chars (join "/" segments))

  -- `numeric & 0o777` is the remainder by 0o1000.
  unfoldable pub normalize_mode : Value → Result String
  normalize_mode (int (pos n)) = ok (octal_text (n % 512))
  normalize_mode (int (negsuc n)) = err (canonical_failure "POSIX mode must be nonnegative")
  normalize_mode (bool b) = err (canonical_failure "boolean is not a POSIX mode")
  normalize_mode (text s) = elim (octal? (chars s)) [
    | none ↦ err (canonical_failure "POSIX mode must be an octal integer or string")
    | some n ↦ ok (octal_text (n % 512))
  ]
  normalize_mode _ = err (canonical_failure "POSIX mode must be an octal integer or string")

  unfoldable mutual
    unfolding normalize_nfc

    pub normalize_json_value : Value → Result Value
    normalize_json_value (text s) = ok (text (normalize_nfc s))
    normalize_json_value (arr vs) = map_result arr (normalize_items vs)
    normalize_json_value (obj d) = map_result obj (normalize_fields d end)
    normalize_json_value v = ok v

    pub normalize_items : Items → Result Items
    normalize_items nil = ok nil
    normalize_items (cons v vs) =
        normalize_json_value v >>= λ w. map_result (cons w) (normalize_items vs)

    -- The loop over `value.items()`, with the members that it has stored. The key is checked before
    -- the value is normalised.
    pub normalize_fields : Fields → Fields → Result Fields
    normalize_fields end out = ok out
    normalize_fields (field k v d) out =
        let rest = normalize_fields d in
        let value = normalize_json_value v in
        let key = normalize_nfc k in
        do
          reject (mem key (keys out))
              (canonical_failure "object keys collide after NFC normalization")
          w ← value
          rest (put key w out)

-- `str(value)` of an integer
abbrev pub int_text : ℤ → String
int_text (pos n) = decimal n
int_text (negsuc n) = append "-" (decimal (n + 1))

abbrev join_comma : List String → String
join_comma [] = ""
join_comma (s ∷ []) = s
join_comma (s ∷ t ∷ ss) = append s (append "," (join_comma (t ∷ ss)))

abbrev leb_key : String × String → String × String → Bool
leb_key p q = leb_utf16 p.0 q.0

abbrev member_text : String × String → String
member_text p = append (quote p.0) (append ":" p.1)

-- The members are written in the order of their keys.
unfoldable mutual
  unfolding decimal sorted

  pub serialize : Value → String
  serialize null = "null"
  serialize (bool true) = "true"
  serialize (bool false) = "false"
  serialize (int n) = int_text n
  serialize (text s) = quote s
  serialize (arr vs) = append "[" (append (join_comma (serialize_items vs)) "]")
  serialize (obj d) =
      append "{" (append (join_comma (map member_text (sorted leb_key (serialize_members d)))) "}")

  pub serialize_items : Items → List String
  serialize_items nil = []
  serialize_items (cons v vs) = serialize v ∷ serialize_items vs

  pub serialize_members : Fields → List (String × String)
  serialize_members end = []
  serialize_members (field k v d) = (k, serialize v) ∷ serialize_members d

module _ (py : Platform) where
  unfoldable pub canonical_json : Value → Result String
  canonical_json value = map_result serialize (normalize_json_value py value)

  -- The domain is ASCII text: its check is a test of code points.
  unfoldable pub digest : String → Value → Result String
  digest domain value = do
    reject (is_empty (chars domain) || has_code 0 (chars domain))
        (canonical_failure "digest domain must be nonempty ASCII without NUL")
    require (all (λ c. ltb (code c) 0x80) (chars domain))
        (canonical_failure "digest domain must be ASCII")
    content ← canonical_json value
    ok (py.sha256 (append domain (append "\0" content)))
