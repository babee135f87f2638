-- ===== src/Ident.antt =====
-- The two shapes of identity that every component checks: a lower-case SHA-256 in hexadecimal, and a
-- UUID in its canonical spelling (a text that `str(uuid.UUID(text))` gives back unchanged).
use Prim.Native.Char.{Char, code}
use agent_workflow_pack.Canonical.Chars.{chars}
use agent_workflow_pack.Prelude.{
  Bool, List, String, [], all, eqb, if◌then◌else◌, leb, length, ℕ, ◌&&◌, ◌+◌, ◌||◌, ◌∷◌,
}

abbrev pub is_hex : Char → Bool
is_hex c = leb b'0' (code c) && leb (code c) b'9' || leb b'a' (code c) && leb (code c) b'f'

-- `^[0-9a-f]{64}$`
unfoldable pub is_sha256 : String → Bool
is_sha256 s = eqb (length (chars s)) 64 && all is_hex (chars s)

-- Hexadecimal digits, with a dash where the count `n` is 8, 13, 18 or 23.
abbrev pub uuid_from : ℕ → List Char → Bool
uuid_from n [] = eqb n 36
uuid_from n (c ∷ cs) =
    (if eqb n 8 || eqb n 13 || eqb n 18 || eqb n 23 then eqb (code c) b'-' else is_hex c)
    && uuid_from (n + 1) cs

unfoldable pub is_uuid : String → Bool
is_uuid s = uuid_from 0 (chars s)
