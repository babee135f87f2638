-- ===== src/Route/Intent/Laws.antt =====
-- The intents that route/intent.py accepts are in a normal form.
use Prim.Native.Char.{Char}
use mathlib.Core.List.{reverse, reverse-append, reverse-reverse}
use agent_workflow_pack.Canonical.Chars.{chars, drop_spaces, is_space, of_chars, strip}
use agent_workflow_pack.Prelude.{
  Bool-cases, List, String, [], ap, arith, false, inl, inr, length, refl, true, ◌++◌, ◌∙◌, ◌∷◌, ◌≡◌,
  ◌≤◌,
}

chars-of_chars : (cs : List Char) → chars (of_chars cs) ≡ cs
chars-of_chars [] = refl
chars-of_chars (c ∷ cs) = ap (◌∷◌ c) (chars-of_chars cs)

drop_spaces_idem : (cs : List Char) → drop_spaces (drop_spaces cs) ≡ drop_spaces cs
drop_spaces_idem [] = refl
drop_spaces_idem (c ∷ cs) = ground (arith, drop_spaces_idem cs)

-- A last character that is no space stays.
drop_spaces-snoc :
    (c : Char) (cs : List Char)
    → is_space c ≡ false
    → drop_spaces (cs ++ c ∷ []) ≡ drop_spaces cs ++ c ∷ []
drop_spaces-snoc c [] h = ground arith
drop_spaces-snoc c (d ∷ cs) h = ground (arith, drop_spaces-snoc c cs h)

length-drop_spaces : (cs : List Char) → length (drop_spaces cs) ≤ length cs
length-drop_spaces [] = omega arith
length-drop_spaces (c ∷ cs) = ground (arith, length-drop_spaces cs)

first_no_space : (c : Char) (cs : List Char) → drop_spaces (c ∷ cs) ≡ c ∷ cs → is_space c ≡ false
first_no_space c cs h = elim (Bool-cases (is_space c)) [
  | inl e ↦
      absurd (omega (arith, length-drop_spaces cs, ap (λ (l : List Char). length l) (dropped e)))
  | inr e ↦ e
]
  where
    dropped : is_space c ≡ true → drop_spaces cs ≡ c ∷ cs
    dropped e = ground (arith, h)

-- What starts with no space still does after the spaces at its end are gone.
drop_spaces-trimmed :
    (cs : List Char)
    → drop_spaces cs ≡ cs
    → drop_spaces (reverse (drop_spaces (reverse cs))) ≡ reverse (drop_spaces (reverse cs))
drop_spaces-trimmed [] h = refl
drop_spaces-trimmed (c ∷ cs) h =
    let n = first_no_space c cs h in
    let trimmed : drop_spaces (reverse (c ∷ cs)) ≡ drop_spaces (reverse cs) ++ c ∷ [] =
      ap drop_spaces (reverse-append (c ∷ []) cs) ∙ drop_spaces-snoc c (reverse cs) n in
    rw (trimmed, reverse-append (drop_spaces (reverse cs)) (c ∷ []))
      (keep_first (reverse (drop_spaces (reverse cs))) n)
  where
    keep_first : (ds : List Char) → is_space c ≡ false → drop_spaces (c ∷ ds) ≡ c ∷ ds
    keep_first ds e = ground arith

pub strip_idem : (s : String) → strip (strip s) ≡ strip s
unfolding strip
strip_idem s =
    let front = drop_spaces (chars s) in
    let back = drop_spaces (reverse front) in
    ap of_chars (
      ap (λ cs. reverse (drop_spaces (reverse (drop_spaces cs)))) (chars-of_chars (reverse back))
      ∙ ap (λ cs. reverse (drop_spaces (reverse cs)))
          (drop_spaces-trimmed front (drop_spaces_idem (chars s)))
      ∙ ap (λ cs. reverse (drop_spaces cs)) (reverse-reverse back)
      ∙ ap reverse (drop_spaces_idem (reverse front)))
