-- ===== src/Prelude/Text.antt =====
-- Texts: their order, their characters, and lists of texts as Python's sequences and sets.
pub mod Sets
use Prim.Native.Char.{code}
use Prim.Native.Nat.{ℕ}
use Prim.Native.String.{String, compare}
use Prim.Native.String.compare as cmp
use text.Mathlib.Text.{◌==◌, is_le}
use text.Mathlib.TextEquality.{path_by_compare}
use text.Mathlib.TextPositions.{compare_refl}
use mathlib.Core.Path.{◌≡◌, refl}
use mathlib.Core.Bool.{Bool, true, false, not, ◌&&◌}
use mathlib.Core.List.{List, [], ◌∷◌}
use native.Mathlib.Omega.{arith}
use agent_workflow_pack.Prelude.Sort.{IsOrder, sorted}
use agent_workflow_pack.Prelude.Lists.{any}

-- Python's `s <= t` on texts: by code points.
abbrev pub leb_text : String → String → Bool
leb_text s t = is_le (compare s t)

-- The code points of a text.
abbrev pub codes : String → List ℕ
codes String.[] = []
codes (String.◌∷◌ c s) = code c ∷ codes s

-- `x in xs`
abbrev pub mem : String → List String → Bool
mem x = any (λ y. y == x)

-- `len(xs) == len(set(xs))`
abbrev pub no_repeat : List String → Bool
no_repeat [] = true
no_repeat (x ∷ xs) = not (mem x xs) && no_repeat xs

-- `set(xs) <= set(ys)`
abbrev pub subset : List String → List String → Bool
subset [] ys = true
subset (x ∷ xs) ys = mem x ys && subset xs ys

-- `set(xs) == set(ys)`
abbrev pub same_set : List String → List String → Bool
same_set xs ys = subset xs ys && subset ys xs

pub leb_text_total : (s t : String) → leb_text s t ≡ false → leb_text t s ≡ true
leb_text_total String.[] String.[] h = refl
leb_text_total String.[] (String.◌∷◌ d t) h = ground (arith, cmp.nil-cons d t)
leb_text_total (String.◌∷◌ c s) String.[] h = ground (arith, cmp.nil-cons c s)
leb_text_total (String.◌∷◌ c s) (String.◌∷◌ d t) h =
    ground (arith, cmp.cons-cons c d s t, cmp.cons-cons d c t s, leb_text_total s t)

pub leb_text_trans :
    (s t u : String) → leb_text s t ≡ true → leb_text t u ≡ true → leb_text s u ≡ true
leb_text_trans String.[] t String.[] h k = refl
leb_text_trans String.[] t (String.◌∷◌ e u) h k = ground (arith, cmp.nil-cons e u)
leb_text_trans (String.◌∷◌ c s) String.[] u h k = ground (arith, cmp.cons-nil c s)
leb_text_trans (String.◌∷◌ c s) (String.◌∷◌ d t) String.[] h k = ground (arith, cmp.cons-nil d t)
leb_text_trans (String.◌∷◌ c s) (String.◌∷◌ d t) (String.◌∷◌ e u) h k = ground (
  arith,
  cmp.cons-cons c d s t,
  cmp.cons-cons d e t u,
  cmp.cons-cons c e s u,
  leb_text_trans s t u,
)

pub leb_text_antisym : (s t : String) → leb_text s t ≡ true → leb_text t s ≡ true → s ≡ t
leb_text_antisym String.[] String.[] h k = refl
leb_text_antisym String.[] (String.◌∷◌ d t) h k = absurd (ground (arith, cmp.cons-nil d t))
leb_text_antisym (String.◌∷◌ c s) String.[] h k = absurd (ground (arith, cmp.cons-nil c s))
leb_text_antisym (String.◌∷◌ c s) (String.◌∷◌ d t) h k = path_by_compare _ _ (
    ground
      (arith, cmp.cons-cons c d s t, cmp.cons-cons d c t s, leb_text_antisym s t, compare_refl s))

abbrev pub text_order : IsOrder leb_text
text_order = record { total = leb_text_total; trans = leb_text_trans; antisym = leb_text_antisym }

-- `sorted(xs)`
abbrev pub sorted_texts : List String → List String
sorted_texts = sorted leb_text

unfoldable pub eq_texts : List String → List String → Bool
eq_texts [] [] = true
eq_texts (x ∷ xs) (y ∷ ys) = x == y && eq_texts xs ys
eq_texts _ _ = false
