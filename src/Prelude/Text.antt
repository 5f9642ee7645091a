-- ===== src/Prelude/Text.antt =====
-- JavaScript strings as lists of UTF-16 code units, and the string methods the sources use.
use Prim.Native.Nat.{ℕ}
use Prim.Native.Char.{code}
use Prim.Native.String.{String}
use mathlib.Core.Path.{◌≡◌, refl}
use mathlib.Core.Logic.{◌↔◌}
use mathlib.Core.Bool.{Bool, true, false, not, ◌&&◌, ◌||◌}
use mathlib.Core.List.{List, [], ◌∷◌, ◌++◌, map}
use mathlib.Core.Option.{Option, none, some}
use native.Mathlib.Omega.{arith}
use mqtt_dashboard.Prelude.Tests.{leb, ◌==◌, if◌then◌else◌, is_some}
use mqtt_dashboard.Prelude.Lists.{filter}

abbrev pub Text : Type 0
Text = List ℕ

-- A literal of the source, whose characters are all in the basic plane.
abbrev pub codes : String → Text
codes String.[] = []
codes (String.◌∷◌ c s) = code c ∷ codes s

-- `a === b`
unfoldable pub eq_text : Text → Text → Bool
eq_text [] [] = true
eq_text (c ∷ a) (d ∷ b) = c == d && eq_text a b
eq_text _ _ = false

pub eq_text_iff : (a b : Text) → (eq_text a b ≡ true) ↔ (a ≡ b)
unfolding eq_text
eq_text_iff (x ∷ a) (y ∷ b) = ground (arith, eq_text_iff a b)
eq_text_iff _ _ = ground arith

pub eq_text_flip : (a b : Text) → eq_text a b ≡ false → eq_text b a ≡ false
eq_text_flip a b h = ground (arith, eq_text_iff a b, eq_text_iff b a)

pub eq_text_refl : (a : Text) → eq_text a a ≡ true
eq_text_refl a = (eq_text_iff a a).1 refl

abbrev pub is_empty : Text → Bool
is_empty [] = true
is_empty (c ∷ s) = false

-- The rest of the text behind a prefix.
unfoldable pub strip_prefix : Text → Text → Option Text
strip_prefix [] s = some s
strip_prefix (p ∷ ps) [] = none
strip_prefix (p ∷ ps) (c ∷ s) = if p == c then strip_prefix ps s else none

pub strip_prefix-append : (p s r : Text) → strip_prefix p s ≡ some r → s ≡ p ++ r
unfolding strip_prefix
strip_prefix-append [] s r h = ground arith
strip_prefix-append (p ∷ ps) [] r h = ground arith
strip_prefix-append (p ∷ ps) (c ∷ s) r h = ground (arith, strip_prefix-append ps s r)

pub strip_prefix_self : (p r : Text) → strip_prefix p (p ++ r) ≡ some r
unfolding strip_prefix
strip_prefix_self [] r = refl
strip_prefix_self (p ∷ ps) r = ground (arith, strip_prefix_self ps r)

-- `s.startsWith(p)`
abbrev pub starts_with : Text → Text → Bool
starts_with p s = is_some (strip_prefix p s)

-- `s.includes(p)`
unfoldable pub includes : Text → Text → Bool
unfolding strip_prefix
includes p [] = is_some (strip_prefix p [])
includes p (c ∷ s) = is_some (strip_prefix p (c ∷ s)) || includes p s

-- The white space of `trim` and `\s`.
unfoldable pub is_space : ℕ → Bool
is_space c =
    leb 9 c && leb c 13
    || c == 32
    || c == 160
    || c == 0x1680
    || leb 0x2000 c && leb c 0x200a
    || c == 0x2028
    || c == 0x2029
    || c == 0x202f
    || c == 0x205f
    || c == 0x3000
    || c == 0xfeff

-- `s.trimStart()`
unfoldable pub trim_start : Text → Text
unfolding is_space
trim_start [] = []
trim_start (c ∷ s) = if is_space c then trim_start s else c ∷ s

-- `s.trimEnd()`: a space stays only if something else stays behind it.
unfoldable pub trim_end : Text → Text
unfolding is_space
trim_end [] = []
trim_end (c ∷ s) = let rest = trim_end s in if is_space c && is_empty rest then [] else c ∷ rest

-- `s.trim()`
unfoldable pub trim : Text → Text
unfolding trim_start trim_end
trim s = trim_end (trim_start s)

-- The piece read so far, put before the first piece of what follows.
abbrev pub onto_first : ℕ → List Text → List Text
onto_first c [] = (c ∷ []) ∷ []
onto_first c (p ∷ ps) = (c ∷ p) ∷ ps

-- `s.split(sep)` for a separator of one code unit; the result is never empty.
unfoldable pub split : ℕ → Text → List Text
split sep [] = [] ∷ []
split sep (c ∷ s) = let rest = split sep s in if c == sep then [] ∷ rest else onto_first c rest

-- `parts.join(sep)`
unfoldable pub join : Text → List Text → Text
join sep [] = []
join sep (p ∷ []) = p
join sep (p ∷ q ∷ ps) = p ++ (sep ++ join sep (q ∷ ps))

-- `s.split(",").map((t) => t.trim()).filter(Boolean)`
unfoldable pub split_list : ℕ → Text → List Text
unfolding split trim
split_list sep s = filter (λ t. not (is_empty t)) (map trim (split sep s))

abbrev pub comma : ℕ
comma = b','

abbrev pub slash : ℕ
slash = b'/'
