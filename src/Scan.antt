-- ===== src/Scan.antt =====
-- Regular expressions without backtracking: what a pattern takes from the front of a text, the
-- leftmost match (`regex.exec`), and `text.replace(regex, f)` for a global pattern. The patterns of
-- payloadShape.ts that are written this way never need to give characters back.
pub mod Laws
use mqtt_dashboard.Prelude.{
  ℕ, zero, suc, Bool, List, [], ◌∷◌, ◌++◌, Option, none, some, if◌then◌else◌, length, ◌>>=◌,
}
use mqtt_dashboard.Prelude.Text.{Text, strip_prefix}

-- What was matched, and the text behind it.
abbrev pub Scanner : Type 0
Scanner = Text → Option (Text × Text)

unfoldable pub lit : Text → Scanner
unfolding strip_prefix
lit p s = do rest ← strip_prefix p s; some (p, rest)

-- `[class]*`
unfoldable pub many : (ℕ → Bool) → Scanner
many p [] = some ([], [])
many p (c ∷ s) =
    let rest = many p s in if p c then (do (m, r) ← rest; some (c ∷ m, r)) else some ([], c ∷ s)

-- `[class]+`
unfoldable pub many1 : (ℕ → Bool) → Scanner
unfolding many
many1 p [] = none
many1 p (c ∷ s) = if p c then many p (c ∷ s) else none

unfoldable pub seq : Scanner → Scanner → Scanner
seq p q s = do (m, r) ← p s; (m', r') ← q r; some (m ++ m', r')

unfoldable pub alt : Scanner → Scanner → Scanner
alt p q s = elim (p s) [ none ↦ q s | some x ↦ some x ]

unfoldable pub opt : Scanner → Scanner
opt p s = elim (p s) [ none ↦ some ([], s) | some x ↦ some x ]

-- The leftmost match: the text before it, the match, the text behind it.
unfoldable pub exec : Scanner → Text → Option (Text × Text × Text)
exec p [] = elim (p []) [ none ↦ none | some (m, r) ↦ some ([], m, r) ]
exec p (c ∷ s) = elim (p (c ∷ s)) [
  | some (m, r) ↦ some ([], m, r)
  | none ↦ elim (exec p s) [ none ↦ none | some (b, m, r) ↦ some (c ∷ b, m, r) ]
]

-- The matches one after another; no match is empty, so one unit of fuel more than there are
-- characters is enough.
unfoldable pub replace : ℕ → Scanner → (Text → Text) → Text → Text
unfolding exec
replace zero p g s = s
replace (suc fuel) p g s = elim (exec p s) [
  | none ↦ s
  | some (b, m, r) ↦ b ++ (g m ++ replace fuel p g r)
]

unfoldable pub replace_all : Scanner → (Text → Text) → Text → Text
unfolding replace
replace_all p g s = replace (suc (length s)) p g s
