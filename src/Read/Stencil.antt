-- ===== src/Read/Stencil.antt =====
-- `matchTemplate` of payloadShape.ts: the template as a stencil over the message. The regular
-- expressions it builds backtrack, so a group is the list of what it may take, in the order in
-- which the engine tries it.
use mqtt_dashboard.Prelude.{
  ℕ, Bool, true, false, not, ◌&&◌, ◌||◌, List, [], ◌∷◌, ◌++◌, Option, none, some, map,
  if◌then◌else◌, ◌==◌, ◌>>=◌, any, find, head?,
}
use mqtt_dashboard.Prelude.Text.{Text, is_empty, is_space, trim, trim_start, trim_end, strip_prefix}
use mqtt_dashboard.Scan.{exec, lit}
use mqtt_dashboard.Template.{value_token, canonical_values, is_digit}
use mqtt_dashboard.Template.Chunks.{ParsedChunk, parse_template_chunks}

-- What a group takes, and the text behind it.
abbrev pub Candidates : Type 0
Candidates = List (Text × Text)

abbrev onto : ℕ → Text × Text → Text × Text
onto c x = (c ∷ x.0, x.1)

-- `p+`, the longest first; after the characters come what `behind` makes of the text there.
unfoldable pub greedy : (ℕ → Bool) → (Text → Candidates) → Text → Candidates
greedy p behind [] = []
greedy p behind (c ∷ s) =
    let more = greedy p behind s in if p c then map (onto c) (more ++ behind s) else []

-- `p+?`, the shortest first
unfoldable pub lazy : (ℕ → Bool) → Text → Candidates
lazy p [] = []
lazy p (c ∷ s) = let more = lazy p s in if p c then (c ∷ [], s) ∷ map (onto c) more else []

abbrev pub stop_here : Text → Candidates
stop_here s = ([], s) ∷ []

-- `(?:\.\d+)?`
unfoldable pub fraction : Text → Candidates
unfolding greedy
fraction [] = stop_here []
fraction (c ∷ s) =
    (if c == b'.' then map (onto c) (greedy is_digit stop_here s) else []) ++ stop_here (c ∷ s)

-- `NUMBER`; with a sign in front the digits cannot begin at it.
unfoldable pub number : Text → Candidates
unfolding greedy fraction
number [] = []
number (c ∷ s) =
    if c == b'-'
    then map (onto c) (greedy is_digit fraction s)
    else greedy is_digit fraction (c ∷ s)

-- The class of `BARE`.
unfoldable pub is_bare : ℕ → Bool
unfolding is_space
is_bare c =
    not (c == b',' || c == b'{' || c == b'}' || c == b'[' || c == b']' || c == b'"' || is_space c)

-- What stands before the closing quote mark, with that mark.
unfoldable pub to_quote : Text → Option (Text × Text)
to_quote [] = none
to_quote (c ∷ s) =
    let rest = to_quote s in
    if c == b'"' then some (c ∷ [], s) else elim rest [ none ↦ none | some x ↦ some (c ∷ x.0, x.1) ]

-- `"[^"]*"`
unfoldable pub quoted : Text → Candidates
unfolding to_quote
quoted [] = []
quoted (c ∷ s) =
    if c == b'"' then (elim (to_quote s) [ none ↦ [] | some x ↦ onto c x ∷ [] ]) else []

-- `"[^"]*"|NUMBER|BARE?`, and with a greedy last alternative.
unfoldable pub lazy_group : Text → Candidates
unfolding quoted number lazy is_bare
lazy_group s = quoted s ++ (number s ++ lazy is_bare s)

unfoldable pub greedy_group : Text → Candidates
unfolding quoted number greedy is_bare
greedy_group s = quoted s ++ (number s ++ greedy is_bare stop_here s)

-- The tail: a token stands for a group, any other text for itself.
unfoldable pub tail_matches : List ParsedChunk → Text → Bool
unfolding lazy_group strip_prefix
tail_matches [] s = true
tail_matches (c ∷ cs) s =
    let rest = tail_matches cs in
    if c.is_token
    then any (λ x. rest x.1) (lazy_group s)
    else elim (strip_prefix c.text s) [ none ↦ false | some r ↦ rest r ]

unfoldable pub strict_at : Text → List ParsedChunk → Text → Option Text
unfolding strip_prefix lazy_group tail_matches
strict_at head tail s = do
  r ← strip_prefix head s
  x ← find (λ x. tail_matches tail x.1) (lazy_group r)
  some (x.0)

unfoldable pub loose_at : Text → Text → Option Text
unfolding strip_prefix greedy_group
loose_at head s = do r ← strip_prefix head s; x ← head? (greedy_group r); some (x.0)

-- The leftmost place where the expression matches.
unfoldable pub search_from : (Text → Option Text) → Text → Option Text
search_from p [] = p []
search_from p (c ∷ s) = elim (p (c ∷ s)) [ some x ↦ some x | none ↦ search_from p s ]

-- The text up to a quote mark that is its last character.
unfoldable pub drop_last_quote : Text → Option Text
drop_last_quote [] = none
drop_last_quote (c ∷ []) = if c == b'"' then some [] else none
drop_last_quote (c ∷ d ∷ s) = drop_last_quote (d ∷ s) >>= λ t. some (c ∷ t)

-- `found.slice(1, -1)` of a text that starts and ends with a quote mark. The slice of one quote
-- mark alone is empty.
unfoldable pub unquote : Text → Text
unfolding drop_last_quote
unquote [] = []
unquote (c ∷ []) = if c == b'"' then [] else c ∷ []
unquote (c ∷ d ∷ s) =
    if c == b'"'
    then (elim (drop_last_quote (d ∷ s)) [ none ↦ c ∷ d ∷ s | some t ↦ t ])
    else c ∷ d ∷ s

-- The first attempt is made only with text behind the token.
unfoldable pub strict_match : Text → Text → Text → Option Text
unfolding search_from strict_at parse_template_chunks
strict_match head tail message =
    if is_empty tail
    then none
    else search_from (strict_at head (parse_template_chunks tail)) message

-- With no text before the token the second attempt is pinned to the start of the message.
unfoldable pub loose_match : Text → Text → Option Text
unfolding search_from loose_at
loose_match head message =
    if is_empty head then loose_at head message else search_from (loose_at head) message

unfoldable pub match_template : Text → Text → Option Text
unfolding canonical_values exec lit trim trim_start trim_end strict_match loose_match unquote
match_template template message = elim (exec (lit value_token) (canonical_values template)) [
  | none ↦ none
  | some (b, m, r) ↦
      let head = trim_start b in
      let tail = trim_end r in
      if is_empty head && is_empty tail
      then none
      else elim (strict_match head tail (trim message)) [
        | some found ↦ some (unquote found)
        | none ↦ loose_match head (trim message) >>= λ found. some (unquote found)
      ]
]
