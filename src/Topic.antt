-- ===== src/Topic.antt =====
-- MQTT topic filters: `mqttTopicMatches` of frontend/src/components/panels/logicUtils.ts, and the
-- copy of it in frontend/src/hooks/useWebSocket.ts.
pub mod Matching
pub mod Status
use mqtt_dashboard.Prelude.{ℕ, Bool, true, false, not, ◌&&◌, List, [], ◌∷◌, if◌then◌else◌}
use mqtt_dashboard.Prelude.Text.{Text, codes, eq_text, starts_with, split, slash}

abbrev pub hash : Text
hash = codes "#"

abbrev pub plus : Text
plus = codes "+"

-- The loop over the levels of the filter; both lists hold what is left from index `i` on.
unfoldable pub match_levels : List Text → List Text → Bool
unfolding eq_text
match_levels [] [] = true
match_levels [] (t ∷ tp) = false
match_levels (f ∷ fp) [] = eq_text f hash
match_levels (f ∷ fp) (t ∷ tp) =
    let rest = match_levels fp tp in
    if eq_text f hash
    then true
    else if eq_text f plus
    then rest
    else if eq_text f t
    then rest
    else false

-- A filter that does not start with `$` sees no topic that does.
abbrev pub is_hidden : Text → Text → Bool
is_hidden filter topic = not (starts_with (codes "$") filter) && starts_with (codes "$") topic

unfoldable pub mqtt_topic_matches : Text → Text → Bool
unfolding match_levels split
mqtt_topic_matches filter topic =
    if is_hidden filter topic then false else match_levels (split slash filter) (split slash topic)

-- The copy in useWebSocket.ts, which answers an equal topic at once.
unfoldable pub ws_topic_matches : Text → Text → Bool
unfolding match_levels split
ws_topic_matches filter topic =
    if eq_text filter topic
    then true
    else if is_hidden filter topic
    then false
    else match_levels (split slash filter) (split slash topic)
