-- ===== src/Topic/Status.antt =====
-- frontend/src/hooks/useTopicMessages.ts: whether there are messages for the topics of a panel. The
-- texts of ages that `formatAgo` makes come with a result, as does the instant of its newest record.
pub mod Active
use mqtt_dashboard.Prelude.{
  ℕ, zero, ◌+◌, Bool, true, false, not, ◌&&◌, ◌||◌, List, [], ◌∷◌, Option, none, some, filter, find,
  map, if◌then◌else◌, ltb, length, is_some, or_default,
}
use mqtt_dashboard.Prelude.Text.{Text, codes, eq_text, is_empty}
use mqtt_dashboard.Topic.{ws_topic_matches}

pub record TopicDetail : Type 0 where
  pub has_messages : Bool
  pub last_seen : Option Text

pub record TopicState : Type 0 where
  pub key : Text
  pub has_messages : Option Bool
  pub loading : Bool
  pub last_seen : Option Text
  pub total_count : ℕ
  pub active_count : ℕ
  pub by_topic : List (Text × TopicDetail)

-- What the history of one topic says; `newest` is its last timestamp and the instant of that, if it
-- is a date, with the age it is shown as.
pub record TopicResult : Type 0 where
  pub topic : Text
  pub has_messages : Bool
  pub newest : Option (ℕ × Option Text)
  pub last_seen : Option Text

abbrev pub topic_start : Text → TopicState
topic_start key = record {
  key = key;
  has_messages = none;
  loading = false;
  last_seen = none;
  total_count = 0;
  active_count = 0;
  by_topic = [];
}

-- `{ ...byTopic, [topic]: detail }`
unfoldable pub set_detail :
    Text → TopicDetail → List (Text × TopicDetail) → List (Text × TopicDetail)
unfolding eq_text
set_detail topic detail [] = (topic, detail) ∷ []
set_detail topic detail ((t, d) ∷ ds) =
    let rest = set_detail topic detail ds in
    if eq_text t topic then (t, detail) ∷ ds else (t, d) ∷ rest

abbrev pub detail_of : Text → List (Text × TopicDetail) → Option TopicDetail
detail_of topic [] = none
detail_of topic ((t, d) ∷ ds) = if eq_text t topic then some d else detail_of topic ds

unfoldable pub active_topics : List (Text × TopicDetail) → ℕ
active_topics ds = length (filter (λ d. d.1.has_messages) ds)

abbrev pub just_now : Text
just_now = codes "just now"

abbrev pub is_fresh : Option TopicDetail → Bool
is_fresh none = false
is_fresh (some d) =
    d.has_messages && elim d.last_seen [ none ↦ false | some t ↦ eq_text t just_now ]

-- The message came for `matched`.
unfoldable pub mark_active : Text → TopicState → TopicState
unfolding set_detail active_topics eq_text
mark_active matched prev =
    let by_topic =
      set_detail matched (record { has_messages = true; last_seen = some just_now })
        prev.by_topic in
    if is_fresh (detail_of matched prev.by_topic) then prev else record prev {
      by_topic = by_topic;
      active_count = active_topics by_topic;
      has_messages = some (ltb 0 (active_topics by_topic));
      last_seen = some just_now;
    }

unfoldable pub on_topic_message : Text → List Text → Text → TopicState → TopicState
unfolding ws_topic_matches mark_active eq_text
on_topic_message current_key topics topic prev =
    elim (find (λ t. ws_topic_matches t topic) topics) [
      | none ↦ prev
      | some matched ↦
          if is_empty matched || not (eq_text prev.key current_key)
          then prev
          else mark_active matched prev
    ]

unfoldable pub start_loading : Text → List Text → TopicState → TopicState
start_loading current_key topics prev = record prev {
  key = current_key;
  loading = true;
  total_count = length topics;
}

-- The loop over the results, with what it has so far: the details, the number of active topics, the
-- newest instant with its age, and the first age.
pub record Gathered : Type 0 where
  pub by_topic : List (Text × TopicDetail)
  pub active_count : ℕ
  pub newest : Option (ℕ × Option Text)
  pub fallback : Option Text

abbrev pub nothing_gathered : Gathered
nothing_gathered = record { by_topic = []; active_count = 0; newest = none; fallback = none }

abbrev pub newer : Option (ℕ × Option Text) → Option (ℕ × Option Text) → Option (ℕ × Option Text)
newer best none = best
newer none (some n) = some n
newer (some b) (some n) = if ltb b.0 n.0 then some n else some b

unfoldable pub gather : Gathered → TopicResult → Gathered
unfolding set_detail
gather g res =
    let by_topic =
      set_detail res.topic (record { has_messages = res.has_messages; last_seen = res.last_seen })
        g.by_topic in
    if res.has_messages
    then record {
      by_topic = by_topic;
      active_count = g.active_count + 1;
      newest = newer g.newest res.newest;
      fallback = (if is_some g.fallback then g.fallback else res.last_seen);
    }
    else record g { by_topic = by_topic }

unfoldable pub gather_all : Gathered → List TopicResult → Gathered
unfolding gather
gather_all g [] = g
gather_all g (r ∷ rs) = gather_all (gather g r) rs

unfoldable pub on_results : Text → List Text → List TopicResult → TopicState
unfolding gather_all
on_results current_key topics results =
    let g = gather_all nothing_gathered results in
    record {
      key = current_key;
      has_messages = some (ltb 0 g.active_count);
      loading = false;
      last_seen = elim g.newest [ none ↦ g.fallback | some n ↦ n.1 ];
      total_count = length topics;
      active_count = g.active_count;
      by_topic = g.by_topic;
    }
