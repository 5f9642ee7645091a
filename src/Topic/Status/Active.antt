-- ===== src/Topic/Status/Active.antt =====
-- The number of active topics is that of the topics whose details say so.
use mqtt_dashboard.Prelude.{
  ℕ, ◌+◌, ◌≡◌, refl, ap, ◌∙◌, ◌⊎◌, inl, inr, Bool, true, false, not, ◌||◌, List, [], ◌∷◌, none,
  some, All, find, if◌then◌else◌, ltb, Bool-cases, Option-cases, arith,
}
use mqtt_dashboard.Prelude.Text.{Text, eq_text, is_empty}
use mqtt_dashboard.Topic.{ws_topic_matches}
use mqtt_dashboard.Topic.Status.{
  TopicDetail, TopicState, TopicResult, Gathered, topic_start, set_detail, detail_of, active_topics,
  is_fresh, mark_active, on_topic_message, start_loading, gather, gather_all, nothing_gathered,
  on_results,
}

-- No topic has two results.
abbrev pub IsDistinct : List TopicResult → Type 0
IsDistinct [] = Unit
IsDistinct (r ∷ rs) = All (λ q. eq_text r.topic q.topic ≡ false) rs × IsDistinct rs

abbrev one_if : Bool → ℕ
one_if b = if b then 1 else 0

abbrev Details : Type 0
Details = List (Text × TopicDetail)

active_topics-cons :
    (t : Text) (d : TopicDetail) (ds : Details)
    → active_topics ((t, d) ∷ ds) ≡ one_if d.has_messages + active_topics ds
unfolding active_topics
active_topics-cons t d ds = elim (Bool-cases d.has_messages) [
  | inl e ↦ rw e (omega arith)
  | inr e ↦ rw e (omega arith)
]

absent-cons :
    (u t : Text) (d : TopicDetail) (ds : Details)
    → detail_of u ((t, d) ∷ ds) ≡ none
    → (eq_text t u ≡ false) × (detail_of u ds ≡ none)
absent-cons u t d ds h = elim (Bool-cases (eq_text t u)) [
  | inl e ↦ clash (rw e at h)
  | inr e ↦ (e, rw e at h)
]
  where
    clash : {A : Type 0} {d : TopicDetail} → some d ≡ none → A
    clash h = cc

-- A topic that is new is counted.
set_detail-active_topics :
    (u : Text) (d : TopicDetail) (ds : Details)
    → detail_of u ds ≡ none
    → active_topics (set_detail u d ds) ≡ active_topics ds + one_if d.has_messages
unfolding set_detail
set_detail-active_topics u d [] h = active_topics-cons u d [] ∙ (omega arith)
set_detail-active_topics u d ((t, k) ∷ ds) h =
    let (e, r) = absent-cons u t k ds h in
    rw e (
      omega (
        arith,
        active_topics-cons t k ds,
        active_topics-cons t k (set_detail u d ds),
        set_detail-active_topics u d ds r,
      ))

set_detail-absent :
    (u v : Text) (d : TopicDetail) (ds : Details)
    → eq_text u v ≡ false
    → detail_of v ds ≡ none
    → detail_of v (set_detail u d ds) ≡ none
unfolding set_detail
set_detail-absent u v d [] e h = rw e refl
set_detail-absent u v d ((t, k) ∷ ds) e h =
    let (n, r) = absent-cons v t k ds h in
    elim (Bool-cases (eq_text t u)) [
      | inl m ↦ rw (m, n) r
      | inr m ↦ rw (m, n) (set_detail-absent u v d ds e r)
    ]

abbrev IsCounted : Gathered → Type 0
IsCounted g = g.active_count ≡ active_topics g.by_topic

gather-IsCounted :
    (g : Gathered) (r : TopicResult)
    → detail_of r.topic g.by_topic ≡ none
    → IsCounted g
    → IsCounted (gather g r)
unfolding gather
gather-IsCounted g r n h = elim (Bool-cases r.has_messages) [
  | inl e ↦ rw e (
      omega (
        arith,
        h,
        set_detail-active_topics r.topic (record { has_messages = true; last_seen = r.last_seen })
            g.by_topic n,
      ))
  | inr e ↦ rw e (
      omega (
        arith,
        h,
        set_detail-active_topics r.topic (record { has_messages = false; last_seen = r.last_seen })
            g.by_topic n,
      ))
]

gather-by_topic :
    (g : Gathered) (r : TopicResult)
    → (gather g r).by_topic
      ≡ set_detail r.topic
          (record { has_messages = r.has_messages; last_seen = r.last_seen })
          g.by_topic
unfolding gather
gather-by_topic g r = elim (Bool-cases r.has_messages) [ inl e ↦ rw e refl | inr e ↦ rw e refl ]

gather-absent :
    (g : Gathered) (r : TopicResult) (rs : List TopicResult)
    → All (λ q. eq_text r.topic q.topic ≡ false) rs
    → All (λ q. detail_of q.topic g.by_topic ≡ none) rs
    → All (λ q. detail_of q.topic (gather g r).by_topic ≡ none) rs
gather-absent g r [] d a = tt
gather-absent g r (q ∷ rs) d a = (
  ap (λ ds. detail_of q.topic ds) (gather-by_topic g r)
      ∙ set_detail-absent r.topic q.topic _ g.by_topic d.0 a.0,
  gather-absent g r rs d.1 a.1,
)

gather_all-IsCounted :
    (rs : List TopicResult) (g : Gathered)
    → IsDistinct rs
    → All (λ q. detail_of q.topic g.by_topic ≡ none) rs
    → IsCounted g
    → IsCounted (gather_all g rs)
unfolding gather_all
gather_all-IsCounted [] g d a h = h
gather_all-IsCounted (r ∷ rs) g d a h =
    gather_all-IsCounted rs (gather g r) d.1 (gather-absent g r rs d.0 a.1)
      (gather-IsCounted g r a.0 h)

-- The states of the hook, whatever its key and topics are at each step; the topics of a run of
-- requests are distinct.
pub data Reach : TopicState → Type 0 where
  begins : (key : Text) → Reach (topic_start key)
  hears :
      (key : Text) (topics : List Text) (topic : Text) {s : TopicState}
      → Reach s
      → Reach (on_topic_message key topics topic s)
  loads :
      (key : Text) (topics : List Text) {s : TopicState}
      → Reach s
      → Reach (start_loading key topics s)
  learns :
      (key : Text) (topics : List Text) (results : List TopicResult) {s : TopicState}
      → IsDistinct results
      → Reach s
      → Reach (on_results key topics results)

-- The number that is shown is that of the details, and there are messages exactly if it is not 0.
abbrev pub IsConsistent : TopicState → Type 0
IsConsistent s =
    (s.active_count ≡ active_topics s.by_topic)
    × ((s.has_messages ≡ none) ⊎ (s.has_messages ≡ some (ltb 0 s.active_count)))

mark_active-IsConsistent :
    (t : Text) (s : TopicState) → IsConsistent s → IsConsistent (mark_active t s)
unfolding mark_active
mark_active-IsConsistent t s h = elim (Bool-cases (is_fresh (detail_of t s.by_topic))) [
  | inl e ↦ rw e h
  | inr e ↦ rw e ((refl, inr refl))
]

hears-IsConsistent :
    (key : Text) (topics : List Text) (topic : Text) (s : TopicState)
    → IsConsistent s
    → IsConsistent (on_topic_message key topics topic s)
unfolding on_topic_message
hears-IsConsistent key topics topic s h =
    elim (Option-cases (find (λ t. ws_topic_matches t topic) topics)) [
      | inl e ↦ rw (e, on_topic_message) h
      | inr (m, e) ↦
          rw (e, on_topic_message)
            (guarded (is_empty m || not (eq_text s.key key)) s (mark_active m s) h
              (mark_active-IsConsistent m s h))
    ]
  where
    guarded :
        (b : Bool) (s t : TopicState)
        → IsConsistent s
        → IsConsistent t
        → IsConsistent (if b then s else t)
    guarded true s t h k = h
    guarded false s t h k = k

absent_at_first :
    (rs : List TopicResult) → All (λ q. detail_of q.topic nothing_gathered.by_topic ≡ none) rs
absent_at_first [] = tt
absent_at_first (r ∷ rs) = (refl, absent_at_first rs)

-- In every state that the hook reaches from its first one by messages, loads and results of the
-- history that answer for distinct topics, each once, the number of active topics is the number of
-- topics whose details have messages, and whether there are messages, once it is known, says
-- whether that number is above 0.
pub Reach-IsConsistent : {s : TopicState} → Reach s → IsConsistent s
unfolding start_loading on_results active_topics
Reach-IsConsistent (begins key) = (refl, inl refl)
Reach-IsConsistent (hears key topics topic {s} r) =
    hears-IsConsistent key topics topic s (Reach-IsConsistent r)
Reach-IsConsistent (loads key topics r) = Reach-IsConsistent r
Reach-IsConsistent (learns key topics results d r) =
    (gather_all-IsCounted results nothing_gathered d (absent_at_first results) refl, inr refl)
