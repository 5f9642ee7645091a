-- ===== src/Value/Suggest/Segments.antt =====
-- The segments of the paths that `suggestPaths` builds.

use mathlib.Core.Logic.{inl, inr}
use mqtt_dashboard.Prelude.{
  ◌≡◌, refl, ap, ◌∙◌, not, List, [], ◌∷◌, ◌++◌, Option, none, some, map, filter, arith,
  Option-cases, ◌>>=◌, or_default,
}
use mqtt_dashboard.Prelude.Text.{Text, codes, is_empty, trim, split, split_list}
use mqtt_dashboard.Json
use mqtt_dashboard.Json.{Json, Items, Fields, get_key, get_item, is_scalar}
use mqtt_dashboard.Json.Runtime.{Runtime}
use mqtt_dashboard.Value.{dot, segments, resolve_segment, resolve_segments}
use mqtt_dashboard.Value.Suggest.{child_path}
use mqtt_dashboard.Topic.Matching.{split-append}

-- A key that is one segment of a path: it has no dot, and no white space around it.
abbrev pub IsPlain : Text → Type 0
IsPlain key = segments key ≡ key ∷ []

keep-append :
    (xs ys : List Text)
    → filter (λ t. not (is_empty t)) (map trim (xs ++ ys))
      ≡ filter (λ t. not (is_empty t)) (map trim xs) ++ filter (λ t. not (is_empty t)) (map trim ys)
keep-append [] ys = refl
keep-append (x ∷ xs) ys = ground (arith, keep-append xs ys)

segments-append : (a b : Text) → segments (a ++ dot ∷ b) ≡ segments a ++ segments b
unfolding split_list
segments-append a b =
    ap (λ l. filter (λ t. not (is_empty t)) (map trim l)) (split-append dot a b)
    ∙ keep-append (split dot a) (split dot b)

segments-nil : segments [] ≡ []
unfolding split_list
segments-nil = refl

pub segments-child_path :
    (prefix key : Text)
    → IsPlain key
    → segments (child_path prefix key) ≡ segments prefix ++ key ∷ []
segments-child_path [] key h = h ∙ rw segments-nil refl
segments-child_path (c ∷ p) key h = segments-append (c ∷ p) key ∙ ap (λ l. segments (c ∷ p) ++ l) h

pub segments-first :
    (prefix : Text) → segments (prefix ++ codes ".0") ≡ segments prefix ++ codes "0" ∷ []
segments-first prefix =
    segments-append prefix (codes "0") ∙ ap (λ l. segments prefix ++ l) zero_segment
  where
    zero_segment : segments (codes "0") ≡ codes "0" ∷ []
    zero_segment = unfold split_list in refl

pub bind_some {ℓ} : {A : Type ℓ} (o : Option A) → (o >>= λ a. some a) ≡ o
bind_some none = refl
bind_some (some a) = refl

pub bind_assoc {ℓ} :
    {A B C : Type ℓ} (o : Option A) (f : A → Option B) (g : B → Option C)
    → (o >>= λ a. f a >>= g) ≡ ((o >>= f) >>= g)
bind_assoc none f g = refl
bind_assoc (some a) f g = refl

unfoldable mutual
  -- The keys of the document are plain, and those of one object differ.
  pub IsKeyed : {N : Type 0} → Json N → Type 0
  IsKeyed (Json.arr items) = AreKeyed items
  IsKeyed (Json.obj fields) = HasKeys fields
  IsKeyed _ = Unit

  pub AreKeyed : {N : Type 0} → Items N → Type 0
  AreKeyed Json.nil = Unit
  AreKeyed (Json.cons v vs) = IsKeyed v × AreKeyed vs

  pub HasKeys : {N : Type 0} → Fields N → Type 0
  HasKeys Json.end = Unit
  HasKeys (Json.field k v fs) = IsPlain k × IsKeyed v × HasKeys fs × (get_key k fs ≡ none)

module _ (R : Runtime) where
  open R use {Num, to_number, as_index}

  pub resolve_segments-append :
      (ss : List Text) (k : Text) (root : Json Num) {v : Json Num}
      → resolve_segments R ss root ≡ some v
      → resolve_segments R (ss ++ k ∷ []) root ≡ resolve_segment R k v
  unfolding resolve_segments
  resolve_segments-append [] k root {v} h =
      bind_some (resolve_segment R k root) ∙ ap (λ o. resolve_segment R k (or_default o root)) h
  resolve_segments-append (s ∷ ss) k root h = elim (Option-cases (resolve_segment R s root)) [
    | inl e ↦ let n = rw e at h in cc
    | inr (w, e) ↦ rw e (resolve_segments-append ss k w (rw e at h))
  ]
