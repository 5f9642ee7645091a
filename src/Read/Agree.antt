-- ===== src/Read/Agree.antt =====
-- The preview of a shape (`readShape`) and the panel (`readValue`) read the same value.
use mqtt_dashboard.Prelude.{
  ℕ, ◌≡◌, refl, sym, ◌∙◌, true, false, List, [], ◌∷◌, Option, none, some, inl, inr, arith, ◌>>=◌,
  or_default, Option-cases,
}
use mqtt_dashboard.Prelude.Text.{Text, trim}
use mathlib.Core.Bool.{false≢true}
use mqtt_dashboard.Json.{Json}
use mqtt_dashboard.Json.Runtime.{Runtime}
use mqtt_dashboard.Template.{is_bare_token}
use mqtt_dashboard.Value.{
  segments, coerce_value, extract_value, extract_at, parse_loose_json, resolve_path, resolve_split,
  resolve_segments, resolve_segment, is_container,
}
use mqtt_dashboard.Read.Stencil.{match_template}
use mqtt_dashboard.Read.Path.{derive_read_path}
use mqtt_dashboard.Read.{
  ShapeRead, non_empty, or_else, read_value, read_at_path, whole_message, read_shape,
}

module _ (R : Runtime) where
  open R use {Num}

  resolve_split-is_container :
      (ss : List Text) (json v : Json Num)
      → resolve_split R ss json ≡ some v
      → is_container R json ≡ true
  unfolding resolve_split resolve_segments resolve_segment
  resolve_split-is_container [] json v h = ground arith
  resolve_split-is_container (s ∷ ss) (Json.arr items) v h = refl
  resolve_split-is_container (s ∷ ss) (Json.obj fields) v h = refl
  resolve_split-is_container (s ∷ ss) _ v h = ground arith

  -- A path leads only into an object or an array.
  pub resolve_path-is_container :
      (json v : Json Num) (path : Text)
      → resolve_path R json path ≡ some v
      → is_container R json ≡ true
  unfolding resolve_path
  resolve_path-is_container (Json.arr items) v path h = refl
  resolve_path-is_container (Json.obj fields) v path h = refl
  resolve_path-is_container json v path h =
      resolve_split-is_container (segments path) json v (ground arith)

  -- Where the preview finds a scalar at a trimmed path, extraction by that path gives its value.
  read_at_path-extract_value :
      (message : Text) (c : ℕ) (p : Text) (s : ShapeRead Num)
      → trim (c ∷ p) ≡ c ∷ p
      → read_at_path R message (c ∷ p) ≡ some s
      → (s.found ≡ true) × (s.extracted ≡ extract_value R message (some (c ∷ p)))
  unfolding read_at_path extract_value extract_at
  read_at_path-extract_value message c p s t h = elim (Option-cases (parse_loose_json R message)) [
    | inl e ↦ ground arith
    | inr (json, e) ↦ elim (Option-cases (resolve_path R json (c ∷ p))) [
      | inl e' ↦ ground arith
      | inr (v, e') ↦ ground (arith, resolve_path-is_container json v (c ∷ p) e')
    ]
  ]

  -- The path that is left to try when the stencil does not fit.
  abbrev pub path_of : Text → Option Text → Option Text
  path_of shape fallback_path = or_else (derive_read_path R shape) fallback_path

  by_path :
      (message : Text) (path : Option Text)
      → ((p : Text) → path ≡ some p → trim p ≡ p)
      → (or_default
          (non_empty path >>= λ p. read_at_path R message p)
          (whole_message R false message)).found
        ≡ true
      → (or_default
          (non_empty path >>= λ p. read_at_path R message p)
          (whole_message R false message)).extracted
        ≡ extract_value R message path
  unfolding whole_message
  by_path message none t h = ground arith
  by_path message (some []) t h = ground arith
  by_path message (some (c ∷ p)) t h = elim (Option-cases (read_at_path R message (c ∷ p))) [
    | inl e ↦ absurd (false≢true (rw e at h))
    | inr (s, e) ↦ rw e (read_at_path-extract_value message c p s (t (c ∷ p) refl) e).1
  ]

  legacy_path :
      (d fallback_path : Option Text)
      → ((p : Text) → fallback_path ≡ some p → trim p ≡ p)
      → non_empty (or_else d (non_empty (fallback_path >>= λ p. some (trim p))))
        ≡ non_empty (or_else d fallback_path)
  legacy_path (some p) fallback_path l = refl
  legacy_path none none l = refl
  legacy_path none (some []) l = rw (l [] refl)
  legacy_path none (some (c ∷ p)) l = rw (l (c ∷ p) refl)

  module _ (c : ℕ) (cs message : Text) (fallback_path : Option Text) (t : trim (c ∷ cs) ≡ c ∷ cs)
      (b : is_bare_token (c ∷ cs) ≡ false) where
    read_shape-some :
        {x : Text}
        → match_template (c ∷ cs) message ≡ some x
        → ((read_shape R (c ∷ cs) message fallback_path).extracted
            ≡ coerce_value R (Json.str x) message)
          × (read_value R (some (c ∷ cs)) message fallback_path
              ≡ coerce_value R (Json.str x) message)
    unfolding read_shape read_value
    read_shape-some e = (rw (t, read_shape) (rw (b, e)), rw (e, read_value))

    read_shape-none :
        ((p : Text) → fallback_path ≡ some p → trim p ≡ p)
        → match_template (c ∷ cs) message ≡ none
        → (read_shape R (c ∷ cs) message fallback_path
            ≡ or_default
                (non_empty (path_of (c ∷ cs) fallback_path) >>= λ p. read_at_path R message p)
                (whole_message R false message))
          × (read_value R (some (c ∷ cs)) message fallback_path
              ≡ extract_value R message (path_of (c ∷ cs) fallback_path))
    unfolding read_shape read_value
    read_shape-none l e = (
      rw (t, read_shape) (rw (b, e) (rw (legacy_path _ fallback_path l) (rw t))),
      rw (e, read_value),
    )

  -- For a trimmed shape that marks something beside the bare token, and trimmed paths, the value
  -- that the preview reports as found is the value that the panel reads.
  pub read_shape-read_value :
      (c : ℕ) (cs message : Text) (fallback_path : Option Text)
      → trim (c ∷ cs) ≡ c ∷ cs
      → is_bare_token (c ∷ cs) ≡ false
      → ((p : Text) → fallback_path ≡ some p → trim p ≡ p)
      → ((p : Text) → path_of (c ∷ cs) fallback_path ≡ some p → trim p ≡ p)
      → (read_shape R (c ∷ cs) message fallback_path).found ≡ true
      → (read_shape R (c ∷ cs) message fallback_path).extracted
        ≡ read_value R (some (c ∷ cs)) message fallback_path
  read_shape-read_value c cs message fallback_path t b l p h =
      elim (Option-cases (match_template (c ∷ cs) message)) [
        | inr (x, e) ↦ let m = read_shape-some c cs message fallback_path t b e in m.0 ∙ sym m.1
        | inl e ↦
            let m = read_shape-none c cs message fallback_path t b l e in
            rw (m.0, m.1) (by_path message (path_of (c ∷ cs) fallback_path) p (rw m.0 at h))
      ]
