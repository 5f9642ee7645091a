-- ===== src/Panel/Toggle/Echo.antt =====
-- A toggle recognises the messages of its own states.
use mqtt_dashboard.Prelude.{
  ℕ, ◌≡◌, refl, ap, ◌∙◌, Bool, true, false, not, List, [], ◌∷◌, Option, none, some, filter, inl,
  inr, ◌⊎◌, arith, if◌then◌else◌, ◌>>=◌, Option-cases,
}
use mqtt_dashboard.Prelude.Text.{Text, is_empty, trim, eq_text_refl}
use mqtt_dashboard.Prelude.Trim.{trim_idem}
use mqtt_dashboard.Json.{Json}
use mqtt_dashboard.Json.Runtime.{Runtime}
use mqtt_dashboard.Template.{has_token}
use mqtt_dashboard.Value.{has_word, parse_loose_json, resolve_path, show_json, is_container}
use mqtt_dashboard.Read.{non_empty}
use mqtt_dashboard.Read.Stencil.{match_template}
use mqtt_dashboard.Read.Path.{derive_read_path}
use mqtt_dashboard.Panel.Toggle.{
  ToggleShape, Which, on, off, configured, toggle_write_payloads, target_text, pick, value_at_path,
  extract_payload_value, reference, state_references, parse_toggle_state,
}

abbrev solid : List Text → List Text
solid = filter (λ t. not (is_empty t))

has_word-here : (c : ℕ) (w : Text) (ws : List Text) → has_word (c ∷ w) (solid ((c ∷ w) ∷ ws)) ≡ true
has_word-here c w ws = rw (eq_text_refl (c ∷ w))

has_word-there :
    (w x : Text) (ws : List Text)
    → has_word w (solid ws) ≡ true
    → has_word w (solid (x ∷ ws)) ≡ true
has_word-there w [] ws h = h
has_word-there w (c ∷ x) ws h = ground arith

one_of_three :
    (d : ℕ) (ds a b e : Text)
    → (b ≡ d ∷ ds) ⊎ (e ≡ d ∷ ds)
    → has_word (d ∷ ds) (solid (a ∷ b ∷ e ∷ [])) ≡ true
one_of_three d ds a b e (inl h) =
    rw h (has_word-there (d ∷ ds) a ((d ∷ ds) ∷ e ∷ []) (has_word-here d ds (e ∷ [])))
one_of_three d ds a b e (inr h) = rw h (
    has_word-there (d ∷ ds) a (b ∷ (d ∷ ds) ∷ [])
      (has_word-there (d ∷ ds) b ((d ∷ ds) ∷ []) (has_word-here d ds [])))

module _ (R : Runtime) (now : ℕ) (iso : Text) where
  open R use {Num, lower_case}

  target_text-trim : (v : Json Num) → trim (target_text R v) ≡ target_text R v
  unfolding trim
  target_text-trim Json.null = refl
  target_text-trim (Json.num n) = trim_idem (show_json R (Json.num n))
  target_text-trim v = trim_idem (show_json R v)

  value_at_path-trim : (path payload x : Text) → value_at_path R path payload ≡ some x → trim x ≡ x
  unfolding value_at_path
  value_at_path-trim path payload x h = elim (Option-cases (parse_loose_json R payload)) [
    | inl e ↦ ground arith
    | inr (json, e) ↦
        elim (Option-cases (if is_container R json then resolve_path R json path else none)) [
          | inl e' ↦ ground arith
          | inr (v, e') ↦
              let same : target_text R v ≡ x = ground arith in rw same at (target_text-trim v)
        ]
  ]

  pick-trim :
      (marked at_path : Option Text) (payload : Text)
      → ((x : Text) → at_path ≡ some x → trim x ≡ x)
      → trim (pick R marked at_path payload) ≡ pick R marked at_path payload
  pick-trim (some m) at_path payload h = trim_idem m
  pick-trim none none payload h = trim_idem payload
  pick-trim none (some x) payload h = h x refl

  at_path-trim :
      (path : Option Text) (payload x : Text)
      → (path >>= λ p. value_at_path R p payload) ≡ some x
      → trim x ≡ x
  at_path-trim none payload x h = ground arith
  at_path-trim (some p) payload x h = value_at_path-trim p payload x h

  extract_payload_value-trim :
      (payload : Text) (template : Option Text)
      → trim (extract_payload_value R payload template) ≡ extract_payload_value R payload template
  unfolding extract_payload_value
  extract_payload_value-trim payload template =
      let t = non_empty (template >>= λ x. some (trim x)) in
      pick-trim (t >>= λ x. (if has_token x then match_template x payload else none))
        (non_empty (t >>= derive_read_path R) >>= λ p. value_at_path R p payload) payload
        (at_path-trim (non_empty (t >>= derive_read_path R)) payload)

  -- The other state's references are tried first for `off`.
  abbrev pub clash : ToggleShape → Which → Text → Bool
  clash shape on lower = false
  clash shape off lower = has_word lower (state_references R now iso shape on)

  -- Any of the three texts that stand for a state is among its references.
  in_references :
      (shape : ToggleShape) (which : Which) (d : ℕ) (ds : Text)
      → (reference R (extract_payload_value R (configured shape which) shape.read_template)
          ≡ d ∷ ds)
        ⊎ (reference R (toggle_write_payloads R now iso shape which) ≡ d ∷ ds)
      → has_word (d ∷ ds) (state_references R now iso shape which) ≡ true
  unfolding state_references
  in_references shape which d ds =
      one_of_three d ds (reference R (configured shape which))
        (reference R (extract_payload_value R (configured shape which) shape.read_template))
        (reference R (toggle_write_payloads R now iso shape which))

  recognised :
      (shape : ToggleShape) (which : Which) (payload : Text) (c d : ℕ) (cs ds : Text)
      → extract_payload_value R payload shape.read_template ≡ c ∷ cs
      → lower_case (c ∷ cs) ≡ d ∷ ds
      → clash shape which (d ∷ ds) ≡ false
      → has_word (d ∷ ds) (state_references R now iso shape which) ≡ true
      → parse_toggle_state R now iso payload shape ≡ some (elim which [ on ↦ true | off ↦ false ])
  unfolding parse_toggle_state
  recognised shape on payload c d cs ds e l k h = rw (e, parse_toggle_state) (rw l (rw h))
  recognised shape off payload c d cs ds e l k h = rw (e, parse_toggle_state) (rw l (rw k (rw h)))

  extract_plain :
      (shape : ToggleShape) (payload : Text)
      → shape.read_template ≡ none
      → extract_payload_value R payload shape.read_template ≡ trim payload
  unfolding extract_payload_value
  extract_plain shape payload n = rw n

  -- A message that is a state's configured value reads as that state, whatever shape the toggle
  -- reads through, if the value read from it is not blank, also in lower case, and for `off` it is
  -- none of the references of `on`.
  pub parse_toggle_state-configured :
      (shape : ToggleShape) (which : Which) (c d : ℕ) (cs ds : Text)
      → extract_payload_value R (configured shape which) shape.read_template ≡ c ∷ cs
      → lower_case (c ∷ cs) ≡ d ∷ ds
      → clash shape which (d ∷ ds) ≡ false
      → parse_toggle_state R now iso (configured shape which) shape
        ≡ some (elim which [ on ↦ true | off ↦ false ])
  parse_toggle_state-configured shape which c d cs ds e l k =
      recognised shape which (configured shape which) c d cs ds e l k (
        in_references shape which d ds
          (inl (ap lower_case (extract_payload_value-trim _ shape.read_template ∙ e) ∙ l)))

-- A panel with no read shape recognises the message that it published for a state when the message
-- comes back at another time, if three conditions hold: the message for the state would be the same
-- at that time, as it is where it holds no time; the message is not blank, also in lower case; and,
-- for `off`, it is none of the references of `on` at that time.
pub parse_toggle_state-toggle_write_payloads :
    (R : Runtime) (now later : ℕ) (iso iso_later : Text) (shape : ToggleShape) (which : Which)
    (c d : ℕ) (cs ds : Text)
    → shape.read_template ≡ none
    → toggle_write_payloads R later iso_later shape which
      ≡ toggle_write_payloads R now iso shape which
    → trim (toggle_write_payloads R now iso shape which) ≡ c ∷ cs
    → R.lower_case (c ∷ cs) ≡ d ∷ ds
    → clash R later iso_later shape which (d ∷ ds) ≡ false
    → parse_toggle_state R later iso_later (toggle_write_payloads R now iso shape which) shape
      ≡ some (elim which [ on ↦ true | off ↦ false ])
parse_toggle_state-toggle_write_payloads R now later iso iso_later shape which c d cs ds n same t l
      k =
    recognised R later iso_later shape which (toggle_write_payloads R now iso shape which) c d cs ds
      (extract_plain R later iso_later shape _ n ∙ t) l k
      (in_references R later iso_later shape which d ds
        (inr (ap R.lower_case (ap trim same ∙ t) ∙ l)))
