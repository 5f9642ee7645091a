-- ===== src/Dashboard/RoundTrip.antt =====
-- An exported dashboard imports as it was, and an import fails on the first check that fails.
use mqtt_dashboard.Prelude.{
  ℕ, ◌+◌, ◌≡◌, refl, ◌∙◌, ◌⊎◌, true, false, List, [], ◌∷◌, some, map, arith, All, inl, inr,
  Bool-cases,
}
use mqtt_dashboard.Prelude.Text.{Text, is_empty, trim}
use mqtt_dashboard.Json.{Json}
use mqtt_dashboard.Json.Runtime.{Runtime}
use mqtt_dashboard.Dashboard.{
  Panel, export_panel, items_json, build_dashboard_export, ok, number_or, parse_panel, parse_panels,
  panel_json, given_type, given_name, parse_envelope, parse_dashboard_import,
}

module _ (R : Runtime) where
  open R use {Num, eq_num, numeral, json_parse, json_stringify}

  -- A panel that an import leaves as it is: it has a type, a width and a height, and a coordinate
  -- that counts as 0 is 0.
  pub record IsPlaced (p : Panel R) : Type 0 where
    pub has_type : is_empty p.panel_type ≡ false
    pub has_w : eq_num p.w (numeral 0) ≡ false
    pub has_h : eq_num p.h (numeral 0) ≡ false
    pub plain_x : (eq_num p.x (numeral 0) ≡ false) ⊎ (p.x ≡ numeral 0)
    pub plain_y : (eq_num p.y (numeral 0) ≡ false) ⊎ (p.y ≡ numeral 0)

  number_or-not_zero :
      (n d : Num) → eq_num n (numeral 0) ≡ false → number_or R (some (Json.num n)) d ≡ n
  number_or-not_zero n d h = rw h

  number_or-coordinate :
      (n : Num)
      → (eq_num n (numeral 0) ≡ false) ⊎ (n ≡ numeral 0)
      → number_or R (some (Json.num n)) (numeral 0) ≡ n
  number_or-coordinate n (inl h) = number_or-not_zero n (numeral 0) h
  number_or-coordinate n (inr e) = elim (Bool-cases (eq_num n (numeral 0))) [
    | inl zeroed ↦ rw (zeroed, e)
    | inr other ↦ number_or-not_zero n (numeral 0) other
  ]

  given_type-some : (t : Text) → is_empty t ≡ false → given_type R (some (Json.str t)) ≡ some t
  given_type-some [] h = ground arith
  given_type-some (c ∷ t) h = refl

  given_name-some :
      (t : Text) → is_empty (trim t) ≡ false → given_name R (some (Json.str t)) ≡ some t
  given_name-some t h = rw h

  parse_panel-panel_json :
      (i : ℕ) (p : Panel R)
      → IsPlaced p
      → parse_panel R i (panel_json R (export_panel R p)) ≡ ok (export_panel R p)
  unfolding parse_panel
  parse_panel-panel_json i p placed = rw (
    given_type-some p.panel_type placed.has_type,
    number_or-coordinate p.x placed.plain_x,
    number_or-coordinate p.y placed.plain_y,
    number_or-not_zero p.w (numeral 4) placed.has_w,
    number_or-not_zero p.h (numeral 4) placed.has_h,
  )

  parse_panels-items_json :
      (i : ℕ) (ps : List (Panel R))
      → All IsPlaced ps
      → parse_panels R i (items_json R (map (export_panel R) ps)) ≡ ok (map (export_panel R) ps)
  unfolding parse_panels
  parse_panels-items_json i [] h = refl
  parse_panels-items_json i (p ∷ ps) h =
      rw (parse_panel-panel_json i p h.0, parse_panels-items_json (i + 1) ps h.1)

  parse_dashboard_import-some :
      (t : Text) (document : Json Num)
      → json_parse t ≡ some document
      → parse_dashboard_import R t ≡ parse_envelope R document
  unfolding parse_dashboard_import
  parse_dashboard_import-some t document h = rw (h, parse_dashboard_import)

  parse_envelope-build_dashboard_export :
      (name : Text) (panels : List (Panel R))
      → is_empty (trim name) ≡ false
      → All IsPlaced panels
      → eq_num (numeral 1) (numeral 1) ≡ true
      → parse_envelope R (build_dashboard_export R name panels)
        ≡ ok (name, map (export_panel R) panels)
  unfolding parse_envelope build_dashboard_export
  parse_envelope-build_dashboard_export name panels n h one =
      rw (one, given_name-some name n, parse_panels-items_json 0 panels h)

  -- A dashboard whose name is not blank, and each of whose panels has a type that is not empty, a
  -- width and a height that are not 0 and coordinates that, where they equal 0, are the plain 0,
  -- imports from its export with its name and with its panels, each as it is in the envelope, where
  -- `JSON.parse` gives back what `JSON.stringify` printed.
  pub parse_dashboard_import-build_dashboard_export :
      (name : Text) (panels : List (Panel R))
      → is_empty (trim name) ≡ false
      → All IsPlaced panels
      → eq_num (numeral 1) (numeral 1) ≡ true
      → json_parse (json_stringify (build_dashboard_export R name panels))
        ≡ some (build_dashboard_export R name panels)
      → parse_dashboard_import R (json_stringify (build_dashboard_export R name panels))
        ≡ ok (name, map (export_panel R) panels)
  parse_dashboard_import-build_dashboard_export name panels n h one law =
      parse_dashboard_import-some _ (build_dashboard_export R name panels) law
      ∙ parse_envelope-build_dashboard_export name panels n h one
