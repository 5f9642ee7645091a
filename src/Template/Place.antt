-- ===== src/Template/Place.antt =====
-- `placeToken` of payloadShape.ts: the token put in place of a selection.
use mqtt_dashboard.Prelude.{
  larger, smaller, ℕ, zero, suc, ◌+◌, ◌-◌, ◌≡◌, refl, sym, ap, ap₂, ◌∙◌, [], ◌∷◌, ◌++◌, length,
  take, drop, arith, length-append, take-append-drop, take-append, drop-append,
}
use mqtt_dashboard.Prelude.Text.{Text}
use mqtt_dashboard.Prelude.Slice.{slice, drop-drop, drop-pieces}

pub record Placed : Type 0 where
  pub template : Text
  pub caret : ℕ
  pub covered : Text

-- What is returned for the selection between two offsets of the template.
abbrev pub placed : Text → ℕ → ℕ → Text → Placed
placed template from to token = record {
  template = take from template ++ (token ++ drop to template);
  caret = from + length token;
  covered = slice template from to;
}

-- `Math.max(0, …)` changes nothing here: an offset of a selection is not negative.
unfoldable pub place_token : Text → ℕ → ℕ → Text → Placed
place_token template start end token =
    let from = smaller start (length template) in
    placed template from (larger from (smaller end (length template))) token

length-take : (n : ℕ) (s : Text) → length (take n s) ≡ smaller n (length s)
length-take zero s = ground arith
length-take (suc n) [] = ground arith
length-take (suc n) (c ∷ s) = ground (arith, length-take n s)

-- Placing at a piece of the template takes its place.
placed-append :
    (b m a token : Text)
    → placed (b ++ (m ++ a)) (length b) (length b + length m) token
      ≡ record { template = b ++ (token ++ a); caret = length b + length token; covered = m }
placed-append b m a token = rw (take-append b (m ++ a), drop-pieces b m a, inside) refl
  where
    inside : slice (b ++ (m ++ a)) (length b) (length b + length m) ≡ m
    inside = ap₂ (λ n r. take n r) (omega arith) (drop-append b (m ++ a)) ∙ take-append m a

placed-place_token :
    (b m a token : Text)
    → place_token (b ++ (m ++ a)) (length b) (length b + length m) token
      ≡ placed (b ++ (m ++ a)) (length b) (length b + length m) token
unfolding place_token
placed-place_token b m a token =
    ap₂ (λ from to. placed (b ++ (m ++ a)) from to token)
      (ground (arith, length-append b (m ++ a), length-append m a))
      (ground (arith, length-append b (m ++ a), length-append m a))

-- Whatever is selected, the template falls into what stands before the token, the text that it
-- covers and what stands behind it.
place_token-pieces :
    (template : Text) (start end : ℕ) (token : Text)
    → (b : Text) × (m : Text) × (a : Text) × (template ≡ b ++ (m ++ a))
      × (place_token template start end token
          ≡ record { template = b ++ (token ++ a); caret = length b + length token; covered = m })
unfolding place_token
place_token-pieces template start end token =
    let from = smaller start (length template) in
    let to = larger from (smaller end (length template)) in
    let tail = drop-drop from (to - from) to template (ground arith) in
    (
      take from template,
      slice template from to,
      drop to template,
      sym (take-append-drop from template)
          ∙ ap (λ r. take from template ++ r)
              (sym (take-append-drop (to - from) (drop from template))
                ∙ ap (λ r. slice template from to ++ r) tail),
      ap
          (λ n. record {
            template = take from template ++ (token ++ drop to template);
            caret = n + length token;
            covered = slice template from to;
          })
          (ground (arith, length-take from template)),
    )

place_token-back :
    (b m a token : Text)
    → place_token
        (b ++ (token ++ a))
        (length b + length token - length token)
        (length b + length token)
        m
      ≡ record {
        template = b ++ (m ++ a);
        caret = length b + length token - length token + length m;
        covered = token;
      }
place_token-back b m a token =
    rw (start_of (length b) (length token))
      (placed-place_token b token a m ∙ placed-append b token a m)
  where
    start_of : (x y : ℕ) → x + y - y ≡ x
    start_of x y = omega arith

undo_pieces :
    (template token b m a : Text) (p : Placed)
    → template ≡ b ++ (m ++ a)
    → p ≡ record { template = b ++ (token ++ a); caret = length b + length token; covered = m }
    → place_token p.template (p.caret - length token) p.caret p.covered ≡ record {
      template = template;
      caret = p.caret - length token + length p.covered;
      covered = token;
    }
undo_pieces template token b m a p e f = rw (f, e) (place_token-back b m a token)

-- Selecting the token that was placed and putting the covered text back gives the template again,
-- whatever the selection was, also beyond the end or with its ends exchanged.
pub place_token_undo :
    (template : Text) (start end : ℕ) (token : Text)
    → let p = place_token template start end token in
      place_token p.template (p.caret - length token) p.caret p.covered ≡ record {
        template = template;
        caret = p.caret - length token + length p.covered;
        covered = token;
      }
place_token_undo template start end token =
    let (b, m, a, e, f) = place_token-pieces template start end token in
    undo_pieces template token b m a (place_token template start end token) e f
