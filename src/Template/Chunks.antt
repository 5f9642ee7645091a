-- ===== src/Template/Chunks.antt =====
-- `parseTemplateChunks` and `countTokens` of payloadShape.ts, and what the chunks say of the text.
use mqtt_dashboard.Prelude.{
  ℕ, zero, suc, ◌+◌, ◌<◌, ◌≡◌, refl, sym, ap₂, ◌∙◌, List, [], ◌∷◌, ◌++◌, none, some, length, arith,
  Option-cases, inl, inr, Bool, true, false, map, concat, filter, is_some, ◌↔◌, append-nil,
}
use native.Mathlib.Nat.{add-zero}
use mqtt_dashboard.Prelude.Text.{Text}
use mqtt_dashboard.Scan.{exec, replace}
use mqtt_dashboard.Scan.Laws.{exec-length, replace-none, replace-some, replace-id}
use mqtt_dashboard.Template.{
  token_pattern, unwrap_token, canonical_token, has_any_token, normalize_template,
}
use mqtt_dashboard.Template.Token.{token_pattern-Splits, token_pattern-IsNonEmpty}

pub data ChunkType : Type 0 where
  text token : ChunkType

pub record ParsedChunk : Type 0 where
  pub type : ChunkType
  pub raw : Text
  pub name : Text
  pub canonical : Text
  pub is_token : Bool
  pub text : Text
  pub token_name : Text
  pub start : ℕ
  pub end : ℕ

abbrev text_chunk : Text → ℕ → ℕ → ParsedChunk
text_chunk s from to = record {
  type = ChunkType.text;
  raw = s;
  name = [];
  canonical = s;
  is_token = false;
  text = s;
  token_name = [];
  start = from;
  end = to;
}

token_chunk : Text → ℕ → ℕ → ParsedChunk
token_chunk raw from to =
    let name = unwrap_token raw in
    record {
      type = ChunkType.token;
      raw = raw;
      name = name;
      canonical = canonical_token name;
      is_token = true;
      text = raw;
      token_name = name;
      start = from;
      end = to;
    }

-- The text between the last match and this one makes a chunk only if there is any.
abbrev text_before : Text → ℕ → List ParsedChunk → List ParsedChunk
text_before [] last chunks = chunks
text_before (c ∷ s) last chunks = text_chunk (c ∷ s) last (last + length (c ∷ s)) ∷ chunks

-- The loop of `regex.exec`; `last` is `lastIndex`, and `s` is the template from there on.
chunks_from : ℕ → ℕ → Text → List ParsedChunk
chunks_from zero last s = []
chunks_from (suc fuel) last s = elim (exec token_pattern s) [
  | none ↦ text_before s last []
  | some (b, m, r) ↦
      let at = last + length b in
      text_before b last (token_chunk m at (at + length m) ∷ chunks_from fuel (at + length m) r)
]

-- Matches are not empty, so there are at most as many rounds as characters.
unfoldable pub parse_template_chunks : Text → List ParsedChunk
unfolding chunks_from exec token_pattern token_chunk unwrap_token
parse_template_chunks template = chunks_from (suc (length template)) 0 template

unfoldable pub count_tokens : Text → ℕ
unfolding parse_template_chunks
count_tokens template = length (filter (λ c. c.is_token) (parse_template_chunks template))

-- The chunks stand side by side: none is empty, each starts where the one before it ends, the
-- first at `from` and the last ending at `to`.
abbrev pub Tiles : ℕ → ℕ → List ParsedChunk → Type 0
Tiles from to [] = from ≡ to
Tiles from to (c ∷ cs) =
    (c.start ≡ from) × (c.end ≡ from + length c.raw) × (0 < length c.raw) × Tiles c.end to cs

chunks_from-none :
    (fuel last : ℕ) (s : Text)
    → exec token_pattern s ≡ none
    → chunks_from (suc fuel) last s ≡ text_before s last []
unfolding chunks_from
chunks_from-none fuel last s h = rw (h, chunks_from)

chunks_from-some :
    (fuel last : ℕ) (s : Text) {b m r : Text}
    → exec token_pattern s ≡ some (b, m, r)
    → chunks_from (suc fuel) last s
      ≡ text_before b last (
          token_chunk m (last + length b) (last + length b + length m)
          ∷ chunks_from fuel (last + length b + length m) r)
unfolding chunks_from
chunks_from-some fuel last s h = rw (h, chunks_from)

-- A text made of the chunks, where a chunk that is no token stands for itself.
module _ (f : ParsedChunk → Text) (g : Text → Text)
    (text_is : (s : Text) (i j : ℕ) → f (text_chunk s i j) ≡ s)
    (token_is : (s : Text) (i j : ℕ) → f (token_chunk s i j) ≡ g s) where
  concat-text_before :
      (b : Text) (last : ℕ) (cs : List ParsedChunk)
      → concat (map f (text_before b last cs)) ≡ b ++ concat (map f cs)
  concat-text_before [] last cs = refl
  concat-text_before (c ∷ b) last cs = rw text_is

  concat-chunks_from :
      (fuel last : ℕ) (s : Text)
      → length s < fuel
      → concat (map f (chunks_from fuel last s)) ≡ replace fuel token_pattern g s
  concat-chunks_from zero last s h = elim h [ ]
  concat-chunks_from (suc fuel) last s h = elim (Option-cases (exec token_pattern s)) [
    | inl e ↦
        rw (chunks_from-none fuel last s e, replace-none (suc fuel) token_pattern g s e)
          (concat-text_before s last [] ∙ append-nil s)
    | inr ((b, m, r), e) ↦
        let l = exec-length token_pattern-Splits token_pattern-IsNonEmpty s b m r e in
        let at = last + length b in
        rw (chunks_from-some fuel last s e, replace-some fuel token_pattern g s e)
          (concat-text_before b last _
            ∙ ap₂ (λ u t. b ++ (u ++ t)) (token_is m at (at + length m))
                (concat-chunks_from fuel (at + length m) r (omega arith)))
  ]

text_before-Tiles :
    (b : Text) (last to : ℕ) (cs : List ParsedChunk)
    → Tiles (last + length b) to cs
    → Tiles last to (text_before b last cs)
text_before-Tiles [] last to cs h = rw add-zero at h
text_before-Tiles (c ∷ b) last to cs h = (refl, refl, omega arith, h)

chunks_from-Tiles :
    (fuel last to : ℕ) (s : Text)
    → length s < fuel
    → to ≡ last + length s
    → Tiles last to (chunks_from fuel last s)
unfolding token_chunk
chunks_from-Tiles zero last to s h k = elim h [ ]
chunks_from-Tiles (suc fuel) last to s h k = elim (Option-cases (exec token_pattern s)) [
  | inl e ↦ rw (chunks_from-none fuel last s e) (text_before-Tiles s last to [] (sym k))
  | inr ((b, m, r), e) ↦
      let l = exec-length token_pattern-Splits token_pattern-IsNonEmpty s b m r e in
      let at = last + length b + length m in
      rw (chunks_from-some fuel last s e) (
        text_before-Tiles b last to _
          (refl, refl, l.1, chunks_from-Tiles fuel at to r (omega arith) (omega arith)))
]

-- The chunks of a template are non-empty pieces that stand side by side from its start to its end,
-- and each chunk's raw text is what stands there.
pub parse_template_chunks-Tiles :
    (template : Text)
    → Tiles 0 (length template) (parse_template_chunks template)
      × (concat (map (λ c. c.raw) (parse_template_chunks template)) ≡ template)
unfolding parse_template_chunks
parse_template_chunks-Tiles t = (
  chunks_from-Tiles (suc (length t)) 0 (length t) t (omega arith) (omega arith),
  concat-chunks_from (λ c. c.raw) (λ m. m) (λ s i j. refl) (λ s i j. refl) (suc (length t)) 0 t
        (omega arith)
      ∙ replace-id token_pattern-Splits (suc (length t)) t,
)

-- Normalising a template writes each chunk in its canonical form.
pub normalize_template-parse_template_chunks :
    (template : Text)
    → normalize_template template ≡ concat (map (λ c. c.canonical) (parse_template_chunks template))
unfolding parse_template_chunks normalize_template
normalize_template-parse_template_chunks t = sym (
    concat-chunks_from (λ c. c.canonical) (λ m. canonical_token (unwrap_token m)) (λ s i j. refl)
      (λ s i j. refl) (suc (length t)) 0 t (omega arith))

abbrev tokens_of : List ParsedChunk → ℕ
tokens_of cs = length (filter (λ c. c.is_token) cs)

tokens_of-text_before :
    (b : Text) (last : ℕ) (cs : List ParsedChunk) → tokens_of (text_before b last cs) ≡ tokens_of cs
tokens_of-text_before [] last cs = refl
tokens_of-text_before (c ∷ b) last cs = refl

tokens_of-chunks_from :
    (fuel last : ℕ) (s : Text)
    → (is_some (exec token_pattern s) ≡ true) ↔ (0 < tokens_of (chunks_from (suc fuel) last s))
unfolding token_chunk
tokens_of-chunks_from fuel last s = elim (Option-cases (exec token_pattern s)) [
  | inl e ↦ rw (e, chunks_from-none fuel last s e, tokens_of-text_before s last []) (ground arith)
  | inr ((b, m, r), e) ↦
      rw (e, chunks_from-some fuel last s e, tokens_of-text_before b last _) (ground arith)
]

-- `hasAnyToken` and `countTokens` agree on whether there is a token.
pub has_any_token-count_tokens :
    (template : Text) → (has_any_token template ≡ true) ↔ (0 < count_tokens template)
unfolding has_any_token count_tokens parse_template_chunks
has_any_token-count_tokens t = tokens_of-chunks_from (length t) 0 t
