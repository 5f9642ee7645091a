-- ===== src/Template/KeepOne/Offset.antt =====
-- Where an offset lands: the map moves with the text and never out of it.
use mqtt_dashboard.Prelude.{
  ℕ, zero, suc, ◌+◌, ◌-◌, ◌≤◌, ◌<◌, ◌≡◌, refl, sym, ap, ◌∙◌, [], ◌++◌, none, some, length, inl, inr,
  length-append, arith, Option-cases, if◌then◌else◌, leb, ltb,
}
use mqtt_dashboard.Prelude.Text.{Text}
use mqtt_dashboard.Scan.{lit, exec, replace, replace_all}
use mqtt_dashboard.Scan.Laws.{exec-length, replace-none, replace-some}
use mqtt_dashboard.Template.{value_token}
use mqtt_dashboard.Template.Token.{value_token-Splits, value_token-IsNonEmpty, value_token-exec}
use mqtt_dashboard.Template.KeepOne.{
  keep_one_token, offset_step, offset_loop, offset_after_keep_one_token,
}

-- How many of the characters that are dropped stand before the offset.
abbrev removed_here : ℕ → ℕ → ℕ
removed_here offset dropped =
    if leb (dropped + length value_token) offset
    then length value_token
    else if ltb dropped offset
    then offset - dropped
    else 0

removed : ℕ → ℕ → Text → ℕ → ℕ
removed zero pos s offset = 0
removed (suc fuel) pos s offset = elim (exec (lit value_token) s) [
  | none ↦ 0
  | some (b, m, r) ↦
      let dropped = pos + length b in
      removed_here offset dropped + removed fuel (dropped + length value_token) r offset
]

removed-none :
    (fuel pos : ℕ) (s : Text) (offset : ℕ)
    → exec (lit value_token) s ≡ none
    → removed (suc fuel) pos s offset ≡ 0
unfolding removed
removed-none fuel pos s offset h = rw (h, removed)

removed-some :
    (fuel pos : ℕ) (s : Text) (offset : ℕ) {b m r : Text}
    → exec (lit value_token) s ≡ some (b, m, r)
    → removed (suc fuel) pos s offset
      ≡ removed_here offset (pos + length b)
        + removed fuel (pos + length b + length value_token) r offset
unfolding removed
removed-some fuel pos s offset h = rw (h, removed)

offset_loop-removed :
    (fuel pos : ℕ) (s : Text) (offset result : ℕ)
    → offset_loop fuel pos s offset result ≡ result - removed fuel pos s offset
unfolding offset_loop
offset_loop-removed zero pos s offset result = unfold removed in omega arith
offset_loop-removed (suc fuel) pos s offset result =
    elim (Option-cases (exec (lit value_token) s)) [
      | inl e ↦ rw (removed-none fuel pos s offset e) (rw (e, offset_loop) (omega arith))
      | inr ((b, m, r), e) ↦
          let dropped = pos + length b in
          rw (removed-some fuel pos s offset e) (
            rw (e, offset_loop)
              (ground (
                arith,
                offset_loop-removed fuel (dropped + length value_token) r offset
                    (offset_step offset dropped result),
              )))
    ]

removed_before :
    (fuel pos : ℕ) (s : Text) (offset : ℕ) → offset ≤ pos → removed fuel pos s offset ≡ 0
removed_before zero pos s offset h = unfold removed in refl
removed_before (suc fuel) pos s offset h = elim (Option-cases (exec (lit value_token) s)) [
  | inl e ↦ removed-none fuel pos s offset e
  | inr ((b, m, r), e) ↦ ground (
    arith,
    removed-some fuel pos s offset e,
    removed_before fuel (pos + length b + length value_token) r offset,
  )
]

-- Moving the offset on passes at most as many dropped characters as it moves.
removed_le :
    (fuel pos : ℕ) (s : Text) (offset offset' : ℕ)
    → offset ≤ offset'
    → removed fuel pos s offset' ≤ removed fuel pos s offset + (offset' - offset)
removed_le zero pos s offset offset' h = unfold removed in omega arith
removed_le (suc fuel) pos s offset offset' h = elim (Option-cases (exec (lit value_token) s)) [
  | inl e ↦ rw (removed-none fuel pos s offset' e) (omega arith)
  | inr ((b, m, r), e) ↦
      let next = pos + length b + length value_token in
      ground (
        arith,
        removed-some fuel pos s offset e,
        removed-some fuel pos s offset' e,
        removed_le fuel next r offset offset' h,
        removed_le fuel next r next offset',
        removed_before fuel next r offset,
        removed_before fuel next r offset',
        removed_before fuel next r next,
      )
]

removed_mono :
    (fuel pos : ℕ) (s : Text) (offset offset' : ℕ)
    → offset ≤ offset'
    → removed fuel pos s offset ≤ removed fuel pos s offset'
removed_mono zero pos s offset offset' h = unfold removed in omega arith
removed_mono (suc fuel) pos s offset offset' h = elim (Option-cases (exec (lit value_token) s)) [
  | inl e ↦ rw (removed-none fuel pos s offset e) (omega arith)
  | inr ((b, m, r), e) ↦
      let next = pos + length b + length value_token in
      ground (
        arith,
        removed-some fuel pos s offset e,
        removed-some fuel pos s offset' e,
        removed_mono fuel next r offset offset' h,
      )
]

-- At the end of the text every dropped character has been passed.
removed_end :
    (fuel pos : ℕ) (s : Text)
    → length s < fuel
    → removed fuel pos s (pos + length s) + length (replace fuel (lit value_token) (λ x. []) s)
      ≡ length s
removed_end zero pos s h = elim h [ ]
removed_end (suc fuel) pos s h = elim (Option-cases (exec (lit value_token) s)) [
  | inl e ↦ rw (removed-none fuel pos s _ e, replace-none (suc fuel) _ _ s e) (omega arith)
  | inr ((b, m, r), e) ↦
      let next = pos + length b + length value_token in
      let l = exec-length value_token-Splits value_token-IsNonEmpty s b m r e in
      let k = ap length (value_token-exec s b m r e) in
      let same : pos + length s ≡ next + length r = omega arith in
      rw (removed-some fuel pos s _ e, replace-some fuel _ _ s e, same)
        (ground (
          arith,
          removed_end fuel next r,
          length-append b (replace fuel (lit value_token) (λ x. []) r),
        ))
]

offset_after-none :
    (t : Text) (offset : ℕ)
    → exec (lit value_token) t ≡ none
    → (offset_after_keep_one_token t offset ≡ offset) × (keep_one_token t ≡ t)
unfolding offset_after_keep_one_token keep_one_token
offset_after-none t offset h = (rw (h, offset_after_keep_one_token), rw (h, keep_one_token))

offset_after-some :
    (t : Text) (offset : ℕ) {b m r : Text}
    → exec (lit value_token) t ≡ some (b, m, r)
    → (offset_after_keep_one_token t offset
        ≡ offset - removed (suc (length r)) (length b + length value_token) r offset)
      × (keep_one_token t ≡ b ++ (m ++ replace (suc (length r)) (lit value_token) (λ x. []) r))
unfolding offset_after_keep_one_token keep_one_token replace_all
offset_after-some t offset {b} {r} h = (
  rw (h, offset_after_keep_one_token)
      (offset_loop-removed (suc (length r)) (length b + length value_token) r offset offset),
  rw (h, keep_one_token),
)

offset_after_keep_one_token_end :
    (t : Text) → offset_after_keep_one_token t (length t) ≡ length (keep_one_token t)
offset_after_keep_one_token_end t = elim (Option-cases (exec (lit value_token) t)) [
  | inl e ↦ let h = offset_after-none t (length t) e in h.0 ∙ ap length (sym h.1)
  | inr ((b, m, r), e) ↦
      let h = offset_after-some t (length t) e in
      let l = exec-length value_token-Splits value_token-IsNonEmpty t b m r e in
      let k = ap length (value_token-exec t b m r e) in
      let rest = replace (suc (length r)) (lit value_token) (λ x. []) r in
      let same : length t ≡ length b + length value_token + length r = omega arith in
      let end = removed_end (suc (length r)) (length b + length value_token) r (omega arith) in
      rw (h.0, h.1)
        (rw same (omega (arith, end, length-append b (m ++ rest), length-append m rest)))
]

offset_after_keep_one_token_mono :
    (t : Text) (offset offset' : ℕ)
    → offset ≤ offset'
    → (offset_after_keep_one_token t offset ≤ offset_after_keep_one_token t offset')
      × (offset_after_keep_one_token t offset'
          ≤ offset_after_keep_one_token t offset + (offset' - offset))
offset_after_keep_one_token_mono t offset offset' h =
    elim (Option-cases (exec (lit value_token) t)) [
      | inl e ↦ omega (arith, (offset_after-none t offset e).0, (offset_after-none t offset' e).0)
      | inr ((b, m, r), e) ↦
          let pos = length b + length value_token in
          omega (
            arith,
            (offset_after-some t offset e).0,
            (offset_after-some t offset' e).0,
            removed_le (suc (length r)) pos r offset offset' h,
            removed_mono (suc (length r)) pos r offset offset' h,
          )
    ]

-- A later offset lands no earlier, the distance between two offsets does not grow, and the end of
-- the template lands at the end of what is kept of it.
pub offset_after_keep_one_token_lem :
    (t : Text) (offset offset' : ℕ)
    → offset ≤ offset'
    → (offset_after_keep_one_token t offset ≤ offset_after_keep_one_token t offset')
      × (offset_after_keep_one_token t offset'
          ≤ offset_after_keep_one_token t offset + (offset' - offset))
      × (offset_after_keep_one_token t (length t) ≡ length (keep_one_token t))
offset_after_keep_one_token_lem t offset offset' h =
    let mono = offset_after_keep_one_token_mono t offset offset' h in
    (mono.0, mono.1, offset_after_keep_one_token_end t)
