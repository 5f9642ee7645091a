-- ===== src/Automations/Toggled.antt =====
-- A toggle of a job that fails leaves the jobs as if it had not been asked for.
use mathlib.Core.Logic.{inl, inr}
use mqtt_dashboard.Prelude.{
  ◌≡◌, refl, sym, ap, ◌∙◌, Bool, true, false, not, ◌&&◌, ◌||◌, List, [], ◌∷◌, ◌++◌, some, any, all,
  arith, if◌then◌else◌, Bool-cases, append-nil,
}
use mqtt_dashboard.Prelude.Text.{Text, codes, eq_text, eq_text_iff, eq_text_flip, eq_text_refl}
use mqtt_dashboard.Automations.{
  AutomationItem, Page, switch, set_enabled, add_id, delete_id, toggle_begins, toggle_fails,
}
use mqtt_dashboard.Automations.Shown.{same_retain}

-- The page's jobs of the panel are switched on or off as this one.
unfoldable pub agrees : AutomationItem → AutomationItem → Bool
agrees job j = if eq_text j.panel_id job.panel_id then same_retain j.enabled job.enabled else true

same_retain_eq : (a b : Bool) → same_retain a b ≡ true → a ≡ b
same_retain_eq a b h = ground arith

-- No id is that of both panels.
not_both : (a b c : Text) → eq_text a b ≡ true → eq_text c b ≡ false → eq_text a c ≡ false
not_both a b c p q = elim (Bool-cases (eq_text a c)) [
  | inl e ↦ ground (arith, eq_text_iff a b, eq_text_iff a c, eq_text_iff c b)
  | inr e ↦ e
]

switch_back :
    (job : AutomationItem) (other : Text) (b c : Bool) (j : AutomationItem)
    → eq_text other job.panel_id ≡ false
    → agrees job j ≡ true
    → switch job.panel_id job.enabled (switch other c (switch job.panel_id b j)) ≡ switch other c j
unfolding agrees
switch_back job other b c j d h = elim (Bool-cases (eq_text j.panel_id job.panel_id)) [
  | inl e ↦
      let n = not_both j.panel_id job.panel_id other e d in
      let s =
        same_retain_eq j.enabled job.enabled
          (sym (ap (λ t. if t then same_retain j.enabled job.enabled else true) e) ∙ h) in
      rw (e, n, e) (ap (λ v. record j { enabled = v }) (sym s))
  | inr e ↦ elim (Bool-cases (eq_text j.panel_id other)) [
    | inl f ↦ rw (e, f, e) refl
    | inr f ↦ rw (e, f, e) refl
  ]
]

and_left : (a b : Bool) → (a && b) ≡ true → a ≡ true
and_left a b h = ground arith

and_right : (a b : Bool) → (a && b) ≡ true → b ≡ true
and_right a b h = ground arith

set_enabled_back :
    (job : AutomationItem) (other : Text) (b c : Bool) (jobs : List AutomationItem)
    → eq_text other job.panel_id ≡ false
    → all (agrees job) jobs ≡ true
    → set_enabled job.panel_id job.enabled (set_enabled other c (set_enabled job.panel_id b jobs))
      ≡ set_enabled other c jobs
unfolding set_enabled
set_enabled_back job other b c [] d h = refl
set_enabled_back job other b c (j ∷ jobs) d h = λ i.
    switch_back job other b c j d (and_left (agrees job j) (all (agrees job) jobs) h) i
    ∷ set_enabled_back job other b c jobs d (and_right (agrees job j) (all (agrees job) jobs) h) i

delete_id_absent :
    (id : Text) (ids : List Text) → any (λ i. eq_text i id) ids ≡ false → delete_id id ids ≡ ids
delete_id_absent id [] h = refl
delete_id_absent id (i ∷ ids) h = ground (arith, delete_id_absent id ids)

delete_id-append :
    (id : Text) (xs ys : List Text) → delete_id id (xs ++ ys) ≡ delete_id id xs ++ delete_id id ys
delete_id-append id [] ys = refl
delete_id-append id (x ∷ xs) ys = ground (arith, delete_id-append id xs ys)

any-append :
    (id : Text) (xs ys : List Text)
    → any (λ i. eq_text i id) (xs ++ ys)
      ≡ (any (λ i. eq_text i id) xs || any (λ i. eq_text i id) ys)
any-append id [] ys = refl
any-append id (x ∷ xs) ys = ground (arith, any-append id xs ys)

delete_id-add_id :
    (id other : Text) (ids : List Text)
    → eq_text other id ≡ false
    → any (λ i. eq_text i id) ids ≡ false
    → delete_id id (add_id other (add_id id ids)) ≡ add_id other ids
delete_id-add_id id other ids d h = elim (Bool-cases (any (λ i. eq_text i other) ids)) [
  | inl e ↦ ground (
    arith,
    d,
    h,
    e,
    any-append other ids (id ∷ []),
    delete_id-append id ids (id ∷ []),
    delete_id_absent id ids,
    eq_text_refl id,
    append-nil ids,
  )
  | inr e ↦ ground (
    arith,
    d,
    h,
    e,
    eq_text_flip other id d,
    any-append other ids (id ∷ []),
    delete_id-append id (ids ++ id ∷ []) (other ∷ []),
    delete_id-append id ids (id ∷ []),
    delete_id_absent id ids,
    eq_text_refl id,
    append-nil ids,
  )
]

-- Where the page's jobs of a panel are all switched as the one that is toggled, and no toggle of
-- it is under way: when the toggle fails, and meanwhile one of another panel's job has begun,
-- then the page is what it would be with the other toggle alone, but for the message that says so.
pub toggle_fails-toggle_begins :
    (job other : AutomationItem) (p : Page)
    → eq_text other.panel_id job.panel_id ≡ false
    → all (agrees job) p.jobs ≡ true
    → any (λ i. eq_text i job.panel_id) p.toggling_ids ≡ false
    → toggle_fails job (toggle_begins other (toggle_begins job p))
      ≡ record (toggle_begins other p) { toast = some (codes "Failed to update status", false) }
unfolding toggle_fails toggle_begins
toggle_fails-toggle_begins job other p d h n = λ i. record (toggle_begins other p) {
  jobs = set_enabled_back job other.panel_id (not job.enabled) (not other.enabled) p.jobs d h i;
  toggling_ids = delete_id-add_id job.panel_id other.panel_id p.toggling_ids d n i;
  toast = some (codes "Failed to update status", false);
}
