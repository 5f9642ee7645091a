-- ===== src/Panel/Logic/Edits.antt =====
-- frontend/src/components/panels/LogicPanel.tsx: the conditions in the dialog that configures a
-- rule, as it opens and as they are edited.
use mqtt_dashboard.Prelude.{
  ℕ, zero, suc, false, not, ◌&&◌, List, [], ◌∷◌, ◌++◌, Option, none, some, if◌then◌else◌,
  or_default, length, leb, ◌≡◌, refl, ◌∙◌, inl, inr, arith, All, Bool-cases,
}
use mqtt_dashboard.Prelude.Text.{Text, codes, is_empty}
use mqtt_dashboard.Panel.Logic.{op_gt, Join, join_and, Condition}
use mqtt_dashboard.Panel.Logic.Rule.{
  Picking, no_picking, pick_source, pick_target, pick_condition, LogicConfig, either, given,
  either_given,
}

unfoldable pub update_at {ℓ} : {A : Type ℓ} → ℕ → (A → A) → List A → List A
update_at i f [] = []
update_at zero f (x ∷ xs) = f x ∷ xs
update_at (suc i) f (x ∷ xs) = x ∷ update_at i f xs

unfoldable pub remove_at {ℓ} : {A : Type ℓ} → ℕ → List A → List A
remove_at i [] = []
remove_at zero (x ∷ xs) = xs
remove_at (suc i) (x ∷ xs) = x ∷ remove_at i xs

abbrev new_condition : Text → Text → Option Join → Condition
new_condition topic broker join = record {
  broker_id = some broker;
  topic = some topic;
  json_path = some [];
  read_template = some [];
  operator = op_gt;
  value = some (codes "30");
  join = join;
}

-- The first condition takes the source of a rule that was saved with a source of its own.
unfoldable pub initial_list : LogicConfig → List Condition → List Condition
initial_list config [] =
    new_condition (given config.source_topic) (given config.source_broker_id) none ∷ []
initial_list config (c ∷ cs) =
    if is_empty (given c.topic) && not (is_empty (given config.source_topic))
    then record c {
      topic = config.source_topic;
      broker_id = some (either (given c.broker_id) (given config.source_broker_id));
    }
      ∷ cs
    else c ∷ cs

abbrev picked : Text → Option Text → Condition → Condition
picked topic broker c = record c { topic = some topic; broker_id = either_given broker c.broker_id }

-- What was picked goes to the condition that it was picked for, if it is there.
unfoldable pub with_picked : Picking → Text → Option Text → List Condition → List Condition
unfolding update_at
with_picked no_picking topic broker list = list
with_picked pick_source topic broker list = update_at 0 (picked topic broker) list
with_picked pick_target topic broker list = list
with_picked (pick_condition i) topic broker list = update_at i (picked topic broker) list

-- The conditions that the dialog opens with.
unfoldable pub initial_conditions : LogicConfig → Option Text → Option Text → List Condition
unfolding initial_list with_picked
initial_conditions config none broker = initial_list config (or_default config.conditions [])
initial_conditions config (some topic) broker =
    with_picked config.picking topic broker (initial_list config (or_default config.conditions []))

-- `handleAddCondition`
unfoldable pub add_condition : List Condition → List Condition
add_condition [] = new_condition [] [] none ∷ []
add_condition (c ∷ cs) = c ∷ cs ++ new_condition [] [] (some join_and) ∷ []

abbrev without_join : List Condition → List Condition
without_join [] = []
without_join (c ∷ cs) = record c { join = none } ∷ cs

-- `handleRemoveCondition`
unfoldable pub remove_condition : ℕ → List Condition → List Condition
unfolding remove_at
remove_condition i prev = if leb (length prev) 1 then prev else without_join (remove_at i prev)

-- `handleConditionChange`, where the patch is the change that it makes.
unfoldable pub change_condition : ℕ → (Condition → Condition) → List Condition → List Condition
unfolding update_at
change_condition i patch prev = update_at i patch prev

-- The edits that the dialog offers; only those of the second condition on set a join.
pub data Edit : Type 0 where
  add : Edit
  remove : ℕ → Edit
  change : ℕ → (Condition → Condition) → Edit
  set_join : ℕ → Join → Edit

abbrev join_with : Join → Condition → Condition
join_with j c = record c { join = some j }

unfoldable pub edited : Edit → List Condition → List Condition
unfolding add_condition remove_condition change_condition
edited add cs = add_condition cs
edited (remove i) cs = remove_condition i cs
edited (change i patch) cs = change_condition i patch cs
edited (set_join i j) cs = change_condition (suc i) (join_with j) cs

unfoldable pub after_edits : List Edit → List Condition → List Condition
unfolding edited
after_edits [] cs = cs
after_edits (e ∷ es) cs = after_edits es (edited e cs)

-- A patch of the dialog's inputs leaves the join as it is.
abbrev pub KeepsJoin : Edit → Type 0
KeepsJoin (change i patch) = (c : Condition) → (patch c).join ≡ c.join
KeepsJoin _ = Unit

-- There is a first condition, and it is joined to nothing.
abbrev pub IsHeaded : List Condition → Type 0
IsHeaded [] = ⊥
IsHeaded (c ∷ cs) = c.join ≡ none

two_left : (n : ℕ) → leb (suc (suc n)) 1 ≡ false
two_left n = ground arith

edited-IsHeaded :
    (e : Edit) (cs : List Condition) → KeepsJoin e → IsHeaded cs → IsHeaded (edited e cs)
unfolding edited add_condition remove_condition change_condition update_at remove_at
edited-IsHeaded e [] k h = elim h [ ]
edited-IsHeaded add (c ∷ cs) k h = h
edited-IsHeaded (remove i) (c ∷ []) k h = h
edited-IsHeaded (remove zero) (c ∷ d ∷ cs) k h = rw (two_left (length cs)) refl
edited-IsHeaded (remove (suc i)) (c ∷ d ∷ cs) k h = rw (two_left (length cs)) refl
edited-IsHeaded (change zero patch) (c ∷ cs) k h = k c ∙ h
edited-IsHeaded (change (suc i) patch) (c ∷ cs) k h = h
edited-IsHeaded (set_join i j) (c ∷ cs) k h = h

after_edits-IsHeaded :
    (es : List Edit) (cs : List Condition)
    → All KeepsJoin es
    → IsHeaded cs
    → IsHeaded (after_edits es cs)
unfolding after_edits
after_edits-IsHeaded [] cs k h = h
after_edits-IsHeaded (e ∷ es) cs k h =
    after_edits-IsHeaded es (edited e cs) k.1 (edited-IsHeaded e cs k.0 h)

-- The rule that is opened has no join on its first condition.
abbrev pub StartsPlain : List Condition → Type 0
StartsPlain [] = Unit
StartsPlain (c ∷ cs) = c.join ≡ none

initial_list-IsHeaded :
    (config : LogicConfig) (cs : List Condition)
    → StartsPlain cs
    → IsHeaded (initial_list config cs)
unfolding initial_list
initial_list-IsHeaded config [] h = refl
initial_list-IsHeaded config (c ∷ cs) h =
    elim (Bool-cases (is_empty (given c.topic) && not (is_empty (given config.source_topic)))) [
      | inl e ↦ rw e h
      | inr e ↦ rw e h
    ]

picked-IsHeaded :
    (i : ℕ) (topic : Text) (broker : Option Text) (cs : List Condition)
    → IsHeaded cs
    → IsHeaded (update_at i (picked topic broker) cs)
unfolding update_at
picked-IsHeaded i topic broker [] h = elim h [ ]
picked-IsHeaded zero topic broker (c ∷ cs) h = h
picked-IsHeaded (suc i) topic broker (c ∷ cs) h = h

chosen-IsHeaded :
    (p : Picking) (topic : Text) (broker : Option Text) (cs : List Condition)
    → IsHeaded cs
    → IsHeaded (with_picked p topic broker cs)
unfolding with_picked
chosen-IsHeaded no_picking topic broker cs h = h
chosen-IsHeaded pick_source topic broker cs h = picked-IsHeaded 0 topic broker cs h
chosen-IsHeaded pick_target topic broker cs h = h
chosen-IsHeaded (pick_condition i) topic broker cs h = picked-IsHeaded i topic broker cs h

initial_conditions-IsHeaded :
    (config : LogicConfig) (topic broker : Option Text)
    → StartsPlain (or_default config.conditions [])
    → IsHeaded (initial_conditions config topic broker)
unfolding initial_conditions
initial_conditions-IsHeaded config none broker h =
    initial_list-IsHeaded config (or_default config.conditions []) h
initial_conditions-IsHeaded config (some topic) broker h =
    chosen-IsHeaded config.picking topic broker
      (initial_list config (or_default config.conditions []))
      (initial_list-IsHeaded config (or_default config.conditions []) h)

-- Whatever a rule is opened with, a source of its own, a topic that was picked meanwhile, and
-- however its conditions are then edited, a first condition is left, and it is joined to nothing:
-- where that holds of the conditions that were saved, if there are any, and where the inputs of a
-- condition set no join.
pub after_edits-initial_conditions :
    (config : LogicConfig) (topic broker : Option Text) (es : List Edit)
    → StartsPlain (or_default config.conditions [])
    → All KeepsJoin es
    → IsHeaded (after_edits es (initial_conditions config topic broker))
after_edits-initial_conditions config topic broker es h k =
    after_edits-IsHeaded es (initial_conditions config topic broker) k
      (initial_conditions-IsHeaded config topic broker h)
