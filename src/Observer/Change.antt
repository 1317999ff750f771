-- ===== src/Observer/Change.antt =====
-- Notifications: which event is set, and when.
use n2vc.Prelude.{
  inl, inr, [], ◌∷◌, Bool-cases, ◌∙◌, sym, String, ◌≡◌, refl, Bool, true, false, ◌&&◌, Option, none,
  some, arith, ◌=ₛ◌, eq_iff, if◌then◌else◌, ap, List,
}
use mathlib.Core.Option
use n2vc.Prelude.Dict
use n2vc.Prelude.Dict.{Dict}
use n2vc.Prelude.Exec.{continue, Result, ok, err}
use n2vc.Exception.{Exception}
use n2vc.Database.{Call, Answers}
use n2vc.Observer.{
  changed, written, Observer, Entity, Delta, Changed, Write, on_change, set_event, notify,
  maybe_write,
}
use n2vc.Observer.Registry.{Kind, entity, same_kind}

abbrev pub is_ok {ℓ} : {Exc A : Type ℓ} → Result Exc A → Bool
is_ok (ok a) = true
is_ok (err e) = false

abbrev pub with_event : Entity → Entity
with_event e = record e { event = true }

-- The entity that a change is about: a unit's is its application.
abbrev pub target : Delta → Changed → Option (Kind × String)
target delta new =
    if delta.entity =ₛ "machine"
    then some (Kind.machine, new.entity_id)
    else if delta.entity =ₛ "application"
    then some (Kind.application, new.entity_id)
    else if delta.entity =ₛ "unit"
    then some (Kind.application, delta.application)
    else if delta.entity =ₛ "action"
    then some (Kind.action, new.entity_id)
    else none

abbrev pub is_target : Option (Kind × String) → Kind → String → Bool
is_target none k j = false
is_target (some (k', i)) k j = same_kind k k' && i =ₛ j

get-set_event :
    (i j : String) (d : Dict Entity)
    → Dict.get j (set_event i d)
      ≡ (if i =ₛ j then Option.map with_event (Dict.get j d) else Dict.get j d)
unfolding Dict.get set_event
get-set_event i j [] = ground arith
get-set_event i j ((k, e) ∷ d) =
    ground (arith, eq_iff i j, eq_iff k i, eq_iff k j, get-set_event i j d)

entity-calls :
    (k : Kind) (j : String) (c : List Call) (o : Observer)
    → entity k j (record o { calls = c }) ≡ entity k j o
unfolding entity
entity-calls Kind.machine j c o = refl
entity-calls Kind.application j c o = refl
entity-calls Kind.action j c o = refl

module _ (env : Answers) (has_callback : Bool) (time : String) (delta_entity : String) where
  -- One branch: its effect on an entity, given that of its `event.set()`.
  entity-notify :
      (k : Kind) (j : String) (e : Option Entity) (set : Observer → Observer) (w : Option Write)
      (F : Option Entity → Option Entity)
      → ((p : Observer) → entity k j (set p) ≡ F (entity k j p))
      → (o : Observer) → (e ≡ none → F (entity k j o) ≡ entity k j o)
      → let (r, o') = notify env has_callback time delta_entity e set w o in
        entity k j o' ≡ (if is_ok r then F (entity k j o) else entity k j o)
  unfolding notify
  entity-notify k j none set w F h o n = sym (n refl)
  entity-notify k j (some e) set w F h o n =
      finished (maybe_write env has_callback time delta_entity e w o.calls)
    where
      finished :
          (m : Result Exception (Unit {0}) × List Call)
          → let (r, o') = continue (written m o) (λ _ p. (ok tt, set p)) in
            entity k j o' ≡ (if is_ok r then F (entity k j o) else entity k j o)
      finished (ok a, c) = h (record o { calls = c }) ∙ ap F (entity-calls k j c o)
      finished (err x, c) = entity-calls k j c o

module _ (env : Answers) (has_callback : Bool) (time : String) (delta : Delta) (new : Changed) where
  abbrev pub on_target : Kind → String → Option Entity → Option Entity
  on_target k j e = if is_target (target delta new) k j then Option.map with_event e else e

  target_absent :
      (k k' : Kind) (i j : String) (o : Observer)
      → entity k' i o ≡ none
      → (if same_kind k k' && i =ₛ j then Option.map with_event (entity k j o) else entity k j o)
        ≡ entity k j o
  unfolding entity
  target_absent k k' i j o e = ground (arith, eq_iff i j)

  -- The effect of `event.set()` in one of the tables.
  abbrev Sets : Kind → String → (Observer → Observer) → Type 0
  Sets k' i set =
      (k : Kind) (j : String) (p : Observer)
      → entity k j (set p)
        ≡ (if same_kind k k' && i =ₛ j then Option.map with_event (entity k j p) else entity k j p)

  set_machine :
      (i : String) → Sets Kind.machine i (λ p. record p { machines = set_event i p.machines })
  unfolding entity
  set_machine i Kind.machine j p = get-set_event i j p.machines
  set_machine i _ j p = refl

  set_application :
      (i : String)
      → Sets Kind.application i (λ p. record p { applications = set_event i p.applications })
  unfolding entity
  set_application i Kind.application j p = get-set_event i j p.applications
  set_application i _ j p = refl

  set_action : (i : String) → Sets Kind.action i (λ p. record p { actions = set_event i p.actions })
  unfolding entity
  set_action i Kind.action j p = get-set_event i j p.actions
  set_action i _ j p = refl

  entity-branch :
      (k' : Kind) (i : String) (set : Observer → Observer) (w : Option Write)
      → Sets k' i set
      → (k : Kind) (j : String) (o : Observer)
      → let (r, o') = notify env has_callback time delta.entity (entity k' i o) set w o in
        entity k j o' ≡ (
          if is_ok r
          then (if same_kind k k' && i =ₛ j
              then Option.map with_event (entity k j o)
              else entity k j o)
          else entity k j o)
  entity-branch k' i set w h k j o =
      entity-notify env has_callback time delta.entity k j (entity k' i o) set w
        (λ e. if same_kind k k' && i =ₛ j then Option.map with_event e else e) (h k j) o
        (target_absent k k' i j o)

  -- A notification sets the event of exactly the entity that it is about, and does so only if the
  -- write to the database did not raise. No other entity changes, and none is added or dropped.
  pub entity-on_change :
      (k : Kind) (j : String) (o : Observer)
      → let (r, o') = on_change env has_callback time delta (some new) o in
        entity k j o' ≡ (if is_ok r then on_target k j (entity k j o) else entity k j o)
  unfolding on_change entity
  entity-on_change k j o = elim (Bool-cases (delta.entity =ₛ "machine")) [
    | inl e1 ↦ rw (e1, changed) (entity-branch Kind.machine id _ _ (set_machine id) k j o)
    | inr e1 ↦ elim (Bool-cases (delta.entity =ₛ "application")) [
      | inl e2 ↦
          rw (e1, e2, changed) (entity-branch Kind.application id _ _ (set_application id) k j o)
      | inr e2 ↦ elim (Bool-cases (delta.entity =ₛ "unit")) [
        | inl e3 ↦
            rw (e1, e2, e3, changed)
              (entity-branch Kind.application delta.application _ _
                (set_application delta.application) k j o)
        | inr e3 ↦ elim (Bool-cases (delta.entity =ₛ "action")) [
          | inl e4 ↦
              rw (e1, e2, e3, e4, changed) (entity-branch Kind.action id _ _ (set_action id) k j o)
          | inr e4 ↦ rw (e1, e2, e3, e4, changed)
        ]
      ]
    ]
  ]
    where
      id : String
      id = new.entity_id
