-- ===== src/Libjuju/AddModel.antt =====
-- The connections that `add_model` and `list_models` of n2vc/libjuju.py leave open.
use n2vc.Text.{Text}
use n2vc.Prelude.{Option, ◌∷◌, ◌+◌, refl, arith, Bool, true, false, none, some, if◌then◌else◌}
use n2vc.Prelude.Exec.{Result, ok, err, pure, raise, continue, ended, ◌>>=◌}
use n2vc.Exception.{Exception}
use n2vc.Libjuju.Connection.{
  disconnect_controller_, Juju, World, Lib, Event, member, call, ends, recorded,
}
use n2vc.Libjuju.Operations.{
  model_exists, wait_for_lock, create_model, try_add_model, after_add, add_model, disconnect_both,
}
use n2vc.Libjuju.Action.{list_models}
use n2vc.Libjuju.Balance.{SameOpen, SameOpen-trans, IsBalanced, balanced_rules}
use n2vc.Libjuju.Opening.{IsReliable}
use n2vc.Libjuju.Frame.{
  Closes, ended-state, disconnect_both-Closes, disconnect_controller-Closes, opened-IsBalanced,
  with_controller-IsBalanced,
}

-- One model more is open where one was created.
abbrev Adds : World → Result Exception Bool × World → Type 0
Adds s (ok true, t) = SameOpen (record s { open_models = s.open_models + 1 }) t
Adds s (ok false, t) = SameOpen s t
Adds s (err x, t) = SameOpen s t

Adds-after :
    {s t : World} → SameOpen s t → (r : Result Exception Bool × World) → Adds t r → Adds s r
Adds-after h (ok true, u) k = record {
  controllers = omega (arith, h.controllers, k.controllers);
  models = omega (arith, h.models, k.models);
}
Adds-after h (ok false, u) k = SameOpen-trans h k
Adds-after h (err x, u) k = SameOpen-trans h k

bind-Adds :
    {B : Type 0} {m : Lib B} (f : B → Lib Bool)
    → IsBalanced m
    → ((b : B) (t : World) → Adds t (f b t))
    → (s : World) → Adds s ((m >>= f) s)
bind-Adds {B} {m} f h k s = go (m s) (h.at s)
  where
    go : (r : Result Exception B × World) → SameOpen s r.1 → Adds s (continue r f)
    go (ok b, t) e = Adds-after e (f b t) (k b t)
    go (err x, t) e = e

module _ (juju : Juju) where
  create_model-Adds :
      (model_name cloud_name : Text) (s : World)
      → Adds s (create_model juju model_name cloud_name s)
  unfolding create_model call
  create_model-Adds model_name cloud_name s =
      elim (juju.fails s.history (Event.add_model model_name cloud_name))
        as (λ o. Adds s (
          continue (ends o tt, recorded (Event.add_model model_name cloud_name) s)
            (λ _ s. (
              ok true,
              record s { open_models = s.open_models + 1; models = model_name ∷ s.models },
            )))) [
              | none ↦ record { controllers = refl; models = refl }
              | some x ↦ record { controllers = refl; models = refl }
            ]

  wait_for_lock-IsBalanced : IsBalanced (wait_for_lock juju)
  unfolding wait_for_lock
  wait_for_lock-IsBalanced = record { at = λ s. record { controllers = refl; models = refl } }

  model_exists-IsBalanced : (model_name : Text) → IsBalanced (model_exists juju model_name true)
  unfolding model_exists
  model_exists-IsBalanced model_name = search (balanced_rules)

  guard-IsBalanced :
      (b : Bool) (x : Exception)
      → IsBalanced (if b then raise {S = World} {A = Unit {0}} x else pure tt)
  guard-IsBalanced b x = search (balanced_rules)

  try_add_model-Adds :
      (model_name cloud_name : Text) (s : World)
      → Adds s (try_add_model juju model_name cloud_name s)
  unfolding try_add_model
  try_add_model-Adds model_name cloud_name =
      bind-Adds _ (model_exists-IsBalanced model_name) (λ exists.
        bind-Adds _ (guard-IsBalanced exists _)
          (λ _. bind-Adds _ wait_for_lock-IsBalanced (λ _ t. add t)))
    where
      add :
          (t : World)
          → Adds t (
              if member model_name t.models
              then (ok false, t)
              else create_model juju model_name cloud_name t)
      add t =
          elim (member model_name t.models)
            as (λ b.
              Adds t (if b then (ok false, t) else create_model juju model_name cloud_name t)) [
                | true ↦ record { controllers = refl; models = refl }
                | false ↦ create_model-Adds model_name cloud_name t
              ]

  -- However it ends, `list_models` leaves as many controllers and models open as it found, if the
  -- library closes what it is asked to close and no call is cancelled.
  pub list_models-IsBalanced :
      (contained : Option Text) → IsReliable juju → IsBalanced (list_models juju contained)
  unfolding list_models
  list_models-IsBalanced contained reliable =
      search (balanced_rules, with_controller-IsBalanced juju reliable)

  closed-Closes :
      IsReliable juju
      → (r : Result Exception Bool) (s t : World) → SameOpen s t
      → Closes 1 0 s (ended r (disconnect_controller_ juju t)).1
  closed-Closes reliable r s t h = rw (ended-state r (disconnect_controller_ juju t)) (
      let closed = disconnect_controller-Closes juju reliable t in
      record {
        controllers = omega (arith, closed.controllers, h.controllers);
        models = omega (arith, closed.models, h.models);
      })

  after_add-Closes :
      IsReliable juju
      → (s : World) (r : Result Exception Bool × World) → Adds s r
      → Closes 1 0 s (after_add juju r).1
  after_add-Closes reliable s (ok true, t) h = rw (ended-state (ok true) (disconnect_both juju t)) (
      let closed = disconnect_both-Closes juju reliable t in
      record {
        controllers = omega (arith, closed.controllers, h.controllers);
        models = omega (arith, closed.models, h.models);
      })
  after_add-Closes reliable s (ok false, t) h = closed-Closes reliable (ok false) s t h
  after_add-Closes reliable s (err x, t) h = closed-Closes reliable (err x) s t h

  -- However it ends, with the model created, found or refused, `add_model` leaves as many controllers
  -- and models open as it found, if the library closes what it is asked to close and no call is
  -- cancelled.
  pub add_model-IsBalanced :
      IsReliable juju
      → (model_name cloud_name : Text) → IsBalanced (add_model juju model_name cloud_name)
  unfolding add_model
  add_model-IsBalanced reliable model_name cloud_name = opened-IsBalanced juju reliable _ (λ s.
      after_add-Closes reliable s (try_add_model juju model_name cloud_name s)
        (try_add_model-Adds model_name cloud_name s))
