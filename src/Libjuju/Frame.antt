-- ===== src/Libjuju/Frame.antt =====
-- The connections that the frames leave open which the operations of n2vc/libjuju.py share.
use n2vc.Text.{Text}
use n2vc.Prelude.{some, none, List, [], ◌∷◌, ◌++◌, ℕ, ◌+◌, ◌-◌, ◌≡◌, refl, arith}
use n2vc.Prelude.Exec.{◌>>◌, Result, ok, err, continue, finished, ended, ◌finally◌}
use n2vc.Exception.{Exception}
use n2vc.Libjuju.Connection.{
  Juju, World, Lib, Event, get_controller, get_model_, disconnect_controller_, disconnect_model_,
  call,
}
use n2vc.Libjuju.Operations.{connected, disconnect_both}
use n2vc.Libjuju.Balance.{SameOpen, IsBalanced}
use n2vc.Libjuju.Opening.{IsReliable, Opens, get_controller-Opens}

pub ended-state :
    {A : Type 0} (r : Result Exception A) (q : Result Exception (Unit {0}) × World)
    → (ended r q).1 ≡ q.1
ended-state r (ok _, s) = refl
ended-state r (err e, s) = refl

-- c controllers and m models are closed.
pub record Closes (c m : ℕ) (s t : World) : Type 0 where
  pub controllers : t.open_controllers ≡ s.open_controllers - c
  pub models : t.open_models ≡ s.open_models - m

module _ {A : Type 0} {body : Lib A} (h : IsBalanced body) {c m : ℕ} (k : Lib (Unit {0}))
    (closes : (s : World) → Closes c m s (k s).1) where
  pub finally-Closes : (s : World) → Closes c m s ((body finally k) s).1
  finally-Closes s = go (body s) (h.at s)
    where
      go : (r : Result Exception A × World) → SameOpen s r.1 → Closes c m s (finished r k).1
      go (r, t) e = rw (ended-state r (k t)) (record {
        controllers = rw (← e.controllers) (closes t).controllers;
        models = rw (← e.models) (closes t).models;
      })

module _ (juju : Juju) (reliable : IsReliable juju) where
  pub disconnect_controller-Closes : (s : World) → Closes 1 0 s (disconnect_controller_ juju s).1
  unfolding disconnect_controller_ call
  disconnect_controller-Closes s =
      rw (reliable.closes_controller s.history)
        (record { controllers = refl; models = omega arith })

  pub disconnect_both-Closes : (s : World) → Closes 1 1 s (disconnect_both juju s).1
  unfolding disconnect_both disconnect_model_ disconnect_controller_ call
  disconnect_both-Closes s = rw (reliable.closes_model s.history) (
      rw (reliable.closes_controller (s.history ++ Event.disconnect_model ∷ []))
        (record { controllers = refl; models = refl }))

  -- get_controller, then an action that closes one controller
  pub opened-IsBalanced :
      {A : Type 0} (rest : Lib A)
      → ((s : World) → Closes 1 0 s (rest s).1)
      → IsBalanced (get_controller juju >> rest)
  opened-IsBalanced rest closes = record {
    at = λ s. go s (get_controller juju s) (get_controller-Opens juju reliable s);
  }
    where
      go :
          (s : World) (r : Result Exception (Unit {0}) × World)
          → Opens s r
          → SameOpen s (continue r (λ _. rest)).1
      go s (ok a, t) o = record {
        controllers = omega (arith, (closes t).controllers, o.controllers);
        models = omega (arith, (closes t).models, o.models);
      }
      go s (err x, t) o = o

  pub with_controller-IsBalanced :
      {A : Type 0} (body : Lib A)
      → IsBalanced body
      → IsBalanced (get_controller juju >> (body finally disconnect_controller_ juju))
  with_controller-IsBalanced body h =
      opened-IsBalanced _
        (finally-Closes h (disconnect_controller_ juju) disconnect_controller-Closes)

  pub connected-IsBalanced :
      {A : Type 0} (model_name : Text) {body : Lib A}
      → ((h : List Event) → juju.fails h (Event.get_model model_name) ≡ none)
      → IsBalanced body
      → IsBalanced (connected juju model_name body)
  unfolding connected get_model_ call
  connected-IsBalanced {A} model_name {body} opens h = opened-IsBalanced _ closes
    where
      closes :
          (s : World)
          → Closes 1 0 s ((get_model_ juju model_name >> (body finally disconnect_both juju)) s).1
      closes s = rw (opens s.history) (
          let closed = finally-Closes h (disconnect_both juju) disconnect_both-Closes (record s {
            open_models = s.open_models + 1;
            history = s.history ++ Event.get_model model_name ∷ [];
          }) in
          record { controllers = closed.controllers; models = omega (arith, closed.models) })

-- Where the controller is connected and the model cannot be opened, the operation raises the
-- exception of `get_model`, and the controller stays open. The library closes what it is asked to
-- close, and no call is cancelled.
pub connected_leaks :
    (juju : Juju) (reliable : IsReliable juju) {A : Type 0} (model_name : Text) (body : Lib A)
    (x : Exception)
    → ((h : List Event) → juju.fails h (Event.get_model model_name) ≡ some x)
    → (s : World) → (get_controller juju s).0 ≡ ok tt
    → (connected juju model_name body s).0 ≡ err x
      × (connected juju model_name body s).1.open_controllers ≡ s.open_controllers + 1
unfolding connected get_model_ call
connected_leaks juju reliable model_name body x fails s =
    go (get_controller juju s) (get_controller-Opens juju reliable s)
  where
    go :
        (r : Result Exception (Unit {0}) × World)
        → Opens s r
        → r.0 ≡ ok tt
        → (continue r (λ _. get_model_ juju model_name >> (body finally disconnect_both juju))).0
            ≡ err x
          × (continue r (λ _.
              get_model_ juju model_name >> (body finally disconnect_both juju))).1.open_controllers
            ≡ s.open_controllers + 1
    go (ok a, t) o e = rw (fails t.history) (refl, o.controllers)
    go (err y, t) o e = absurd (ground arith)
