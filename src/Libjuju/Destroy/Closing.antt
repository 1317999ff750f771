-- ===== src/Libjuju/Destroy/Closing.antt =====
-- The connections that `destroy_model` of n2vc/libjuju.py leaves open.
use n2vc.Prelude.Exec.{err, Result, ok, ended, ◌finally◌, continue, ◌>>◌, ◌>>=◌}
use n2vc.Prelude.{◌+◌, ◌-◌, ◌≡◌, arith, ◌++◌, ℕ, List, [], ◌∷◌, Option, none}
use n2vc.Exception.{Exception}
use n2vc.Text.{Text}
use n2vc.Libjuju.Connection.{
  get_model_, disconnect_controller_, recorded, call, call_names, Lib, disconnect_model_, World,
  Event, Juju,
}
use n2vc.Libjuju.Opening.{IsReliable}
use n2vc.Libjuju.Frame.{Closes, ended-state, opened-IsBalanced, disconnect_controller-Closes}
use n2vc.Libjuju.Balance.{SameOpen, IsBalanced}
use n2vc.Libjuju.Destroy.{destroy_model, destroy_machines, destroy_disconnected}
use n2vc.Libjuju.Destroy.Steps.{
  destroy_machines-IsBalanced, destroy_disconnected-IsBalanced, destroy_machines-ok,
}

-- What two actions close that end one after the other.
Closes-trans :
    {c m d n : ℕ} {s t u : World} → Closes c m s t → Closes d n t u → Closes (c + d) (m + n) s u
Closes-trans h k = record {
  controllers = omega (arith, h.controllers, k.controllers);
  models = omega (arith, h.models, k.models);
}

SameOpen-Closes : {s t : World} → SameOpen s t → Closes 0 0 s t
SameOpen-Closes h = record {
  controllers = omega (arith, h.controllers);
  models = omega (arith, h.models);
}

module _ (juju : Juju) (reliable : IsReliable juju) where
  disconnected-Closes :
      (rest : Lib (Unit {0}))
      → IsBalanced rest
      → (s : World) → Closes 0 1 s ((disconnect_model_ juju >> rest) s).1
  unfolding disconnect_model_ call
  disconnected-Closes rest h s = rw (reliable.closes_model s.history) (
      let later = h.at (record s {
        open_models = s.open_models - 1;
        history = s.history ++ Event.disconnect_model ∷ [];
      }) in
      record {
        controllers = omega (arith, later.controllers);
        models = omega (arith, later.models);
      })

  machines-Closes :
      (machines : List Text) (total_timeout : Option ℕ) (rest : Lib (Unit {0}))
      → IsBalanced rest
      → (s : World)
      → Closes 0 1 s
          ((destroy_machines juju machines total_timeout >> (disconnect_model_ juju >> rest)) s).1
  machines-Closes machines total_timeout rest h s =
      go (destroy_machines juju machines total_timeout s)
        ((destroy_machines-IsBalanced juju machines total_timeout).at s)
        (destroy_machines-ok juju reliable.calm machines total_timeout s)
    where
      go :
          (r : Result Exception (Unit {0}) × World)
          → SameOpen s r.1
          → r.0 ≡ ok tt
          → Closes 0 1 s (continue r (λ _. disconnect_model_ juju >> rest)).1
      go (ok a, t) e k = Closes-trans (SameOpen-Closes e) (disconnected-Closes rest h t)
      go (err x, t) e k = absurd (ground arith)

  module _ (lists : (h : List Event) → juju.fails h Event.get_machines ≡ none) where
    body-Closes :
        (model_name : Text) (total_timeout : Option ℕ) (s : World)
        → Closes 0 1 s
            ((call_names juju Event.get_machines >>= λ machines.
                destroy_machines juju machines total_timeout
                >> (disconnect_model_ juju >> destroy_disconnected juju model_name total_timeout))
              s).1
    unfolding call_names
    body-Closes model_name total_timeout s = rw (lists s.history) (
        let rest =
          machines-Closes (juju.names s.history Event.get_machines) total_timeout
            (destroy_disconnected juju model_name total_timeout)
            (destroy_disconnected-IsBalanced juju model_name total_timeout)
            (recorded Event.get_machines s) in
        record { controllers = rest.controllers; models = rest.models })

    -- However it ends, `destroy_model` leaves as many controllers and models open as it found, if
    -- the library closes what it is asked to close, opens the model and lists its machines, and no
    -- call is cancelled.
    pub destroy_model-IsBalanced :
        (model_name : Text) (total_timeout : Option ℕ)
        → ((h : List Event) → juju.fails h (Event.get_model model_name) ≡ none)
        → IsBalanced (destroy_model juju model_name total_timeout)
    unfolding destroy_model get_model_ call
    destroy_model-IsBalanced model_name total_timeout opens =
        opened-IsBalanced juju reliable _ closes
      where
        body : Lib (Unit {0})
        body = call_names juju Event.get_machines >>= λ machines.
            destroy_machines juju machines total_timeout
            >> (disconnect_model_ juju >> destroy_disconnected juju model_name total_timeout)

        ends_closed :
            (s t : World) (r : Result Exception (Unit {0}))
            → Closes 0 1 s t
            → Closes 1 1 s (ended r (disconnect_controller_ juju t)).1
        ends_closed s t r h =
            rw (ended-state r (disconnect_controller_ juju t))
              (Closes-trans h (disconnect_controller-Closes juju reliable t))

        closes :
            (s : World)
            → Closes 1 0 s
                ((get_model_ juju model_name >> (body finally disconnect_controller_ juju)) s).1
        closes s = rw (opens s.history) (
            let t = record s {
              open_models = s.open_models + 1;
              history = s.history ++ Event.get_model model_name ∷ [];
            } in
            let closed =
              ends_closed t (body t).1 (body t).0 (body-Closes model_name total_timeout t) in
            record { controllers = closed.controllers; models = omega (arith, closed.models) })
