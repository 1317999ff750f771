-- ===== src/Tests/Libjuju.antt =====
-- Operations of libjuju, with a library that answers every call, or all but some.
use n2vc.Prelude.{
  length, length-append, ◌≡◌, ◌≢◌, refl, some, none, [], ◌∷◌, true, List, Option, ◌+◌, arith,
}
use n2vc.Prelude.Exec.{ok, err}
use n2vc.Text.{codes}
use n2vc.Exception.{Exception, juju_api}
use n2vc.Libjuju.Connection.{Juju, World, Event, get_controller}
use n2vc.Libjuju.Operations.{connected, deploy_charm, add_model}
use n2vc.Libjuju.Balance.{IsBalanced}
use n2vc.Libjuju.Opening.{IsReliable, Opens, get_controller-Opens}
use n2vc.Libjuju.Frame.{connected_leaks}
use n2vc.Libjuju.Leaks.{deploy_charm-IsBalanced}
use n2vc.Libjuju.Destroy.{destroy_model, wait_destroyed}
use n2vc.Libjuju.Destroy.Closing.{destroy_model-IsBalanced}
use n2vc.Libjuju.Destroy.Fuel.{IsClock, wait_destroyed_fuel}
use n2vc.Libjuju.AddModel.{add_model-IsBalanced}

-- The charm's application does not exist, and no other call fails.
abbrev pub quiet : Juju
quiet = record {
  fails = λ h e. none;
  names = λ h e. (codes "ubuntu") ∷ [];
  text = λ h e. (codes "0");
  flag = λ h e. true;
  clock = length;
}

pub quiet-IsReliable : IsReliable quiet
quiet-IsReliable = record {
  closes_controller = λ h. refl;
  closes_model = λ h. refl;
  calm = λ h e q. ground arith;
}

abbrev fails_at_model : List Event → Event → Option Exception
fails_at_model h (Event.get_model m) = some (juju_api true)
fails_at_model h e = none

-- No model can be opened.
abbrev no_model : Juju
no_model = record quiet { fails = fails_at_model }

no_model-IsReliable : IsReliable no_model
no_model-IsReliable = record {
  closes_controller = λ h. refl;
  closes_model = λ h. refl;
  calm = calm;
}
  where
    calm : (h : List Event) (e : Event) → fails_at_model h e ≢ some Exception.cancelled
    calm h (Event.get_model m) q = ground arith
    calm h e q = ground arith

abbrev pub start : World
start = record { endpoints = []; models = []; open_controllers = 0; open_models = 0; history = [] }

get_controller-Opens_example : Opens start (get_controller quiet start)
get_controller-Opens_example = get_controller-Opens quiet quiet-IsReliable start

deploy_charm-IsBalanced_example :
    IsBalanced (deploy_charm quiet (codes "mysql") (codes "/tmp") (codes "m") none none 3)
deploy_charm-IsBalanced_example =
    deploy_charm-IsBalanced quiet quiet-IsReliable (λ m h. refl) (codes "mysql") (codes "/tmp")
      (codes "m") none none 3

add_model-IsBalanced_example : IsBalanced (add_model quiet (codes "m") (codes "cloud"))
add_model-IsBalanced_example =
    add_model-IsBalanced quiet quiet-IsReliable (codes "m") (codes "cloud")

no_model_connects : (get_controller no_model start).0 ≡ ok tt
unfolding get_controller
no_model_connects = refl

connected_leaks_example :
    (connected no_model (codes "m") (λ s. (ok tt, s)) start).0 ≡ err (juju_api true)
    × (connected no_model (codes "m") (λ s. (ok tt, s)) start).1.open_controllers
      ≡ start.open_controllers + 1
connected_leaks_example =
    connected_leaks no_model no_model-IsReliable (codes "m") (λ s. (ok tt, s)) (juju_api true)
      (λ h. refl) start no_model_connects

abbrev after : World
after = (get_controller quiet start).1

quiet_connects : get_controller quiet start ≡ (ok tt, after)
unfolding get_controller
quiet_connects = refl

-- No controller can be connected.
abbrev fails_at_connect : List Event → Event → Option Exception
fails_at_connect h Event.connect = some Exception.timeout_error
fails_at_connect h e = none

abbrev offline : Juju
offline = record quiet { fails = fails_at_connect }

offline_fails :
    get_controller offline start
    ≡ (err Exception.juju_controller_failed_connecting, (get_controller offline start).1)
unfolding get_controller
offline_fails = refl

destroy_model-IsBalanced_example : IsBalanced (destroy_model quiet (codes "m") (some 60))
destroy_model-IsBalanced_example =
    destroy_model-IsBalanced quiet quiet-IsReliable (λ h. refl) (codes "m") (some 60) (λ h. refl)

quiet-IsClock : IsClock quiet
quiet-IsClock = record {
  forward = λ h e. omega (arith, length-append h (e ∷ []));
  sleeps = λ h. omega (arith, length-append h (Event.sleep ∷ []));
}

wait_destroyed_fuel_example :
    wait_destroyed quiet 8 (codes "ubuntu") 5 start
    ≡ wait_destroyed quiet 5 (codes "ubuntu") 5 start
wait_destroyed_fuel_example =
    wait_destroyed_fuel quiet quiet-IsClock 5 8 (codes "ubuntu") 5 start (omega arith) (omega arith)
