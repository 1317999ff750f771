-- ===== src/Tests/Observer.antt =====
-- The observer and its waits.
use n2vc.Prelude.{◌≡◌, refl, some, none, [], ◌∷◌, true, false, min, if◌then◌else◌}
use n2vc.Database.{Answers}
use n2vc.Observer.{Observer, Changed, Delta, new_observer, on_change}
use n2vc.Observer.Registry.{Kind, entity, register}
use n2vc.Observer.Change.{is_ok, on_target, entity-on_change}
use n2vc.Observer.Wait.{Round, Outcome, wait_for_entity}
use n2vc.Observer.Wait.Returns.{LoopReturns, wait_for_entity_sound}

abbrev one_machine : Observer
one_machine = register Kind.machine "0" none (new_observer [])

abbrev accepts : Answers
accepts calls c = none

abbrev machine_delta : Delta
machine_delta = record { entity = "machine"; application = "" }

abbrev started : Changed
started = record {
  entity_id = "0";
  status = "running";
  status_message = "up";
  agent_status = "started";
  workload_status = "";
  workload_status_message = "";
  dead = false;
}

entity-on_change_example :
    let (r, o') = on_change accepts true "10" machine_delta (some started) one_machine in
    entity Kind.machine "0" o' ≡ (
      if is_ok r
      then on_target accepts true "10" machine_delta started Kind.machine "0"
          (entity Kind.machine "0" one_machine)
      else entity Kind.machine "0" one_machine)
entity-on_change_example =
    entity-on_change accepts true "10" machine_delta started Kind.machine "0" one_machine

abbrev pending : Round
pending = record { status = "waiting"; signal = some 7 }

abbrev active : Round
active = record { status = "active"; signal = none }

waits :
    wait_for_entity ("active" ∷ []) (some 10) none (pending ∷ active ∷ []) ≡ Outcome.returned 1 7
unfolding wait_for_entity
waits = refl

wait_for_entity_sound_example :
    LoopReturns ("active" ∷ []) (min 3600 10) (pending ∷ active ∷ []) 1 7
wait_for_entity_sound_example =
    wait_for_entity_sound ("active" ∷ []) (some 10) none (pending ∷ active ∷ []) 1 7 waits
