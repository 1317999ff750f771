-- ===== src/Observer.antt =====
-- n2vc/juju_observer.py: the entities that are waited for, and the notifications of libjuju. The
-- three dictionaries are one table here for each kind of entity; an entity's `event` is whether the
-- `asyncio.Event` is set.
pub mod Registry
pub mod Change
pub mod Wait
use n2vc.Prelude.{
  String, ◌≡◌, Bool, true, false, not, List, [], ◌∷◌, Option, none, some, ◌=ₛ◌, if◌then◌else◌,
}
use n2vc.Prelude.Dict
use n2vc.Prelude.Dict.{Dict}
use n2vc.Prelude.Exec.{Exec, Result, ok, err, pure, raise, ◌>>=◌, ◌>>◌}
use n2vc.Text.{codes}
use n2vc.Exception.{Exception}
use n2vc.Status.{juju_status_2_osm_status}
use n2vc.Database.{DbDict, Call, Answers}
use n2vc.Database.N2vc

-- _Entity; `obj` is the libjuju object, which only waiting reads.
pub record Entity : Type 0 where
  pub entity_id : String
  pub entity_type : String
  pub event : Bool
  pub db_dict : Option DbDict

-- JujuModelObserver, with the calls made to the database so far
pub record Observer : Type 0 where
  pub machines : Dict Entity
  pub applications : Dict Entity
  pub actions : Dict Entity
  pub calls : List Call

abbrev pub new_observer : List Call → Observer
new_observer calls = record { machines = []; applications = []; actions = []; calls = calls }

abbrev pub new_entity : String → String → Option DbDict → Entity
new_entity entity_id entity_type db_dict = record {
  entity_id = entity_id;
  entity_type = entity_type;
  event = false;
  db_dict = db_dict;
}

unfoldable pub register_machine : String → Option DbDict → Observer → Observer
register_machine id db_dict o = record o {
  machines = Dict.put id (new_entity id "machine" db_dict) o.machines;
}

unfoldable pub unregister_machine : String → Observer → Observer
unregister_machine id o =
    if Dict.has id o.machines then record o { machines = Dict.remove id o.machines } else o

unfoldable pub is_machine_registered : String → Observer → Bool
is_machine_registered id o = Dict.has id o.machines

unfoldable pub register_application : String → Option DbDict → Observer → Observer
register_application id db_dict o = record o {
  applications = Dict.put id (new_entity id "application" db_dict) o.applications;
}

unfoldable pub unregister_application : String → Observer → Observer
unregister_application id o =
    if Dict.has id o.applications
    then record o { applications = Dict.remove id o.applications }
    else o

unfoldable pub is_application_registered : String → Observer → Bool
is_application_registered id o = Dict.has id o.applications

unfoldable pub register_action : String → Option DbDict → Observer → Observer
register_action id db_dict o = record o {
  actions = Dict.put id (new_entity id "action" db_dict) o.actions;
}

unfoldable pub unregister_action : String → Observer → Observer
unregister_action id o =
    if Dict.has id o.actions then record o { actions = Dict.remove id o.actions } else o

unfoldable pub is_action_registered : String → Observer → Bool
is_action_registered id o = Dict.has id o.actions

-- The changed object of libjuju (`new`), as far as it is read.
pub record Changed : Type 0 where
  pub entity_id : String
  pub status : String
  pub status_message : String
  pub agent_status : String
  pub workload_status : String
  pub workload_status_message : String
  pub dead : Bool

-- `delta.entity`, and `delta.data["application"]`
pub record Delta : Type 0 where
  pub entity : String
  pub application : String

-- entity.event.set(), for the entity under a key
set_event : String → Dict Entity → Dict Entity
set_event id [] = []
set_event id ((k, e) ∷ d) =
    if k =ₛ id then (k, record e { event = true }) ∷ d else (k, e) ∷ set_event id d

-- The write that a notification makes: nothing, if it makes none.
pub record Write : Type 0 where
  pub status : String
  pub detailed_status : String
  pub vca_status : String
  pub entity_type : String

-- the state with the calls that the write has made
abbrev written :
    Result Exception (Unit {0}) × List Call → Observer → Result Exception (Unit {0}) × Observer
written (r, calls) o = (r, record o { calls = calls })

-- `time` is what `str(time.time())` returns at the write.
module _ (env : Answers) (has_callback : Bool) (time : String) where
  write : String → Entity → Write → Exec Exception (List Call) (Unit {0})
  unfolding N2vc.write_app_status_to_db
  write delta_entity e w =
      N2vc.write_app_status_to_db env has_callback e.db_dict
        (juju_status_2_osm_status delta_entity w.status) (codes w.detailed_status)
        (codes w.vca_status) (codes w.entity_type) (codes time)

  -- `None` for the unit that is dead: there is no write.
  maybe_write : String → Entity → Option Write → Exec Exception (List Call) (Unit {0})
  unfolding write
  maybe_write delta_entity e none = pure tt
  maybe_write delta_entity e (some w) = write delta_entity e w

  -- A branch of `on_change`: an entity that is not registered ends it; else the change is written,
  -- and then the event is set.
  notify :
      String
      → Option Entity
      → (Observer → Observer)
      → Option Write
      → Exec Exception Observer (Unit {0})
  unfolding maybe_write
  notify delta_entity none set w = pure tt
  notify delta_entity (some e) set w = do
    λ o. written (maybe_write delta_entity e w o.calls) o
    λ o. (ok tt, set o)

  -- on_change, for a `new` that is not None
  changed : Delta → Changed → Exec Exception Observer (Unit {0})
  unfolding notify set_event
  changed delta new o =
      if delta.entity =ₛ "machine"
      then notify delta.entity (Dict.get new.entity_id o.machines)
          (λ p. record p { machines = set_event new.entity_id p.machines })
          (some (record {
            status = new.agent_status;
            detailed_status = new.status_message;
            vca_status = new.status;
            entity_type = "machine";
          }))
          o
      else if delta.entity =ₛ "application"
      then notify delta.entity (Dict.get new.entity_id o.applications)
          (λ p. record p { applications = set_event new.entity_id p.applications })
          (some (record {
            status = new.status;
            detailed_status = new.status_message;
            vca_status = new.status;
            entity_type = "application";
          }))
          o
      else if delta.entity =ₛ "unit"
      then notify delta.entity (Dict.get delta.application o.applications)
          (λ p. record p { applications = set_event delta.application p.applications })
          (if new.dead
            then none
            else some (record {
              status = new.workload_status;
              detailed_status = new.workload_status_message;
              vca_status = new.workload_status;
              entity_type = "unit";
            }))
          o
      else if delta.entity =ₛ "action"
      then notify delta.entity (Dict.get new.entity_id o.actions)
          (λ p. record p { actions = set_event new.entity_id p.actions })
          (some (record {
            status = new.status;
            detailed_status = new.status;
            vca_status = new.status;
            entity_type = "action";
          }))
          o
      else (ok tt, o)

  unfoldable pub on_change : Delta → Option Changed → Exec Exception Observer (Unit {0})
  unfolding changed
  on_change delta none = pure tt
  on_change delta (some new) = changed delta new
