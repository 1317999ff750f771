-- ===== src/Watcher.antt =====
-- `JujuModelWatcher` of n2vc/juju_watcher.py: the changes of a model are read, those of the entity
-- are written to the database, and the time since the last change of its kind is limited.
--
-- The stream of `allwatcher.Next()` is a list of changes; its end is the `ConnectionClosed` that
-- closes the connection. Times are whole numbers of one unit.
pub mod Spec
mod Steps
pub mod Writes
pub mod Timeout
use n2vc.Prelude.{
  ℕ, ◌+◌, String, Bool, true, false, ◌&&◌, ◌||◌, List, [], ◌∷◌, Option, none, some, ltb, ◌=ₛ◌,
  if◌then◌else◌,
}
use n2vc.Prelude.Exec.{Exec, Result, ok, err, pure, raise, ◌>>=◌, ◌>>◌}
use n2vc.Text.{codes}
use n2vc.Exception
use n2vc.Text.{codes}
use n2vc.Exception.{Exception}
use n2vc.Status
use n2vc.Status.{EntityType, same_type, type_name, get_entity_from_delta, osm_status}
use n2vc.Database.{DbDict, Call, Answers}
use n2vc.Database.N2vc

-- A delta of the watcher: `delta.entity`, what is read of `delta.data`, when it is handled, and how
-- `str(time.time())` writes that time.
pub record Delta : Type 0 where
  pub entity : String
  pub name : String
  pub application : String
  pub id : String
  -- data["status"] of an action
  pub status : String
  -- data["status"]["current"] and ["message"] of an application
  pub status_current : String
  pub status_message : String
  -- data["agent-status"]["current"] and data["instance-status"] of a machine
  pub agent_current : String
  pub instance_current : String
  pub instance_message : String
  -- data["workload-status"] of a unit
  pub workload_current : String
  pub workload_message : String
  pub at : ℕ
  pub stamp : String

-- What one call of `Next()` returns, and when the timeout is checked after it.
pub record Change : Type 0 where
  pub deltas : List Delta
  pub checked : ℕ

-- get_status: status, message, VCA status
unfoldable pub get_status : Delta → EntityType → String × String × String
get_status d EntityType.machine = (d.agent_current, d.instance_message, d.instance_current)
get_status d EntityType.action = (d.status, d.status, d.status)
get_status d EntityType.application = (d.status_current, d.status_message, d.status_current)
get_status d EntityType.unit = (d.workload_current, d.workload_message, d.workload_current)

-- delta_entity in entity_types
unfoldable pub is_listened : EntityType → EntityType → Bool
is_listened entity_type delta_entity =
    if same_type entity_type EntityType.application
    then same_type delta_entity EntityType.application || same_type delta_entity EntityType.unit
    else same_type delta_entity entity_type

-- the id that is compared with the entity's
unfoldable pub id_of : EntityType → EntityType → Delta → String
id_of entity_type delta_entity d =
    if same_type entity_type EntityType.application
    then (if same_type delta_entity EntityType.unit then d.application else d.name)
    else d.id

-- The arguments of `wait_for` and `model_watcher`. `has_n2vc`: `n2vc is not None`; `has_callback`:
-- n2vc has an `on_update_db`; `db_dict` is `none` if it is falsy.
pub record Watch : Type 0 where
  pub entity_id : String
  pub entity_type : EntityType
  pub timeout : ℕ
  pub has_n2vc : Bool
  pub has_callback : Bool
  pub db_dict : Option DbDict

module _ (env : Answers) (w : Watch) where
  write : Delta → EntityType → Exec Exception (List Call) (Unit {0})
  unfolding get_status
  write d delta_entity =
      let (status, status_message, vca_status) = get_status d delta_entity in
      N2vc.write_app_status_to_db env w.has_callback w.db_dict (osm_status delta_entity status)
        (codes status_message) (codes vca_status) (codes (type_name delta_entity)) (codes d.stamp)

  -- One delta of a kind that is listened to; returns the new end of the timeout.
  listened : Delta → EntityType → Exec Exception (List Call) ℕ
  unfolding write id_of
  listened d delta_entity = do
    (if id_of w.entity_type delta_entity d =ₛ w.entity_id && w.has_n2vc
        then write d delta_entity
        else pure tt)
    pure (d.at + w.timeout)

  -- One delta; `delta_entity` is None where the name is not known.
  handle : Delta → Option EntityType → ℕ → Exec Exception (List Call) ℕ
  unfolding listened is_listened
  handle d none timeout_end = pure timeout_end
  handle d (some delta_entity) timeout_end =
      if is_listened w.entity_type delta_entity then listened d delta_entity else pure timeout_end

  -- for delta in change.deltas
  handle_all : List Delta → ℕ → Exec Exception (List Call) ℕ
  unfolding handle
  handle_all [] timeout_end = pure timeout_end
  handle_all (d ∷ ds) timeout_end = do
    timeout_end' ← handle d (get_entity_from_delta d.entity) timeout_end
    handle_all ds timeout_end'

  -- while True: ... if time.time() > timeout_end: raise asyncio.TimeoutError()
  pub watch : List Change → ℕ → Exec Exception (List Call) (Unit {0})
  unfolding handle_all
  watch [] timeout_end = pure tt
  watch (c ∷ cs) timeout_end = do
    timeout_end' ← handle_all c.deltas timeout_end
    (let rest = watch cs timeout_end' in
        if ltb timeout_end' c.checked then raise Exception.timeout_error else rest)

  -- `now` is the time at which the watcher starts.
  unfoldable pub model_watcher : ℕ → List Change → Exec Exception (List Call) (Unit {0})
  unfolding watch
  model_watcher now changes = watch changes (now + w.timeout)
