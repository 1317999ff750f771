-- ===== src/Status.antt =====
-- Entity types and statuses: n2vc/utils.py, and the two translations of Juju's statuses in
-- n2vc/n2vc_conn.py.
pub mod Agreement
use n2vc.Prelude.{
  String, ◌≡◌, Bool, true, false, ◌||◌, List, [], ◌∷◌, Option, none, some, ◌=ₛ◌, if◌then◌else◌,
}
use n2vc.Prelude.Dict
use n2vc.Prelude.Dict.{Dict}

-- N2VCDeploymentStatus
pub data DeploymentStatus : Type 0 where
  pending running completed failed unknown : DeploymentStatus

-- status.value
unfoldable pub status_value : DeploymentStatus → String
status_value DeploymentStatus.pending = "pending"
status_value DeploymentStatus.running = "running"
status_value DeploymentStatus.completed = "completed"
status_value DeploymentStatus.failed = "failed"
status_value DeploymentStatus.unknown = "unknown"

-- EntityType; its values are the classes of libjuju.
pub data EntityType : Type 0 where
  machine application action unit : EntityType

-- v.__name__.lower()
abbrev pub type_name : EntityType → String
type_name EntityType.machine = "machine"
type_name EntityType.application = "application"
type_name EntityType.action = "action"
type_name EntityType.unit = "unit"

-- e == f
abbrev pub same_type : EntityType → EntityType → Bool
same_type EntityType.machine EntityType.machine = true
same_type EntityType.application EntityType.application = true
same_type EntityType.action EntityType.action = true
same_type EntityType.unit EntityType.unit = true
same_type _ _ = false

-- the members in their order
abbrev members : List EntityType
members = EntityType.machine ∷ EntityType.application ∷ EntityType.action ∷ EntityType.unit ∷ []

abbrev first_named : String → List EntityType → Option EntityType
first_named delta_entity [] = none
first_named delta_entity (v ∷ vs) =
    if type_name v =ₛ delta_entity then some v else first_named delta_entity vs

-- EntityType.get_entity_from_delta
unfoldable pub get_entity_from_delta : String → Option EntityType
get_entity_from_delta delta_entity = first_named delta_entity members

pub record Final : Type 0 where
  pub field : String
  pub status : List String

-- FinalStatus[entity_type]; `none`: the type is no key.
unfoldable pub final_status : EntityType → Option Final
final_status EntityType.machine = some (record { field = "agent_status"; status = "started" ∷ [] })
final_status EntityType.application =
    some (record { field = "status"; status = "active" ∷ "blocked" ∷ [] })
final_status EntityType.action =
    some (record { field = "status"; status = "completed" ∷ "failed" ∷ "cancelled" ∷ [] })
final_status EntityType.unit = none

-- status in final_states
unfoldable pub is_one_of : String → List String → Bool
is_one_of s [] = false
is_one_of s (t ∷ ts) = if s =ₛ t then true else is_one_of s ts

-- JujuStatusToOSM
unfoldable pub juju_status_to_osm : EntityType → Dict DeploymentStatus
juju_status_to_osm EntityType.machine =
    ("pending", DeploymentStatus.pending) ∷ ("started", DeploymentStatus.completed) ∷ []
juju_status_to_osm EntityType.application =
    ("waiting", DeploymentStatus.running)
    ∷ ("maintenance", DeploymentStatus.running)
    ∷ ("blocked", DeploymentStatus.running)
    ∷ ("error", DeploymentStatus.failed)
    ∷ ("active", DeploymentStatus.completed)
    ∷ []
juju_status_to_osm EntityType.action =
    ("pending", DeploymentStatus.pending)
    ∷ ("running", DeploymentStatus.running)
    ∷ ("completed", DeploymentStatus.completed)
    ∷ []
juju_status_to_osm EntityType.unit =
    ("waiting", DeploymentStatus.running)
    ∷ ("maintenance", DeploymentStatus.running)
    ∷ ("blocked", DeploymentStatus.running)
    ∷ ("error", DeploymentStatus.failed)
    ∷ ("active", DeploymentStatus.completed)
    ∷ []

abbrev or_unknown : Option DeploymentStatus → DeploymentStatus
or_unknown none = DeploymentStatus.unknown
or_unknown (some s) = s

-- N2VCConnector.osm_status
unfoldable pub osm_status : EntityType → String → DeploymentStatus
unfolding juju_status_to_osm Dict.get
osm_status entity_type status = or_unknown (Dict.get status (juju_status_to_osm entity_type))

-- juju_status_2_osm_status, the deprecated translation by the name of the type
unfoldable pub juju_status_2_osm_status : String → String → DeploymentStatus
unfolding is_one_of
juju_status_2_osm_status statustype status =
    if statustype =ₛ "application" || statustype =ₛ "unit"
    then if is_one_of status ("waiting" ∷ "maintenance" ∷ [])
      then DeploymentStatus.running
      else if is_one_of status ("error" ∷ [])
      then DeploymentStatus.failed
      else if is_one_of status ("active" ∷ [])
      then DeploymentStatus.completed
      else if is_one_of status ("blocked" ∷ [])
      then DeploymentStatus.running
      else DeploymentStatus.unknown
    else if statustype =ₛ "action"
    then if is_one_of status ("running" ∷ [])
      then DeploymentStatus.running
      else if is_one_of status ("completed" ∷ [])
      then DeploymentStatus.completed
      else DeploymentStatus.unknown
    else if statustype =ₛ "machine"
    then if is_one_of status ("pending" ∷ [])
      then DeploymentStatus.pending
      else if is_one_of status ("started" ∷ [])
      then DeploymentStatus.completed
      else DeploymentStatus.unknown
    else DeploymentStatus.failed
