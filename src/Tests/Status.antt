-- ===== src/Tests/Status.antt =====
-- Statuses of juju and of OSM.
use n2vc.Prelude.{◌≡◌, ◌&&◌, ◌=ₛ◌, if◌then◌else◌}
use n2vc.Status.{
  DeploymentStatus, EntityType, type_name, same_type, osm_status, juju_status_2_osm_status,
}
use n2vc.Status.Agreement.{juju_status_2_osm_status-eq-osm_status}

juju_status_2_osm_status-eq-osm_status_example :
    juju_status_2_osm_status (type_name EntityType.machine) "started" ≡ (
      if same_type EntityType.machine EntityType.action && "started" =ₛ "pending"
      then DeploymentStatus.unknown
      else osm_status EntityType.machine "started")
juju_status_2_osm_status-eq-osm_status_example =
    juju_status_2_osm_status-eq-osm_status EntityType.machine "started"
