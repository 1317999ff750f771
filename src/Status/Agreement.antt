-- ===== src/Status/Agreement.antt =====
-- The two translations of Juju's statuses compared, and the names of entity types.
use n2vc.Prelude.{String, ◌≡◌, ◌≢◌, true, false, ◌&&◌, arith, ◌=ₛ◌, eq_iff, if◌then◌else◌, refl}
use n2vc.Status.{
  DeploymentStatus, EntityType, type_name, same_type, osm_status, juju_status_2_osm_status,
}

=ₛ_comm : (s t : String) → (s =ₛ t) ≡ (t =ₛ s)
=ₛ_comm s t = ground (arith, eq_iff s t, eq_iff t s)

=ₛ_exclusive : (s t u : String) → (t =ₛ u) ≡ false → (s =ₛ t) ≡ true → (s =ₛ u) ≡ false
=ₛ_exclusive s t u d e = ground (arith, eq_iff s t, eq_iff t u, eq_iff s u)

application_agrees :
    (s : String) → juju_status_2_osm_status "application" s ≡ osm_status EntityType.application s
unfolding juju_status_2_osm_status osm_status
application_agrees s = ground (
  arith,
  =ₛ_comm s "waiting",
  =ₛ_comm s "maintenance",
  =ₛ_comm s "blocked",
  =ₛ_comm s "error",
  =ₛ_comm s "active",
  =ₛ_exclusive s "blocked" "error" refl,
  =ₛ_exclusive s "blocked" "active" refl,
)

-- The deprecated translation gives what the table gives, but for an action in status "pending".
pub juju_status_2_osm_status-eq-osm_status :
    (e : EntityType) (s : String)
    → juju_status_2_osm_status (type_name e) s ≡ (
        if same_type e EntityType.action && s =ₛ "pending"
        then DeploymentStatus.unknown
        else osm_status e s)
juju_status_2_osm_status-eq-osm_status EntityType.machine s =
    unfold juju_status_2_osm_status osm_status in
    ground
      (arith, =ₛ_comm s "pending", =ₛ_comm s "started", =ₛ_exclusive s "pending" "started" refl)
juju_status_2_osm_status-eq-osm_status EntityType.application s = application_agrees s
juju_status_2_osm_status-eq-osm_status EntityType.action s =
    unfold juju_status_2_osm_status osm_status in
    ground (
      arith,
      =ₛ_comm s "pending",
      =ₛ_comm s "running",
      =ₛ_comm s "completed",
      =ₛ_exclusive s "pending" "running" refl,
      =ₛ_exclusive s "pending" "completed" refl,
      =ₛ_exclusive s "running" "completed" refl,
    )
juju_status_2_osm_status-eq-osm_status EntityType.unit s =
    unfold juju_status_2_osm_status osm_status in application_agrees s

-- Of the final states of an action only "completed" is translated: "failed" and "cancelled" are
-- stored as UNKNOWN, and no status of an action is ever stored as FAILED.
osm_status-action :
    (s : String)
    → (osm_status EntityType.action s ≢ DeploymentStatus.failed)
      × (osm_status EntityType.action "failed" ≡ DeploymentStatus.unknown)
      × (osm_status EntityType.action "cancelled" ≡ DeploymentStatus.unknown)
      × (osm_status EntityType.action "completed" ≡ DeploymentStatus.completed)
unfolding osm_status
osm_status-action s = (λ e. ground arith, refl, refl, refl)
