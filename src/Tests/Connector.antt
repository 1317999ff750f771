-- ===== src/Tests/Connector.antt =====
-- Operations of the juju connector, with a library that answers every call.
use n2vc.Prelude.{
  ◌<◌, ℕ, length, ◌++◌, ◌≡◌, refl, some, none, [], ◌∷◌, true, List, Option, keep, not, arith,
}
use n2vc.Prelude.Exec.{ok, err}
use n2vc.Text.{Text, codes, contains, starts_with, lower, replace, format, is_digit}
use n2vc.Text.Split.{split, join}
use n2vc.Text.Squeeze.{squeeze}
use n2vc.Naming.AppName.{format_app_name}
use n2vc.Naming.EeId.{build_ee_id}
use n2vc.Naming.Namespace.Parts.{shown}
use n2vc.Exception.{Exception}
use n2vc.Database.{DbDict, dotted}
use n2vc.Libjuju.Connection.{World, Event, get_controller, member}
use n2vc.Libjuju.Opening.{IsReliable}
use n2vc.Libjuju.Destroy.Asked.{asked}
use n2vc.Libjuju.Destroy.Follows.{Obeys, left_after}
use n2vc.Naming.Namespace.{
  Components, get_namespace_components, get_application_name, application_name,
}
use n2vc.Connector.{Connector, State}
use n2vc.Connector.Environments.{create_execution_environment}
use n2vc.Connector.Charms.{full_path, install_configuration_sw, install_k8s_proxy_charm}
use n2vc.Connector.Primitives.{exec_primitive, get_ee_ssh_public__key}
use n2vc.Connector.Ending.{delete_namespace, delete_execution_environment, add_relation}
use n2vc.Connector.Refusals.{dots, malformed_ee_id, install_k8s_proxy_charm_again}
use n2vc.Connector.Raises.{operations-RaisesN2vc, RaiseN2vc}
use n2vc.Connector.Connections.{operations-IsLevel, LeaveLevel}
use n2vc.Connector.Handover.{install_configuration_sw-create, Created, deploy_to}
use n2vc.Connector.Deletion.{delete_namespace-Refines}
use n2vc.Tests.Libjuju.{quiet, quiet-IsReliable, start}
use n2vc.Tests.Naming.{ascii}

abbrev connector : Connector
connector = record {
  juju = quiet;
  answers = λ calls c. none;
  file_exists = λ path. ok true;
  fs_path = codes "/app";
  output_item = λ output key. none;
  cloud = some (codes "localhost");
  k8s_cloud = some (codes "k8s");
  api_proxy = some (codes "10.0.0.1");
  private_key_path = codes "id_rsa";
}

abbrev begin : State
begin = record { world = start; calls = [] }

abbrev db_dict : DbDict
db_dict = record { collection = some "nsrs"; filter = some "_id=1"; path = some (codes "vca.0") }

-- The model of this network service is there.
abbrev namespace : Option Text
namespace = some (codes "nsi.ubuntu.vnf")

abbrev components : Components
components = record {
  nsi_id = some (codes "nsi");
  ns_id = some (codes "ubuntu");
  vnf_id = some (codes "vnf");
  vdu_id = none;
  vdu_count = none;
}

parsed : get_namespace_components namespace ≡ some components
unfolding get_namespace_components split
parsed = refl

named_app : get_application_name namespace ≡ some (codes "app-vnf-vnf")
unfolding get_application_name get_namespace_components format_app_name join split squeeze lower
    replace application_name format is_digit
named_app = refl

abbrev after_creation : State
after_creation = (create_execution_environment connector namespace (some db_dict) none begin).1

created :
    create_execution_environment connector namespace (some db_dict) none begin
    ≡ (ok (codes "ubuntu.app-vnf-vnf.0", codes "0"), after_creation)
unfolding create_execution_environment format_app_name join split squeeze lower replace
    application_name format is_digit dotted
created = refl

calls_made : (after_creation.world.open_models ≡ 0) × (length after_creation.calls ≡ 1)
unfolding create_execution_environment format_app_name join split squeeze lower replace
    application_name format is_digit dotted
calls_made = (refl, refl)

operations-RaisesN2vc_example : RaiseN2vc connector
operations-RaisesN2vc_example = operations-RaisesN2vc connector (λ path. tt)

operations-IsLevel_example : LeaveLevel connector
operations-IsLevel_example = operations-IsLevel connector quiet-IsReliable (λ m h. refl) (λ h. refl)

three_parts : length (split b'.' (codes "ubuntu.app-vnf-vnf.0")) ≡ 3
unfolding split
three_parts = refl

install_configuration_sw-create_example :
    (machine : Text) × Created connector components.ns_id begin machine
    × (codes "ubuntu.app-vnf-vnf.0"
        ≡ build_ee_id (shown components.ns_id) (codes "app-vnf-vnf") machine)
    × ((c : ℕ) (path : Text) (num_units : ℕ)
        → install_configuration_sw connector
            (some (codes "ubuntu.app-vnf-vnf.0"))
            (some (c ∷ path))
            (some db_dict)
            num_units
            after_creation
          ≡ deploy_to connector
              (shown components.ns_id)
              (codes "app-vnf-vnf")
              machine
              (c ∷ path)
              num_units
              after_creation)
install_configuration_sw-create_example =
    install_configuration_sw-create connector namespace components (codes "app-vnf-vnf") db_dict
      begin after_creation (codes "ubuntu.app-vnf-vnf.0") (codes "0") parsed named_app
      (ground arith) created three_parts

malformed : dots (codes "ubuntu") < 2
unfolding dots
malformed = omega arith

malformed_ee_id_example :
    (install_configuration_sw connector
        (some (codes "ubuntu"))
        (some (codes "charm"))
        (some db_dict)
        1
        begin
      ≡ (err Exception.n2vc_bad_arguments, begin))
    × (exec_primitive connector (some (codes "ubuntu")) (some (codes "start")) [] begin
        ≡ (err Exception.n2vc_bad_arguments, begin))
    × (get_ee_ssh_public__key connector (some (codes "ubuntu")) (some db_dict) begin
        ≡ (err Exception.n2vc_bad_arguments, begin))
    × (delete_execution_environment connector (some (codes "ubuntu")) none begin
        ≡ (err Exception.index_error, begin))
    × (add_relation connector
          (some (codes "ubuntu"))
          (some (codes "charm"))
          (some (codes "db"))
          (some (codes "db"))
          begin
        ≡ (err Exception.index_error, begin))
    × (create_execution_environment connector namespace (some db_dict) (some (codes "ubuntu")) begin
        ≡ (err Exception.index_error, begin))
malformed_ee_id_example =
    malformed_ee_id connector 117 99 100 100 115 99 (codes "buntu") (codes "harm") (codes "tart")
      (codes "harm") (codes "b") (codes "b") db_dict 1 [] namespace none begin malformed

-- The library lists one model more, that of a proxy charm of the network service.
abbrev with_proxy : Connector
with_proxy = record connector {
  juju = record quiet { names = λ h e. codes "ubuntu" ∷ codes "ubuntu-k8s" ∷ [] };
}

with_proxy-IsReliable : IsReliable with_proxy.juju
with_proxy-IsReliable = record {
  closes_controller = λ h. refl;
  closes_model = λ h. refl;
  calm = λ h e q. ground arith;
}

abbrev after_connection : World
after_connection = (get_controller with_proxy.juju start).1

connects : get_controller with_proxy.juju start ≡ (ok tt, after_connection)
unfolding get_controller
connects = refl

install_k8s_proxy_charm_again_example :
    let (r, s) =
      install_k8s_proxy_charm with_proxy namespace (some (codes "charm")) (some db_dict) begin in
    (r ≡ err Exception.juju_model_already_exists)
    × (s.world.history
        ≡ (after_connection.history ++ Event.list_models ∷ []) ++ Event.disconnect_controller ∷ [])
unfolding member full_path starts_with format
install_k8s_proxy_charm_again_example =
    install_k8s_proxy_charm_again with_proxy with_proxy-IsReliable namespace components 99 107
      (codes "8s") (codes "harm") (codes "/app/charm") db_dict begin after_connection refl refl
      parsed connects refl refl

-- A library that lists two models of the network service, and one of another, until they are
-- destroyed.
abbrev three_models : List Text
three_models = codes "ubuntu" ∷ codes "other" ∷ codes "ubuntu-k8s" ∷ []

abbrev listed : List Event → Event → List Text
listed h Event.list_models = left_after three_models (asked h)
listed h e = []

abbrev obedient : Connector
obedient = record connector { juju = record quiet { names = listed } }

obedient-Obeys : Obeys obedient.juju three_models
obedient-Obeys = record { succeeds = λ h e. refl; lists = λ h. refl }

delete_namespace-Refines_example :
    let (r, t) = delete_namespace obedient namespace (some 60) begin in
    (r ≡ ok tt)
    × (obedient.juju.names t.world.history Event.list_models
        ≡ keep
            (λ m. not (contains (codes "ubuntu") m))
            (obedient.juju.names begin.world.history Event.list_models))
delete_namespace-Refines_example =
    delete_namespace-Refines obedient three_models obedient-Obeys namespace components 117
      (codes "buntu") (some 60) 59 begin parsed refl refl
