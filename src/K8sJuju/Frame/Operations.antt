-- ===== src/K8sJuju/Frame/Operations.antt =====
-- What the operations of n2vc/k8s_juju_conn.py on models and bundles keep, for a property that neither
-- models nor the working directory matter to.
use n2vc.Prelude.{Bool, true, false, Option, List, [], ◌∷◌}
use n2vc.Prelude.Exec.{Result, raise}
use n2vc.Exception.{Exception, key_error, unbound_local}
use n2vc.Text.{Text}
use n2vc.K8sJuju.Host.{Event, Host, State, call_then, opened, closed, chdir, disconnect_model}
use n2vc.K8sJuju.Controller.{is_in, get_model, add_model, login, logout}
use n2vc.K8sJuju.Deployment.{
  instance_name, find_bundle, getcwd, on_timeout, settled, all_settled, wait_settled,
  disconnect_connected, conclude, deploy_bundle, install, on_juju_error, switch, upgrade_all,
  upgrade, uninstall,
}
use n2vc.K8sJuju.Primitives.{leader, run_on, run_primitive, exec_primitive, statuses, status_kdu}
use n2vc.K8sJuju.Keeps.{
  Keeps, keeps_rules, if-Keeps, pure-Keeps, raise-Keeps, bind-Keeps, catch-Keeps, gets-Keeps,
  or_raise-Keeps, lift-Keeps,
}
use n2vc.K8sJuju.Frame.{
  IsFrame, call-Keeps, ask-Keeps, call_then-Keeps, controller-Keeps, list_models-Keeps,
  get_namespace-Keeps, reset-Keeps,
}

-- A property that the working directory does not matter to.
module _ {P : State → Type 0} (frame : IsFrame P)
    (cwd-P : (x : Text) (s : State) → P s → P (record s { cwd = x })) (host : Host) where
  pub chdir-Keeps : (path : Text) → Keeps P (chdir host path)
  unfolding chdir
  chdir-Keeps path = call_then-Keeps frame host _ _ (λ s h. cwd-P _ s h)

  on_timeout-Keeps : (x : Exception) → Keeps P (on_timeout host x)
  on_timeout-Keeps Exception.timeout_error = pure-Keeps false
  on_timeout-Keeps x = raise-Keeps x

  settled-Keeps : (name : Text) → Keeps P (settled host name)
  unfolding settled
  settled-Keeps name = search (keeps_rules, call-Keeps frame host, on_timeout-Keeps)

  all_settled-Keeps : (names : List Text) → Keeps P (all_settled host names)
  unfolding all_settled
  all_settled-Keeps [] = search (keeps_rules)
  all_settled-Keeps (n ∷ ns) =
      bind-Keeps (settled-Keeps n) (λ done. if-Keeps done (all_settled-Keeps ns) (pure-Keeps false))

  pub wait_settled-Keeps : (atomic : Bool) → Keeps P (wait_settled host atomic)
  unfolding wait_settled
  wait_settled-Keeps false = search (keeps_rules)
  wait_settled-Keeps true = search (keeps_rules, all_settled-Keeps)

  pub find_bundle-Keeps : (kdu_model : Text) → Keeps P (find_bundle host kdu_model)
  unfolding find_bundle
  find_bundle-Keeps kdu_model = search (keeps_rules, chdir-Keeps)

  pub getcwd-Keeps : Keeps P (getcwd host)
  getcwd-Keeps = record { at = λ s h. h }

  pub leader-Keeps : (units : List Text) → Keeps P (leader host units)
  unfolding leader
  leader-Keeps [] = search (keeps_rules)
  leader-Keeps (u ∷ us) =
      bind-Keeps (ask-Keeps frame host (Event.is_leader u) (λ h. host.leads h u))
        (λ leads. if-Keeps leads (pure-Keeps u) (leader-Keeps us))

  pub run_on-Keeps : (unit primitive_name : Text) → Keeps P (run_on host unit primitive_name)
  unfolding run_on
  run_on-Keeps unit primitive_name =
      search (keeps_rules, call-Keeps frame host, ask-Keeps frame host) depth 24

-- A property that connections, models and the working directory keep too.
module _ {P : State → Type 0} (frame : IsFrame P) (opened-P : (s : State) → P s → P (opened s))
    (closed-P : (s : State) → P s → P (closed s))
    (cwd-P : (x : Text) (s : State) → P s → P (record s { cwd = x })) (host : Host)
    (login-Keeps : (cluster_uuid : Text) → Keeps P (login host cluster_uuid))
    (logout-Keeps : Keeps P (logout host)) where
  disconnect_model-Keeps : Keeps P (disconnect_model host)
  unfolding disconnect_model
  disconnect_model-Keeps = call_then-Keeps frame host _ _ closed-P

  open-Keeps : (e : Event) → Keeps P (call_then host e opened)
  open-Keeps e = call_then-Keeps frame host e opened opened-P

  get_model-Keeps :
      (model_name cluster_uuid : Text) → Keeps P (get_model host model_name cluster_uuid)
  unfolding get_model
  get_model-Keeps model_name cluster_uuid = bind-Keeps (login-Keeps cluster_uuid) (λ _.
      bind-Keeps (list_models-Keeps frame host) (λ models.
        if-Keeps (is_in model_name models)
          (bind-Keeps (open-Keeps (Event.get_model model_name)) (λ _. pure-Keeps true))
          (pure-Keeps false)))

  pub add_model-Keeps :
      (model_name cluster_uuid : Text) → Keeps P (add_model host model_name cluster_uuid)
  unfolding add_model
  add_model-Keeps model_name cluster_uuid = bind-Keeps (login-Keeps cluster_uuid) (λ _.
      catch-Keeps
        (bind-Keeps (gets-Keeps (λ s. s.public_key)) (λ key.
          bind-Keeps (controller-Keeps frame) (λ _. open-Keeps (Event.add_model model_name key))))
        raise_unbound)
    where
      raise_unbound : (x : Exception) → Keeps P (raise {A = Unit {0}} unbound_local)
      raise_unbound x = raise-Keeps unbound_local

  disconnect_connected-Keeps : Keeps P (disconnect_connected host)
  unfolding disconnect_connected
  disconnect_connected-Keeps = search (keeps_rules, disconnect_model-Keeps)

  conclude-Keeps :
      (cluster_uuid previous_workdir kdu_instance : Text) (done : Bool)
      → Keeps P (conclude host cluster_uuid previous_workdir kdu_instance done)
  unfolding conclude
  conclude-Keeps cluster_uuid previous_workdir kdu_instance false =
      search
        (keeps_rules, chdir-Keeps frame cwd-P host, reset-Keeps frame host login-Keeps logout-Keeps)
  conclude-Keeps cluster_uuid previous_workdir kdu_instance true =
      search (keeps_rules, chdir-Keeps frame cwd-P host, disconnect_connected-Keeps)

  deploy_bundle-Keeps :
      (cluster_uuid kdu_instance kdu_model : Text) (atomic : Bool)
      → Keeps P (deploy_bundle host cluster_uuid kdu_instance kdu_model atomic)
  unfolding deploy_bundle
  deploy_bundle-Keeps cluster_uuid kdu_instance kdu_model atomic =
      bind-Keeps (getcwd-Keeps frame cwd-P host) (λ previous_workdir.
        bind-Keeps (find_bundle-Keeps frame cwd-P host kdu_model) (λ bundle.
          bind-Keeps (call-Keeps frame host (Event.deploy bundle)) (λ _.
            bind-Keeps (wait_settled-Keeps frame cwd-P host atomic)
              (conclude-Keeps cluster_uuid previous_workdir kdu_instance))))

  pub install-Keeps :
      (cluster_uuid kdu_model : Text) (atomic : Bool) (filter_id : Result Exception Text)
      (kdu_name : Option Text)
      → Keeps P (install host cluster_uuid kdu_model atomic filter_id kdu_name)
  unfolding install
  install-Keeps cluster_uuid kdu_model atomic filter_id kdu_name =
      bind-Keeps (login-Keeps cluster_uuid) (λ _. bind-Keeps (lift-Keeps filter_id) (λ id.
        bind-Keeps (add_model-Keeps (instance_name kdu_name id) cluster_uuid)
          (λ _. deploy_bundle-Keeps cluster_uuid (instance_name kdu_name id) kdu_model atomic)))

  on_juju_error-Keeps : (x : Exception) → Keeps P (on_juju_error host x)
  on_juju_error-Keeps (Exception.juju_api found) = pure-Keeps tt
  on_juju_error-Keeps x = raise-Keeps x

  switch-Keeps : (name path : Text) → Keeps P (switch host name path)
  unfolding switch
  switch-Keeps name path = search (keeps_rules, call-Keeps frame host, on_juju_error-Keeps)

  upgrade_all-Keeps :
      (found : Bool) (bundle : List (Text × Option Text)) → Keeps P (upgrade_all host found bundle)
  unfolding upgrade_all
  upgrade_all-Keeps found [] = search (keeps_rules)
  upgrade_all-Keeps false (b ∷ bundle) = search (keeps_rules)
  upgrade_all-Keeps true ((name, charm) ∷ bundle) =
      bind-Keeps (gets-Keeps (λ s. host.applications s.history)) (λ names.
        bind-Keeps (if-Keeps (is_in name names) (pure-Keeps tt) (raise-Keeps key_error)) (λ _.
          bind-Keeps (or_raise-Keeps key_error charm)
            (λ path. bind-Keeps (switch-Keeps name path) (λ _. upgrade_all-Keeps true bundle))))

  pub upgrade-Keeps :
      (cluster_uuid kdu_model : Text) → Keeps P (upgrade host cluster_uuid kdu_model)
  unfolding upgrade
  upgrade-Keeps cluster_uuid kdu_model =
      search
        (
          keeps_rules,
          get_namespace-Keeps frame host,
          get_model-Keeps,
          call-Keeps frame host,
          upgrade_all-Keeps,
          disconnect_model-Keeps,
        )
        depth 40

  pub uninstall-Keeps :
      (cluster_uuid kdu_instance : Text) → Keeps P (uninstall host cluster_uuid kdu_instance)
  unfolding uninstall
  uninstall-Keeps cluster_uuid kdu_instance = bind-Keeps (login-Keeps cluster_uuid) (λ _.
      bind-Keeps (controller-Keeps frame) (λ _.
        bind-Keeps (call-Keeps frame host (Event.destroy_models kdu_instance))
          (λ _. bind-Keeps logout-Keeps (λ _. pure-Keeps true))))

  pub exec_primitive-Keeps :
      (cluster_uuid kdu_instance primitive_name : Text) (application_name : Option Text)
      → Keeps P (exec_primitive host cluster_uuid kdu_instance primitive_name application_name)
  unfolding exec_primitive run_primitive
  exec_primitive-Keeps cluster_uuid kdu_instance primitive_name application_name =
      search
        (
          keeps_rules,
          login-Keeps,
          get_model-Keeps,
          ask-Keeps frame host,
          leader-Keeps frame cwd-P host,
          run_on-Keeps frame cwd-P host,
        )
        depth 60

  statuses-Keeps : (found : Bool) → Keeps P (statuses host found)
  statuses-Keeps false = search (keeps_rules)
  statuses-Keeps true = search (keeps_rules, ask-Keeps frame host, disconnect_connected-Keeps)

  pub status_kdu-Keeps : (cluster_uuid : Text) → Keeps P (status_kdu host cluster_uuid)
  unfolding status_kdu
  status_kdu-Keeps cluster_uuid =
      search (keeps_rules, get_namespace-Keeps frame host, get_model-Keeps, statuses-Keeps)
