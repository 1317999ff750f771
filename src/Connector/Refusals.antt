-- ===== src/Connector/Refusals.antt =====
-- Requests that the operations of n2vc/n2vc_juju_conn.py refuse.
use n2vc.Prelude.{
  suc, ◌<◌, ◌≢◌, ◌==◌, if◌then◌else◌, length, Bool-cases, inl, inr, arith, ℕ, ◌≡◌, refl, true,
  Option, none, some, List, [], ◌∷◌, ◌++◌,
}
use n2vc.Prelude.Exec.{ok, err}
use n2vc.Exception.{Exception}
use n2vc.Text.{Text, codes, Unicode, format}
use n2vc.Database.{DbDict}
use n2vc.Libjuju.Connection.{
  World, Event, member, call, call_names, get_controller, disconnect_controller_,
}
use n2vc.Libjuju.Operations.{model_exists, try_add_model, add_model}
use n2vc.Libjuju.Opening.{IsReliable}
use n2vc.Text.Split.{split, cons_head, split-ne-nil}
use n2vc.Naming.EeId.{first_three, present, get_ee_id_components}
use n2vc.Naming.Namespace.{Components, get_namespace_components}
use n2vc.Naming.Namespace.Parts.{shown}
use n2vc.Connector.{
  Connector, State, on_juju, given, namespace_components, ee_id_components, valid_components,
  instead,
}
use n2vc.Connector.Environments.{create_execution_environment, names_for}
use n2vc.Connector.Charms.{
  given_dict, install_configuration_sw, install_k8s_proxy_charm, full_path, k8s_cloud_of,
}
use n2vc.Connector.Primitives.{exec_primitive, get_ee_ssh_public__key}
use n2vc.Connector.Ending.{delete_execution_environment, add_relation}

-- How many dots a text has.
unfoldable pub dots : Text → ℕ
dots [] = 0
dots (c ∷ s) = if c == b'.' then suc (dots s) else dots s

length-cons_head : (c : ℕ) (gs : List Text) → gs ≢ [] → length (cons_head c gs) ≡ length gs
length-cons_head c [] h = absurd (h refl)
length-cons_head c (g ∷ gs) h = refl

-- It has one part more.
length-split : (s : Text) → length (split b'.' s) ≡ suc (dots s)
unfolding split dots
length-split [] = refl
length-split (c ∷ s) = elim (Bool-cases (c == b'.')) [
  | inl e ↦ rw e (omega (arith, length-split s))
  | inr e ↦
      rw e (omega (arith, length-split s, length-cons_head c (split b'.' s) (split-ne-nil b'.' s)))
]

-- Fewer than three parts.
too_few : (id : Text) → dots id < 2 → get_ee_id_components (some id) ≡ none
unfolding get_ee_id_components
too_few id few = go (split b'.' id) (omega (arith, length-split id))
  where
    go : (parts : List Text) → length parts < 3 → present (first_three parts) ≡ none
    go [] h = refl
    go (g ∷ []) h = refl
    go (g ∷ k ∷ []) h = refl
    go (g ∷ k ∷ l ∷ rest) h = absurd (omega arith)

module _ ⦃u : Unicode⦄ (connector : Connector) where
  -- An environment id that is not empty but has fewer than two dots is refused, and nothing is
  -- changed. `install_configuration_sw`, `exec_primitive` and `get_ee_ssh_public__key` raise
  -- N2VCBadArgumentsException; `delete_execution_environment`, `add_relation` and the reuse by
  -- `create_execution_environment` fail with IndexError.
  pub malformed_ee_id :
      (c d e f g j : ℕ) (id path name other_id relation_1 relation_2 : Text) (db_dict : DbDict)
      (num_units : ℕ) (params : List Text) (namespace : Option Text) (timeout : Option ℕ)
      (s : State)
      → dots (c ∷ id) < 2
      → (install_configuration_sw connector
            (some (c ∷ id))
            (some (d ∷ path))
            (some db_dict)
            num_units
            s
          ≡ (err Exception.n2vc_bad_arguments, s))
        × (exec_primitive connector (some (c ∷ id)) (some (g ∷ name)) params s
            ≡ (err Exception.n2vc_bad_arguments, s))
        × (get_ee_ssh_public__key connector (some (c ∷ id)) (some db_dict) s
            ≡ (err Exception.n2vc_bad_arguments, s))
        × (delete_execution_environment connector (some (c ∷ id)) timeout s
            ≡ (err Exception.index_error, s))
        × (add_relation connector
              (some (c ∷ id))
              (some (j ∷ other_id))
              (some (e ∷ relation_1))
              (some (f ∷ relation_2))
              s
            ≡ (err Exception.index_error, s))
        × (create_execution_environment connector namespace (some db_dict) (some (c ∷ id)) s
            ≡ (err Exception.index_error, s))
  unfolding install_configuration_sw exec_primitive get_ee_ssh_public__key given given_dict
      delete_execution_environment add_relation create_execution_environment names_for
      valid_components ee_id_components instead
  malformed_ee_id c d e f g j id path name other_id relation_1 relation_2 db_dict num_units params
        namespace timeout s few =
      let h : get_ee_id_components (some (c ∷ id)) ≡ none = too_few (c ∷ id) few in
      (rw h refl, rw h refl, rw h refl, rw h refl, rw h refl, rw h refl)

  -- A second proxy charm for a network service is refused: where the controller can be connected and
  -- lists the model of the first, `install_k8s_proxy_charm` raises JujuModelAlreadyExists, and its
  -- only calls after the connection list the models and close the controller.
  pub install_k8s_proxy_charm_again :
      (reliable : IsReliable connector.juju) (namespace : Option Text) (components : Components)
      (c d : ℕ) (cloud path full : Text) (db_dict : DbDict) (s : State) (t : World)
      → connector.k8s_cloud ≡ some (d ∷ cloud)
      → full_path connector (c ∷ path) s ≡ (ok full, s)
      → get_namespace_components namespace ≡ some components
      → get_controller connector.juju s.world ≡ (ok tt, t)
      → connector.juju.fails t.history Event.list_models ≡ none
      → member
          (format (shown components.ns_id ∷ codes "-k8s" ∷ []))
          (connector.juju.names t.history Event.list_models)
        ≡ true
      → let (r, s') =
          install_k8s_proxy_charm connector namespace (some (c ∷ path)) (some db_dict) s in
        (r ≡ err Exception.juju_model_already_exists)
        × (s'.world.history
            ≡ (t.history ++ Event.list_models ∷ []) ++ Event.disconnect_controller ∷ [])
  unfolding install_k8s_proxy_charm k8s_cloud_of given given_dict namespace_components on_juju
      add_model try_add_model model_exists call_names call disconnect_controller_
  install_k8s_proxy_charm_again reliable namespace components c d cloud path full db_dict s t
        has_cloud has_path parsed connects lists there =
      rw has_cloud (
        rw has_path (
          rw parsed (
            rw connects (
              rw lists (
                rw there (
                  rw (reliable.closes_controller (t.history ++ Event.list_models ∷ []))
                    (refl, refl)))))))
