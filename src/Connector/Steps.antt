-- ===== src/Connector/Steps.antt =====
-- The steps that the operations of n2vc/n2vc_juju_conn.py make on n2vc/libjuju.py leave no
-- connection open.
use n2vc.Prelude.{ℕ, zero, suc, refl, Bool, true, false, ◌≡◌, Option, none, List, [], ◌∷◌}
use n2vc.Prelude.Exec.{Result, ok, err, continue, ◌>>◌, ◌finally◌}
use n2vc.Exception.{Exception}
use n2vc.Text.{Text}
use n2vc.Libjuju.Connection.{Juju, World, Lib, Event, get_controller, get_model_}
use n2vc.Libjuju.Operations.{model_exists, get_model_status, disconnect_both, connected}
use n2vc.Libjuju.Action.{configure_application, set_config_to, get_application, unbound}
use n2vc.Libjuju.Opening.{IsReliable}
use n2vc.Libjuju.Frame.{with_controller-IsBalanced, connected-IsBalanced}
use n2vc.Libjuju.Balance.{bind-IsBalanced, pure-IsBalanced, IsBalanced, balanced_rules}
use n2vc.Libjuju.Leaks.{execute_action-IsBalanced, get_actions-IsBalanced}
use n2vc.Libjuju.AddModel.{list_models-IsBalanced}
use n2vc.Libjuju.Destroy.Closing.{destroy_model-IsBalanced}
use n2vc.Connector.Primitives.{verify_credentials, configure, run_primitive}
use n2vc.Connector.Ending.{statuses, destroy_models, destroy_listed}

module _ (juju : Juju) (reliable : IsReliable juju)
    (opens : (model_name : Text) (h : List Event)
      → juju.fails h (Event.get_model model_name) ≡ none)
    (lists : (h : List Event) → juju.fails h Event.get_machines ≡ none) where
  pub model_exists-IsBalanced :
      (model_name : Text) → IsBalanced (model_exists juju model_name false)
  unfolding model_exists
  model_exists-IsBalanced model_name =
      search (balanced_rules, with_controller-IsBalanced juju reliable)

  get_model_status-IsBalanced : (model_name : Text) → IsBalanced (get_model_status juju model_name)
  unfolding get_model_status
  get_model_status-IsBalanced model_name =
      search (balanced_rules, connected-IsBalanced juju reliable)

  -- Where `unbound` replaces the exception, the state is the same.
  unbound-state :
      (m n k : Lib (Unit {0})) (s : World)
      → (((λ s. unbound juju ((m >> n) s)) >> k) s).1 ≡ ((m >> (n >> k)) s).1
  unbound-state m n k s = first (m s)
    where
      second :
          (r : Result Exception (Unit {0}) × World)
          → (continue (unbound juju r) (λ _. k)).1 ≡ (continue r (λ _. k)).1
      second (ok a, t) = refl
      second (err x, t) = refl

      first :
          (r : Result Exception (Unit {0}) × World)
          → (continue (unbound juju (continue r (λ _. n))) (λ _. k)).1
            ≡ (continue r (λ _. n >> k)).1
      first (ok a, t) = second (n t)
      first (err x, t) = refl

  set_config_to-IsBalanced :
      (application_name : Text) → IsBalanced (set_config_to juju application_name)
  unfolding set_config_to get_application
  set_config_to-IsBalanced application_name = search (balanced_rules) depth 16

  configure_application-IsBalanced :
      (model_name application_name : Text) (has_config : Bool)
      → IsBalanced (configure_application juju model_name application_name has_config)
  unfolding configure_application connected
  configure_application-IsBalanced model_name application_name false = search (balanced_rules)
  configure_application-IsBalanced model_name application_name true = record {
    at = λ s.
        rw
          (unbound-state (get_controller juju) (get_model_ juju model_name)
            (set_config_to juju application_name finally disconnect_both juju) s)
          ((connected-IsBalanced juju reliable model_name (opens model_name)
              (set_config_to-IsBalanced application_name)).at
            s);
  }

  verify_credentials-IsBalanced :
      (retries : ℕ) (model_name application_name : Text)
      → IsBalanced (verify_credentials juju retries model_name application_name)
  unfolding verify_credentials
  verify_credentials-IsBalanced zero model_name application_name = search (balanced_rules)
  verify_credentials-IsBalanced (suc n) model_name application_name =
      search
        (balanced_rules, execute_action-IsBalanced juju reliable, verify_credentials-IsBalanced n)
        depth 16

  pub configure-IsBalanced :
      (model_name application_name : Text) (params : List Text)
      → IsBalanced (configure juju model_name application_name params)
  unfolding configure
  configure-IsBalanced model_name application_name params =
      search
        (
          balanced_rules,
          configure_application-IsBalanced,
          get_actions-IsBalanced juju reliable,
          verify_credentials-IsBalanced,
        )
        depth 16

  pub run_primitive-IsBalanced :
      (model_name application_name primitive_name : Text) (params : List Text)
      → IsBalanced (run_primitive juju model_name application_name primitive_name params)
  unfolding run_primitive
  run_primitive-IsBalanced model_name application_name primitive_name params =
      search (balanced_rules, execute_action-IsBalanced juju reliable) depth 16

  pub statuses-IsBalanced : (models : List Text) → IsBalanced (statuses juju models)
  unfolding statuses
  statuses-IsBalanced [] = search (balanced_rules)
  statuses-IsBalanced (m ∷ ms) = bind-IsBalanced (get_model_status-IsBalanced m) (λ status.
      bind-IsBalanced (statuses-IsBalanced ms) (λ rest. pure-IsBalanced ((m, status) ∷ rest)))

  destroy_models-IsBalanced :
      (models : List Text) (timeout : Option ℕ) → IsBalanced (destroy_models juju models timeout)
  unfolding destroy_models
  destroy_models-IsBalanced [] timeout = search (balanced_rules)
  destroy_models-IsBalanced (m ∷ ms) timeout =
      search
        (
          balanced_rules,
          destroy_model-IsBalanced juju reliable,
          lists,
          destroy_models-IsBalanced ms,
        )
        depth 16

  pub destroy_listed-IsBalanced :
      (ns_id : Text) (timeout : Option ℕ) → IsBalanced (destroy_listed juju ns_id timeout)
  unfolding destroy_listed
  destroy_listed-IsBalanced ns_id timeout =
      search (balanced_rules, list_models-IsBalanced juju, destroy_models-IsBalanced) depth 16
