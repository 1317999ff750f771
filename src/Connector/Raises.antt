-- ===== src/Connector/Raises.antt =====
-- Which exceptions leave the operations of n2vc/n2vc_juju_conn.py.
use n2vc.Prelude.{ℕ, ◌≡◌, refl, Bool, true, false, Option, none, some, List, [], ◌∷◌, if◌then◌else◌}
use n2vc.Prelude.Exec.{Result, ok, err, pure, raise, continue, handled, ◌>>=◌, ◌catch◌}
use n2vc.Exception.{Exception, index_error, n2vc_bad_arguments}
use n2vc.Naming.AppName.{format_app_name}
use n2vc.Text.{Text, Unicode, format}
use n2vc.Database.{DbDict}
use n2vc.Naming.AppName.Some.{format_app_name-some}
use n2vc.Naming.Namespace.{
  Components, get_namespace_components, application_name, get_application_name,
}
use n2vc.Connector.{
  Connector, State, Op, or_raise, given, namespace_components, valid_components, instead,
}
use n2vc.Connector.Environments.{Credentials, application_name_of, register_execution_environment}
use n2vc.Connector.Charms.{answer, given_dict, full_path, install_configuration_sw}
use n2vc.Connector.Primitives.{exec_primitive}
use n2vc.Connector.Ending.{delete_namespace, disconnect}

-- N2VCException and the classes derived from it
unfoldable pub is_n2vc : Exception → Bool
is_n2vc Exception.n2vc_base = true
is_n2vc Exception.n2vc_bad_arguments = true
is_n2vc Exception.n2vc_connection = true
is_n2vc Exception.n2vc_timeout = true
is_n2vc Exception.n2vc_execution = true
is_n2vc Exception.n2vc_invalid_certificate = true
is_n2vc Exception.n2vc_not_found = true
is_n2vc x = false

abbrev pub OnlyN2vc : {A : Type 0} → Result Exception A → Type 0
OnlyN2vc (ok a) = Unit
OnlyN2vc (err x) = is_n2vc x ≡ true

-- An action that raises no other exceptions than N2VC's.
pub record RaisesN2vc {A : Type 0} (m : Op A) : Type 0 where
  pub at : (s : State) → OnlyN2vc (m s).0

module _ {A B : Type 0} where
  bind-RaisesN2vc :
      {m : Op A} {f : A → Op B} → RaisesN2vc m → ((a : A) → RaisesN2vc (f a)) → RaisesN2vc (m >>= f)
  bind-RaisesN2vc {m} {f} h k = record { at = λ s. go (m s) (h.at s) }
    where
      go : (r : Result Exception A × State) → OnlyN2vc r.0 → OnlyN2vc (continue r f).0
      go (ok a, t) e = (k a).at t
      go (err x, t) e = e

module _ {A : Type 0} where
  pure-RaisesN2vc : (a : A) → RaisesN2vc (pure {S = State} a)
  pure-RaisesN2vc a = record { at = λ s. tt }

  raise-RaisesN2vc : (x : Exception) → is_n2vc x ≡ true → RaisesN2vc (raise {S = State} {A = A} x)
  raise-RaisesN2vc x e = record { at = λ s. e }

  if-RaisesN2vc :
      (b : Bool) {m n : Op A} → RaisesN2vc m → RaisesN2vc n → RaisesN2vc (if b then m else n)
  if-RaisesN2vc true h k = h
  if-RaisesN2vc false h k = k

  -- Whatever the action raises, it is replaced.
  instead-RaisesN2vc :
      (m : Op A) (x : Exception) → is_n2vc x ≡ true → RaisesN2vc (m catch instead x)
  unfolding instead
  instead-RaisesN2vc m x e = record { at = λ s. go (m s) }
    where
      go : (r : Result Exception A × State) → OnlyN2vc (handled r (instead x)).0
      go (ok a, t) = tt
      go (err y, t) = e

  or_raise-RaisesN2vc :
      (x : Exception) → is_n2vc x ≡ true → (o : Option A) → RaisesN2vc (or_raise x o)
  or_raise-RaisesN2vc x e none = record { at = λ s. e }
  or_raise-RaisesN2vc x e (some a) = pure-RaisesN2vc a

  answer-RaisesN2vc : (r : Result Exception A) → OnlyN2vc r → RaisesN2vc (answer r)
  answer-RaisesN2vc r h = record { at = λ s. h }

ruleset raises_rules = (
  bind-RaisesN2vc, pure-RaisesN2vc, raise-RaisesN2vc, if-RaisesN2vc, instead-RaisesN2vc,
  or_raise-RaisesN2vc, answer-RaisesN2vc,
)

given-RaisesN2vc : (o : Option Text) → RaisesN2vc (given o)
unfolding given is_n2vc
given-RaisesN2vc none = raise-RaisesN2vc _ refl
given-RaisesN2vc (some []) = raise-RaisesN2vc _ refl
given-RaisesN2vc (some (c ∷ s)) = pure-RaisesN2vc (c ∷ s)

given_dict-RaisesN2vc : (o : Option DbDict) → RaisesN2vc (given_dict o)
unfolding given_dict is_n2vc
given_dict-RaisesN2vc none = raise-RaisesN2vc _ refl
given_dict-RaisesN2vc (some d) = pure-RaisesN2vc tt

valid_components-RaisesN2vc : (ee_id : Text) → RaisesN2vc (valid_components ee_id)
unfolding valid_components is_n2vc
valid_components-RaisesN2vc ee_id = instead-RaisesN2vc _ _ refl

module _ ⦃u : Unicode⦄ where
  -- Both look at the components; the name that is built begins with a letter, so it has a first
  -- character.
  names-RaisesN2vc :
      {A : Type 0} (namespace : Option Text) (f : Components → Text → Op A)
      → ((c : Components) (a : Text) → RaisesN2vc (f c a))
      → RaisesN2vc (namespace_components namespace >>= λ c. application_name_of namespace >>= f c)
  unfolding namespace_components application_name_of get_application_name is_n2vc application_name
      format
  names-RaisesN2vc {A} namespace f h =
      elim (get_namespace_components namespace)
        as (λ o. RaisesN2vc (
          or_raise n2vc_bad_arguments o >>= λ c.
          or_raise index_error
            (elim o [ none ↦ none | some n ↦ format_app_name (application_name n) ])
          >>= f c)) [
            | none ↦ raise-RaisesN2vc _ refl
            | some c ↦
                let found : (t : Text) × (format_app_name (application_name c) ≡ some t) =
                  format_app_name-some _ in
                rw found.1 (h c found.0)
          ]

-- The operations that raise no other exceptions than N2VC's.
pub record RaiseN2vc ⦃u : Unicode⦄ (connector : Connector) : Type 0 where
  pub register :
      (namespace : Option Text) (credentials : Option Credentials)
      → RaisesN2vc (register_execution_environment connector namespace credentials)
  pub install :
      (ee_id artifact_path : Option Text) (db_dict : Option DbDict) (num_units : ℕ)
      → RaisesN2vc (install_configuration_sw connector ee_id artifact_path db_dict num_units)
  pub exec :
      (ee_id primitive_name : Option Text) (params : List Text)
      → RaisesN2vc (exec_primitive connector ee_id primitive_name params)
  pub delete :
      (namespace : Option Text) (total_timeout : Option ℕ)
      → RaisesN2vc (delete_namespace connector namespace total_timeout)
  pub closes : RaisesN2vc (disconnect connector)

module _ (connector : Connector) where
  full_path-RaisesN2vc :
      ((path : Text) → OnlyN2vc (connector.file_exists path))
      → (path : Text) → RaisesN2vc (full_path connector path)
  unfolding full_path is_n2vc
  full_path-RaisesN2vc h path = search (raises_rules, h)

  install_configuration_sw-RaisesN2vc :
      ((path : Text) → OnlyN2vc (connector.file_exists path))
      → (ee_id artifact_path : Option Text) (db_dict : Option DbDict) (num_units : ℕ)
      → RaisesN2vc (install_configuration_sw connector ee_id artifact_path db_dict num_units)
  unfolding install_configuration_sw is_n2vc
  install_configuration_sw-RaisesN2vc h ee_id artifact_path db_dict num_units =
      search
        (
          raises_rules, given-RaisesN2vc, given_dict-RaisesN2vc, valid_components-RaisesN2vc,
          full_path-RaisesN2vc, h,
        )
        depth 16

  register_execution_environment-RaisesN2vc :
      ⦃u : Unicode⦄ (namespace : Option Text) (credentials : Option Credentials)
      → RaisesN2vc (register_execution_environment connector namespace credentials)
  unfolding register_execution_environment is_n2vc
  register_execution_environment-RaisesN2vc namespace none = raise-RaisesN2vc _ refl
  register_execution_environment-RaisesN2vc namespace (some c) =
      search (raises_rules, given-RaisesN2vc, names-RaisesN2vc) depth 16

  exec_primitive-RaisesN2vc :
      (ee_id primitive_name : Option Text) (params : List Text)
      → RaisesN2vc (exec_primitive connector ee_id primitive_name params)
  unfolding exec_primitive is_n2vc
  exec_primitive-RaisesN2vc ee_id primitive_name params =
      search (raises_rules, given-RaisesN2vc, valid_components-RaisesN2vc) depth 16

  delete_namespace-RaisesN2vc :
      (namespace : Option Text) (total_timeout : Option ℕ)
      → RaisesN2vc (delete_namespace connector namespace total_timeout)
  unfolding delete_namespace namespace_components is_n2vc
  delete_namespace-RaisesN2vc namespace total_timeout = search (raises_rules) depth 16

  disconnect-RaisesN2vc : RaisesN2vc (disconnect connector)
  unfolding disconnect is_n2vc
  disconnect-RaisesN2vc = instead-RaisesN2vc _ _ refl

  -- If the file storage raises no other exceptions than N2VC's, the registration of an environment, the
  -- installation of a charm, the primitives, the deletion of a namespace and the disconnection raise
  -- no others either, whatever the juju library, the database and the arguments do.
  pub operations-RaisesN2vc :
      ⦃u : Unicode⦄ → ((path : Text) → OnlyN2vc (connector.file_exists path)) → RaiseN2vc connector
  operations-RaisesN2vc h = record {
    register = register_execution_environment-RaisesN2vc;
    install = install_configuration_sw-RaisesN2vc h;
    exec = exec_primitive-RaisesN2vc;
    delete = delete_namespace-RaisesN2vc;
    closes = disconnect-RaisesN2vc;
  }
