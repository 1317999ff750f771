-- ===== src/Connector/Handover.antt =====
-- From `create_execution_environment` to `install_configuration_sw` of n2vc/n2vc_juju_conn.py: the
-- environment is handed over as a text, its id.
use mathlib.Core.Path.{subst}
use n2vc.Prelude.{
  Bool, true, if◌then◌else◌, ◌++◌, suc, arith, length, List, All, ℕ, ◌≡◌, refl, Option, none, some,
  [], ◌∷◌,
}
use n2vc.Prelude.Exec.{Result, ok, err, pure, continue, handled, ◌>>=◌, ◌>>◌, ◌catch◌}
use n2vc.Exception.{Exception, n2vc_base}
use n2vc.Text.{Text, codes, format, Unicode}
use n2vc.Text.Split.{split-append, join, join-split, split, split-Lacks, Lacks}
use n2vc.Database.{DbDict}
use n2vc.Libjuju.Connection.{Event, result_text}
use n2vc.Libjuju.Operations.{create_machine, deploy_charm}
use n2vc.Naming.EeId.{ee_id-join, build_ee_id, get_ee_id_components-build_ee_id}
use n2vc.Naming.Namespace.{Components, get_namespace_components, get_application_name}
use n2vc.Naming.Namespace.Parts.{ns_id-Lacks}
use n2vc.Naming.Namespace.Parts.{shown}
use n2vc.Connector.{
  Connector, State, Op, on_juju, named, write_ee_id, given, namespace_components, ee_id_components,
  valid_components, instead,
}
use n2vc.Connector.Environments.{
  create_execution_environment, names_for, names_of, application_name_of, ensure_model, environment,
}
use n2vc.Connector.Charms.{given_dict, full_path, install_configuration_sw}

abbrev Good : {A : Type 0} → (A → Type 0) → Result Exception A → Type 0
Good P (ok a) = P a
Good P (err x) = Unit

-- What an action returns, where it returns, has the property.
record Returns {A : Type 0} (P : A → Type 0) (m : Op A) : Type 0 where
  at : (s : State) → Good P (m s).0

module _ {A B : Type 0} where
  after-Returns :
      {Q : B → Type 0} (m : Op A) {f : A → Op B} → ((a : A) → Returns Q (f a)) → Returns Q (m >>= f)
  after-Returns {Q} m {f} k = record { at = λ s. go (m s) }
    where
      go : (r : Result Exception A × State) → Good Q (continue r f).0
      go (ok a, t) = (k a).at t
      go (err x, t) = tt

module _ {A : Type 0} {P : A → Type 0} where
  pure-Returns : (a : A) → P a → Returns P (pure a)
  pure-Returns a p = record { at = λ s. p }

given_id :
    (m a i : Text) (s : State) → given (some (build_ee_id m a i)) s ≡ (ok (build_ee_id m a i), s)
unfolding given build_ee_id format
given_id [] a i s = refl
given_id (c ∷ m) a i s = refl

-- An id of three parts whose first two hold no dot has a third that holds none.
one_part-Lacks : (s : Text) → length (split b'.' s) ≡ 1 → Lacks b'.' s
one_part-Lacks s h = go (split b'.' s) (join-split b'.' s) (split-Lacks b'.' s) h
  where
    go :
        (parts : List Text)
        → join b'.' parts ≡ s
        → All (Lacks b'.') parts
        → length parts ≡ 1
        → Lacks b'.' s
    go [] e l h = absurd (ground arith)
    go (g ∷ []) e l h = unfold join in subst (Lacks b'.') e l.0
    go (g ∷ k ∷ rest) e l h = absurd (ground arith)

last_part-Lacks :
    (m a i : Text)
    → Lacks b'.' m
    → Lacks b'.' a
    → length (split b'.' (build_ee_id m a i)) ≡ 3
    → Lacks b'.' i
last_part-Lacks m a i hm ha h = one_part-Lacks i (omega (arith, parts, h))
  where
    parts : length (split b'.' (build_ee_id m a i)) ≡ suc (suc (length (split b'.' i)))
    parts = rw (ee_id-join m a i) (
        unfold join in
        rw (split-append b'.' m (a ++ b'.' ∷ i) hm) (rw (split-append b'.' a i ha) refl))

module _ (connector : Connector) where
  -- Deploy the charm under the path to the machine, in the model.
  abbrev pub deploy_to : Text → Text → Text → Text → ℕ → Op (Unit {0})
  deploy_to model_name application_name machine_id path num_units =
      full_path connector path >>= λ full.
      on_juju (
        deploy_charm connector.juju application_name full model_name (some machine_id) none
          num_units)
      catch instead n2vc_base

  install_on :
      (m a i : Text)
      → Lacks b'.' m
      → Lacks b'.' a
      → Lacks b'.' i
      → (c : ℕ) (path : Text) (db_dict : DbDict) (num_units : ℕ) (s : State)
      → install_configuration_sw connector
          (some (build_ee_id m a i))
          (some (c ∷ path))
          (some db_dict)
          num_units
          s
        ≡ deploy_to m a i (c ∷ path) num_units s
  unfolding install_configuration_sw valid_components ee_id_components given_dict
  install_on m a i hm ha hi c path db_dict num_units s =
      rw (given_id m a i s)
        (unfold given in rw (get_ee_id_components-build_ee_id m a i hm ha hi) refl)

  -- The machine that the library creates, once there is a model.
  abbrev pub Created : Option Text → State → Text → Type 0
  Created m s machine =
      (v w : State) × (new : Bool) × (ensure_model connector m s ≡ (ok tt, v))
      × (on_juju (create_machine connector.juju (named m) none (codes "xenial") true) v
          ≡ (ok (machine, new), w))

  abbrev Built : Option Text → Text → State → Text × Text → Type 0
  Built m a s (machine, ee_id) = Created m s machine × (ee_id ≡ build_ee_id (shown m) a machine)

  abbrev recorded : Option DbDict → Option Text → Text → Text × Bool → Op (Text × Text)
  recorded db_dict m a (machine, new) = do
    (if new
        then write_ee_id connector.answers db_dict (build_ee_id (shown m) a machine)
        else pure tt)
    pure (machine, build_ee_id (shown m) a machine)

  environment-Built :
      (db_dict : Option DbDict) (m : Option Text) (a : Text) (s : State)
      → Good (Built m a s) (environment connector db_dict (m, some a, none) s).0
  unfolding environment
  environment-Built db_dict m a s = ensured (ensure_model connector m s) refl
    where
      creation : Op (Text × Bool)
      creation = on_juju (create_machine connector.juju (named m) none (codes "xenial") true)

      made :
          (v : State)
          → ensure_model connector m s ≡ (ok tt, v)
          → (r : Result Exception (Text × Bool) × State) → creation v ≡ r
          → Good (Built m a s) (continue r (recorded db_dict m a)).0
      made v e (ok (machine, new), w) d =
          (after-Returns {Q = Built m a s}
              (if new
                then write_ee_id connector.answers db_dict (build_ee_id (shown m) a machine)
                else pure tt)
              (λ _.
                pure-Returns (machine, build_ee_id (shown m) a machine)
                  ((v, w, new, e, d), refl))).at
            w
      made v e (err x, w) d = tt

      ensured :
          (r : Result Exception (Unit {0}) × State)
          → ensure_model connector m s ≡ r
          → Good (Built m a s) (continue r (λ _. creation >>= recorded db_dict m a)).0
      ensured (ok done, v) e = made v e (creation v) refl
      ensured (err x, v) e = tt

  abbrev Handed : Option Text → Text → State → Text × Text → Type 0
  Handed m a s (ee_id, hostname) =
      (machine : Text) × Created m s machine × (ee_id ≡ build_ee_id (shown m) a machine)

  module _ ⦃u : Unicode⦄ where
    create-Handed :
        (namespace : Option Text) (components : Components) (a : Text) (db_dict : Option DbDict)
        (s : State)
        → get_namespace_components namespace ≡ some components
        → get_application_name namespace ≡ some a
        → Good
            (Handed components.ns_id a s)
            (create_execution_environment connector namespace db_dict none s).0
    unfolding create_execution_environment names_for names_of namespace_components
        application_name_of get_application_name instead
    create-Handed namespace components a db_dict s parsed called = rw called (
        rw parsed (
          go (environment connector db_dict (components.ns_id, some a, none) s)
            (environment-Built db_dict components.ns_id a s)))
      where
        go :
            (r : Result Exception (Text × Text) × State)
            → Good (Built components.ns_id a s) r.0
            → Good
                (Handed components.ns_id a s)
                (continue (handled r (instead n2vc_base)) (λ (machine, ee_id).
                  on_juju (result_text connector.juju (Event.dns_name machine)) >>= λ hostname.
                  pure (ee_id, hostname))).0
        go (ok (machine, ee_id), t) (c, e) =
            (after-Returns {Q = Handed components.ns_id a s}
                (on_juju (result_text connector.juju (Event.dns_name machine)))
                (λ hostname. pure-Returns (ee_id, hostname) (machine, c, e))).at
              t
        go (err x, t) g = tt

    -- Where an environment is created for a namespace, its id is all that `install_configuration_sw`
    -- needs: the charm goes to the machine that was created, in the model of the network service and
    -- under the application name of the namespace. The application name holds no dot, and the id has
    -- three parts.
    pub install_configuration_sw-create :
        (namespace : Option Text) (components : Components) (a : Text) (db_dict : DbDict)
        (s t : State) (ee_id hostname : Text)
        → get_namespace_components namespace ≡ some components
        → get_application_name namespace ≡ some a
        → Lacks b'.' a
        → create_execution_environment connector namespace (some db_dict) none s
          ≡ (ok (ee_id, hostname), t)
        → length (split b'.' ee_id) ≡ 3
        → (machine : Text) × Created components.ns_id s machine
          × (ee_id ≡ build_ee_id (shown components.ns_id) a machine)
          × ((c : ℕ) (path : Text) (num_units : ℕ)
              → install_configuration_sw connector
                  (some ee_id)
                  (some (c ∷ path))
                  (some db_dict)
                  num_units
                  t
                ≡ deploy_to (shown components.ns_id) a machine (c ∷ path) num_units t)
    install_configuration_sw-create namespace components a db_dict s t ee_id hostname parsed called
          ha created three =
        let (machine, creation, e) =
          subst (λ r. Good (Handed components.ns_id a s) r.0) created
            (create-Handed namespace components a (some db_dict) s parsed called) in
        let hm = ns_id-Lacks namespace components parsed in
        let hi = last_part-Lacks (shown components.ns_id) a machine hm ha (rw (← e) three) in
        (
          machine,
          creation,
          e,
          λ c path num_units.
              rw e
                (install_on (shown components.ns_id) a machine hm ha hi c path db_dict num_units t),
        )
