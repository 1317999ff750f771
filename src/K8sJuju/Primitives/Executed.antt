-- ===== src/K8sJuju/Primitives/Executed.antt =====
-- How `exec_primitive` of n2vc/k8s_juju_conn.py ends.
use n2vc.Prelude.{◌≡◌, refl, ap, ℕ, ◌+◌, Bool, true, false, Option, none, some, if◌then◌else◌}
use n2vc.Prelude.Exec.{Result, ok, err, pure, raise, continue, handled, ◌>>=◌, ◌>>◌, ◌catch◌}
use n2vc.Exception.{Exception, k8s, key_error, attribute_error}
use n2vc.Text.{Text}
use n2vc.K8sJuju.Host.{
  Event, Host, State, Op, gets, or_raise, ask, call_then, changes, recorded, ends, opened,
}
use n2vc.K8sJuju.Controller.{is_in, get_model}
use n2vc.K8sJuju.Controller.Held.{login_held}
use n2vc.K8sJuju.Primitives.{leader, run_on, run_primitive, exec_primitive}
use n2vc.K8sJuju.Keeps.{Ends, Ends-all, Keeps-Ends, gets-Keeps, if-Keeps, pure-Keeps, raise-Keeps}
use n2vc.K8sJuju.Frame.{IsFrame, list_models-Keeps, ask-Keeps}
use n2vc.K8sJuju.Frame.Counts.{HasOpen, HasOpen-IsFrame}
use n2vc.K8sJuju.Frame.Operations.{leader-Keeps, run_on-Keeps}

module _ (host : Host) (cluster_uuid : Text) where
  -- A model that is found is open.
  found-HasOpen :
      (model_name : Text) (s : State)
      → s.authenticated ≡ true
      → Ends
          (λ found. HasOpen (if found then s.open_models + 1 else s.open_models))
          (get_model host model_name cluster_uuid s)
  unfolding get_model call_then
  found-HasOpen model_name s h = rw (login_held host cluster_uuid s h) (
      Keeps-Ends Q _ (list_models-Keeps (HasOpen-IsFrame s.open_models) host) s refl
        λ models t k. go t k (is_in model_name models))
    where
      Q : Bool → State → Type 0
      Q found = HasOpen (if found then s.open_models + 1 else s.open_models)

      called :
          (t : State)
          → HasOpen s.open_models t
          → (x : Option Exception)
          → Ends Q (
              continue {A = Unit {0}}
                (ends x tt, recorded (Event.get_model model_name) (changes x opened t))
                (λ _. pure true))
      called t k none = ap (λ n. n + 1) k
      called t k (some x) = tt

      go :
          (t : State)
          → HasOpen s.open_models t
          → (b : Bool)
          → Ends Q (
              (if b
                  then call_then host (Event.get_model model_name) opened >> pure true
                  else pure false)
                t)
      go t k true = called t k (host.fails t.history (Event.get_model model_name))
      go t k false = k

  -- Where the primitive returns, the model was found, and it is still open.
  run-HasOpen :
      (kdu_instance primitive_name application_name : Text) (s : State)
      → s.authenticated ≡ true
      → Ends
          (λ _. HasOpen (s.open_models + 1))
          (run_primitive host cluster_uuid kdu_instance primitive_name application_name s)
  unfolding run_primitive
  run-HasOpen kdu_instance primitive_name application_name s h =
      go (get_model host kdu_instance cluster_uuid s) (found-HasOpen kdu_instance s h)
    where
      n : ℕ
      n = s.open_models + 1

      frame : IsFrame (HasOpen n)
      frame = HasOpen-IsFrame n

      Q : Text → State → Type 0
      Q _ = HasOpen n

      rest : Bool → Op Text
      rest found = do
        (if found then pure tt else raise attribute_error)
        names ← gets (λ s. host.applications s.history)
        (if is_in application_name names then pure tt else raise key_error)
        actions ← ask host (Event.get_actions application_name) host.actions
        (if is_in primitive_name actions then pure tt else raise k8s)
        units ← gets (λ s. host.units s.history application_name)
        unit ← leader host units
        run_on host unit primitive_name

      go :
          (r : Result Exception Bool × State)
          → Ends (λ found. HasOpen (if found then s.open_models + 1 else s.open_models)) r
          → Ends Q (continue r rest)
      go (err x, t) k = tt
      go (ok false, t) k = tt
      go (ok true, t) k =
          Keeps-Ends Q _ (gets-Keeps (λ s. host.applications s.history)) t k λ names t k.
            Keeps-Ends Q _
              (if-Keeps (is_in application_name names) (pure-Keeps tt) (raise-Keeps key_error)) t k
              λ _ t k.
                Keeps-Ends Q _
                  (ask-Keeps frame host (Event.get_actions application_name) host.actions) t k
                  λ actions t k.
                    Keeps-Ends Q _
                      (if-Keeps (is_in primitive_name actions) (pure-Keeps tt) (raise-Keeps k8s)) t
                      k
                      λ _ t k.
                        Keeps-Ends Q _
                          (leader-Keeps frame (λ x s h. h) host
                            (host.units t.history application_name))
                          t k
                          λ unit t k.
                            Ends-all Q (run_on host unit primitive_name t) (λ _.
                              (run_on-Keeps frame (λ x s h. h) host unit primitive_name).at t k)

  abbrev pub Executed : State → Result Exception Text × State → Type 0
  Executed s (ok output, t) = t.open_models ≡ s.open_models + 1
  Executed s (err x, t) = x ≡ k8s

  -- From an authenticated connector exec_primitive raises only K8sException; and where it returns, the
  -- connection to the model that it opened is still open.
  pub exec_primitive-Executed :
      (kdu_instance primitive_name : Text) (application_name : Option Text) (s : State)
      → s.authenticated ≡ true
      → Executed s (exec_primitive host cluster_uuid kdu_instance primitive_name application_name s)
  unfolding exec_primitive
  exec_primitive-Executed kdu_instance primitive_name application_name s h =
      rw (login_held host cluster_uuid s h) (go application_name)
    where
      caught :
          (r : Result Exception Text × State)
          → Ends (λ _. HasOpen (s.open_models + 1)) r
          → Executed s (handled r (λ x. raise k8s))
      caught (ok output, t) k = k
      caught (err x, t) k = refl

      go :
          (o : Option Text)
          → Executed s (
              continue (or_raise {A = Text} k8s o s) (λ name.
                run_primitive host cluster_uuid kdu_instance primitive_name name
                catch (λ x. raise k8s)))
      go none = refl
      go (some name) = caught _ (run-HasOpen kdu_instance primitive_name name s h)
