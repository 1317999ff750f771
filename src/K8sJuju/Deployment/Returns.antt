-- ===== src/K8sJuju/Deployment/Returns.antt =====
-- What `install` of n2vc/k8s_juju_conn.py leaves where it returns.
use n2vc.Prelude.{
  ◌≡◌, refl, ap, ◌∙◌, arith, ℕ, ◌+◌, Bool, true, false, Option, none, some, List, if◌then◌else◌,
}
use n2vc.Prelude.Exec.{Result, ok, err, pure, raise, continue, handled, ◌>>◌}
use n2vc.Exception.{Exception, unbound_local, attribute_error}
use n2vc.Text.{Text, codes, starts_with}
use n2vc.K8sJuju.Host.{
  Event, Host, State, chdir, call_then, changes, recorded, ends, opened, closed, inside,
  disconnect_model,
}
use n2vc.K8sJuju.Controller.{controller, add_model}
use n2vc.K8sJuju.Environment.{reset}
use n2vc.K8sJuju.Deployment.{instance_name, disconnect_connected, conclude, deploy_bundle, install}
use n2vc.K8sJuju.Keeps.{Keeps, Ends, Keeps-Ends, then_Ends}
use n2vc.K8sJuju.Frame.Counts.{HasOpen, IsAt, HasOpen-IsFrame, IsAt-IsPlain}
use n2vc.K8sJuju.Frame.{IsFrame, reset-Keeps, call-Keeps}
use n2vc.K8sJuju.Frame.Plain.{login-Keeps, logout-Keeps}
use n2vc.K8sJuju.Frame.Operations.{find_bundle-Keeps, wait_settled-Keeps}

abbrev pub named : Result Exception Text → Option Text → Option Text
named (ok id) kdu_name = some (instance_name kdu_name id)
named (err x) kdu_name = none

-- The instance, with the new model closed again; or a timeout, with the new model still open.
abbrev pub Left : Result Exception Text → Option Text → State → Option Text → State → Type 0
Left filter_id kdu_name s (some name) t =
    (t.cwd ≡ s.cwd) × (t.open_models ≡ s.open_models) × (named filter_id kdu_name ≡ some name)
Left filter_id kdu_name s none t = (t.cwd ≡ s.cwd) × (t.open_models ≡ s.open_models + 1)

-- What is left after the wait: the path, the name of the instance, the models open before.
abbrev Concluded : Text → Text → ℕ → Option Text → State → Type 0
Concluded path name n (some r) t = (t.cwd ≡ path) × HasOpen n t × (name ≡ r)
Concluded path name n none t = (t.cwd ≡ path) × HasOpen (n + 1) t

module _ (host : Host) where
  added-IsAt :
      (model_name cluster_uuid path : Text) (n : ℕ) (s : State)
      → IsAt path n s
      → Ends (λ _. IsAt path (n + 1)) (add_model host model_name cluster_uuid s)
  unfolding add_model controller call_then
  added-IsAt model_name cluster_uuid path n s h =
      Keeps-Ends (λ _. IsAt path (n + 1)) _ (login-Keeps (IsAt-IsPlain path n) host cluster_uuid) s
        h λ _ t p. go t p t.has_controller
    where
      added :
          (t : State)
          → IsAt path n t
          → (x : Option Exception)
          → Ends
              (λ _. IsAt path (n + 1))
              (handled {A = Unit {0}}
                (ends x tt, recorded (Event.add_model model_name t.public_key) (changes x opened t))
                (λ x. raise unbound_local))
      added t h none = (h.0, ap (λ k. k + 1) h.1)
      added t h (some x) = tt

      go :
          (t : State)
          → IsAt path n t
          → (b : Bool)
          → Ends
              (λ _. IsAt path (n + 1))
              (handled
                (continue ((if b then pure tt else raise attribute_error) t) (λ (_ : Unit {0}).
                  call_then host (Event.add_model model_name t.public_key) opened))
                (λ x. raise unbound_local))
      go t h true = added t h (host.fails t.history (Event.add_model model_name t.public_key))
      go t h false = tt

  module _ (path : Text) (absolute : starts_with (codes "/") path ≡ true) where
    -- Back in the directory that was there before.
    back-IsAt : (n : ℕ) (s : State) → HasOpen n s → Ends (λ _. IsAt path n) (chdir host path s)
    unfolding chdir call_then
    back-IsAt n s h = go (host.fails s.history (Event.change_dir path))
      where
        go :
            (x : Option Exception)
            → Ends {A = Unit {0}}
                (λ _. IsAt path n)
                (
                  ends x tt,
                  recorded
                      (Event.change_dir path)
                      (changes x (λ s. record s { cwd = inside s.cwd path }) s),
                )
        go none = (rw absolute refl, h)
        go (some x) = tt

    module _ (holds : (h : List Event) → host.model_connected h ≡ true) where
      -- The model is closed, where it was connected.
      closed-HasOpen :
          (n : ℕ) (s : State)
          → HasOpen (n + 1) s
          → Ends (λ _. HasOpen n) (disconnect_connected host s)
      unfolding disconnect_connected disconnect_model call_then
      closed-HasOpen n s h = rw (holds s.history) (go (host.fails s.history Event.close_model))
        where
          go :
              (x : Option Exception)
              → Ends {A = Unit {0}}
                  (λ _. HasOpen n)
                  (ends x tt, recorded Event.close_model (changes x closed s))
          go none = omega (arith, h)
          go (some x) = tt

      conclude-Concluded :
          (cluster_uuid name : Text) (n : ℕ) (done : Bool) (s : State)
          → HasOpen (n + 1) s
          → Ends (Concluded path name n) (conclude host cluster_uuid path name done s)
      unfolding conclude
      conclude-Concluded cluster_uuid name n false s h =
          then_Ends {P = IsAt path (n + 1)} (Concluded path name n) (chdir host path s) _
            (back-IsAt (n + 1) s h)
            λ _ t k. Keeps-Ends (Concluded path name n) _ (reset_keeps (n + 1)) t k (λ _ u l. l)
        where
          reset_keeps : (n : ℕ) → Keeps (IsAt path n) (reset host cluster_uuid)
          reset_keeps n =
              reset-Keeps (IsAt-IsPlain path n).frame host (login-Keeps (IsAt-IsPlain path n) host)
                (logout-Keeps (IsAt-IsPlain path n) host) cluster_uuid
      conclude-Concluded cluster_uuid name n true s h =
          then_Ends {P = HasOpen n} (Concluded path name n) (disconnect_connected host s) _
            (closed-HasOpen n s h)
            λ _ t k.
              then_Ends {P = IsAt path n} (Concluded path name n) (chdir host path t) _
                (back-IsAt n t k) (λ _ u l. (l.0, l.1, refl))

  abbrev directory : State → Text
  directory s = if host.in_place s.history then s.cwd else codes "/app/storage"

  -- The directory is asked for before the bundle changes it.
  deployed-Concluded :
      (cluster_uuid name kdu_model : Text) (n : ℕ) (atomic : Bool) (s : State)
      (absolute : starts_with (codes "/") (directory s) ≡ true)
      (holds : (h : List Event) → host.model_connected h ≡ true)
      → HasOpen (n + 1) s
      → Ends
          (Concluded (directory s) name n)
          (deploy_bundle host cluster_uuid name kdu_model atomic s)
  unfolding deploy_bundle
  deployed-Concluded cluster_uuid name kdu_model n atomic s absolute holds h =
      Keeps-Ends Q _ (find_bundle-Keeps frame (λ x s h. h) host kdu_model) s h λ bundle t k.
        Keeps-Ends Q _ (call-Keeps frame host (Event.deploy bundle)) t k λ _ u l.
          Keeps-Ends Q _ (wait_settled-Keeps frame (λ x s h. h) host atomic) u l
            (conclude-Concluded (directory s) absolute holds cluster_uuid name n)
    where
      Q : Option Text → State → Type 0
      Q = Concluded (directory s) name n

      frame : IsFrame (HasOpen (n + 1))
      frame = HasOpen-IsFrame (n + 1)

-- Where `install` returns, the working directory is the one before; the result is the name of the
-- instance, and the new model is closed again, or, after a timeout, it is False and the model stays open:
-- if the directory was absolute and exists, and a model is connected until it is disconnected.
pub install-Left :
    (host : Host) (cluster_uuid kdu_model : Text) (atomic : Bool)
    (filter_id : Result Exception Text) (kdu_name : Option Text) (s : State)
    (stays : (h : List Event) → host.in_place h ≡ true)
    (holds : (h : List Event) → host.model_connected h ≡ true)
    (absolute : starts_with (codes "/") s.cwd ≡ true)
    → Ends
        (Left filter_id kdu_name s)
        (install host cluster_uuid kdu_model atomic filter_id kdu_name s)
unfolding install
install-Left host cluster_uuid kdu_model atomic filter_id kdu_name s stays holds absolute =
    Keeps-Ends Q _ (login-Keeps (IsAt-IsPlain s.cwd s.open_models) host cluster_uuid) s (refl, refl)
      λ _ t h. go filter_id t h
  where
    Q : Option Text → State → Type 0
    Q = Left filter_id kdu_name s

    left :
        (id path : Text)
        → path ≡ s.cwd
        → (r : Result Exception (Option Text) × State)
        → Ends (Concluded path (instance_name kdu_name id) s.open_models) r
        → Ends (Left (ok id) kdu_name s) r
    left id path e (ok (some name), u) c = (c.0 ∙ e, c.1, ap some c.2)
    left id path e (ok none, u) c = (c.0 ∙ e, c.1)
    left id path e (err x, u) c = tt

    go :
        (id : Result Exception Text) (t : State)
        → IsAt s.cwd s.open_models t
        → Ends (Left id kdu_name s) (
            continue {A = Text}
              (id, t)
              (λ id.
                add_model host (instance_name kdu_name id) cluster_uuid
                >> deploy_bundle host cluster_uuid (instance_name kdu_name id) kdu_model atomic))
    go (ok id) t h =
        then_Ends {P = IsAt s.cwd (s.open_models + 1)} (Left (ok id) kdu_name s)
          (add_model host (instance_name kdu_name id) cluster_uuid t) _
          (added-IsAt host (instance_name kdu_name id) cluster_uuid s.cwd s.open_models t h)
          λ _ u k.
            let e : directory host u ≡ s.cwd = rw (stays u.history) k.0 in
            left id (directory host u) e
              (deploy_bundle host cluster_uuid (instance_name kdu_name id) kdu_model atomic u)
              (deployed-Concluded host cluster_uuid (instance_name kdu_name id) kdu_model
                s.open_models atomic u (rw e absolute) holds k.1)
    go (err x) t h = tt
