-- ===== src/Helm/Environment/Guarded.antt =====
-- Resets of a cluster that has releases, in n2vc/k8s_helm_conn.py.
use n2vc.Prelude.{
  ◌≡◌, refl, ap, ◌∙◌, Bool, true, false, Option, none, some, List, [], ◌∷◌, ◌++◌, if◌then◌else◌,
}
use n2vc.Prelude.Exec.{Result, ok, err, pure, continue, handled, ◌>>◌, ◌catch◌}
use n2vc.Exception.{Exception, k8s}
use n2vc.Text.{Text, codes, Unicode}
use n2vc.Helm.Output.{get_namespace_cluster_id}
use n2vc.Helm.Host.{Event, Release, Host, State, Op, Paths, call, get_paths, recorded, ends}
use n2vc.Helm.Operations.{instances_list, uninstall}
use n2vc.Helm.Environment.{uninstall_all, clear_releases, uninstall_tiller, reset}

-- Releases stand against a reset without force.
abbrev pub is_blocked : Bool → List Release → Bool
is_blocked true releases = false
is_blocked false [] = false
is_blocked false (r ∷ rs) = true

module _ ⦃u : Unicode⦄ (host : Host) where
  -- One uninstallation after the other, whatever becomes of each: the states between.
  pub data Uninstalled (cluster_uuid : Text) : List Release → State → State → Type 0 where
    none_left : (s : State) → Uninstalled cluster_uuid [] s s
    next :
        (r : Release) (rs : List Release) (s t : State)
        → Uninstalled cluster_uuid rs (uninstall host cluster_uuid r.name s).1 t
        → Uninstalled cluster_uuid (r ∷ rs) s t

  -- The loop takes these steps, and ends without an exception.
  uninstall_all-Uninstalled :
      (cluster_uuid : Text) (releases : List Release) (s : State)
      → (t : State) × Uninstalled cluster_uuid releases s t
        × (uninstall_all host cluster_uuid releases s ≡ (ok tt, t))
  unfolding uninstall_all
  uninstall_all-Uninstalled cluster_uuid [] s = (s, none_left s, refl)
  uninstall_all-Uninstalled cluster_uuid (r ∷ rs) s =
      let (t, u, e) =
        uninstall_all-Uninstalled cluster_uuid rs (uninstall host cluster_uuid r.name s).1 in
      (t, next r rs s t u, go t (uninstall host cluster_uuid r.name s) e)
    where
      loop : Result Exception (List (List Text)) × State → Result Exception (Unit {0}) × State
      loop o =
          continue (handled (continue o (λ l. pure tt)) (λ e. pure tt))
            (λ _. uninstall_all host cluster_uuid rs)

      go :
          (t : State) (o : Result Exception (List (List Text)) × State)
          → uninstall_all host cluster_uuid rs o.1 ≡ (ok tt, t)
          → loop o ≡ (ok tt, t)
      go t (ok l, v) k = k
      go t (err e, v) k = k

  abbrev pub removed : Text → State → State
  removed cluster_id s = recorded (Event.remove_tree (host.fs_path ++ codes "/" ++ cluster_id)) s

  remove_directory :
      (cluster_id : Text) (s : State)
      → ((call host (Event.remove_tree (host.fs_path ++ codes "/" ++ cluster_id)) catch λ e.
              pure tt)
            >> pure true)
          s
        ≡ (ok true, removed cluster_id s)
  unfolding call
  remove_directory cluster_id s =
      go (host.fails s.history (Event.remove_tree (host.fs_path ++ codes "/" ++ cluster_id)))
    where
      go :
          (x : Option Exception)
          → continue
              (handled {A = Unit {0}} (ends x tt, removed cluster_id s) (λ e. pure tt))
              (λ _. pure true)
            ≡ (ok true, removed cluster_id s)
      go none = refl
      go (some x) = refl

  -- What is done once the releases are listed.
  abbrev cleared_then : Text → Bool → List Release → Op Bool
  cleared_then cluster_uuid force releases = do
    clear_releases host cluster_uuid force releases
    (call host (
          Event.remove_tree
            (host.fs_path ++ codes "/" ++ (get_namespace_cluster_id cluster_uuid).1))
        catch λ e. pure tt)
    pure true

  cleared :
      (cluster_uuid : Text) (force : Bool) (releases : List Release) (v w : State)
      → uninstall_all host cluster_uuid releases v ≡ (ok tt, w)
      → cleared_then cluster_uuid force releases v ≡ (
          if is_blocked force releases
          then (err k8s, v)
          else (ok true, removed (get_namespace_cluster_id cluster_uuid).1 w))
  unfolding clear_releases uninstall_all
  cleared cluster_uuid true [] v w e =
      remove_directory (get_namespace_cluster_id cluster_uuid).1 v
      ∙ ap (λ x. (ok true, removed (get_namespace_cluster_id cluster_uuid).1 x)) (ap (λ r. r.1) e)
  cleared cluster_uuid false [] v w e =
      remove_directory (get_namespace_cluster_id cluster_uuid).1 v
      ∙ ap (λ x. (ok true, removed (get_namespace_cluster_id cluster_uuid).1 x)) (ap (λ r. r.1) e)
  cleared cluster_uuid true (r ∷ rs) v w e =
      rw e (remove_directory (get_namespace_cluster_id cluster_uuid).1 w)
  cleared cluster_uuid false (r ∷ rs) v w e = refl

  module _ (cluster_uuid : Text) (paths : Paths) (releases : List Release) (s t v : State) where
    -- Once the releases of a cluster are listed, a reset that leaves tiller goes on in one way: where
    -- there are releases and no force, it raises K8sException and does nothing more; else each
    -- release is uninstalled, one after the other, whatever becomes of each, the directory of the
    -- cluster is removed last, and reset returns True.
    pub reset_guarded :
        (force : Bool)
        → get_paths host (get_namespace_cluster_id cluster_uuid).1 false s ≡ (ok paths, t)
        → instances_list host cluster_uuid t ≡ (ok (some releases), v)
        → (w : State) × Uninstalled cluster_uuid releases v w
          × (reset host cluster_uuid force false s ≡ (
              if is_blocked force releases
              then (err k8s, v)
              else (ok true, removed (get_namespace_cluster_id cluster_uuid).1 w)))
    unfolding reset uninstall_tiller
    reset_guarded force h₁ h₂ =
        let (w, u, e) = uninstall_all-Uninstalled cluster_uuid releases v in
        (w, u, rw h₁ (rw h₂ (cleared cluster_uuid force releases v w e)))
