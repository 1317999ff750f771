-- ===== src/Helm/Host/Directories.antt =====
-- The directories of a cluster, on a file system that keeps what is made.
use n2vc.Prelude.{◌≡◌, refl, true, false, none, List, [], ◌∷◌, ◌++◌, inl, inr, Bool-cases}
use n2vc.Prelude.Exec.{Result, ok, err, pure, continue, ◌>>◌}
use n2vc.Exception.{Exception}
use n2vc.Text.{Text}
use n2vc.Helm.Host.{Host, Paths, State, Event, call, exists, ensure_dir, paths_of, get_paths}

-- Directories can be made, and what exists stays, whatever is called.
pub record Keeps (host : Host) : Type 0 where
  pub makes : (h : List Event) (dir : Text) → host.fails h (Event.make_dir dir) ≡ none
  pub made : (h : List Event) (dir : Text) → host.exists (h ++ Event.make_dir dir ∷ []) dir ≡ true
  pub stays :
      (h : List Event) (dir path : Text)
      → host.exists h path ≡ true
      → host.exists (h ++ Event.make_dir dir ∷ []) path ≡ true

module _ (host : Host) where
  abbrev There : Text → State → Type 0
  There path s = host.exists s.history path ≡ true

  -- The directory is there afterwards, with all that was.
  abbrev Ensured : Text → State → Result Exception (Unit {0}) × State → Type 0
  Ensured dir s (ok a, t) = There dir t × ((path : Text) → There path s → There path t)
  Ensured dir s (err x, t) = ⊥

  abbrev pub Found : Text → Result Exception Paths × State → Type 0
  Found cluster_name (ok p, t) =
      (p ≡ paths_of host cluster_name) × (get_paths host cluster_name false t ≡ (ok p, t))
  Found cluster_name (err x, t) = ⊥

module _ (host : Host) (keeps : Keeps host) where
  ensure_dir-Ensured : (dir : Text) (s : State) → Ensured host dir s (ensure_dir host dir true s)
  unfolding ensure_dir exists call
  ensure_dir-Ensured dir s = elim (Bool-cases (host.exists s.history dir)) [
    | inl there ↦ rw there (rw there (there, λ path h. h))
    | inr absent ↦ rw absent (
        rw (keeps.makes s.history dir) (
          rw (keeps.made s.history dir)
            (keeps.made s.history dir, λ path h. keeps.stays s.history dir path h)))
  ]

  ensured_again :
      (dir : Text) (s : State) → There host dir s → ensure_dir host dir false s ≡ (ok tt, s)
  unfolding ensure_dir exists
  ensured_again dir s h = rw h refl

  -- With `create_if_not_exist` the directories of a cluster are found, and from then on they are found
  -- without it, where directories can be made and stay.
  get_paths-Found :
      (cluster_name : Text) (s : State)
      → Found host cluster_name (get_paths host cluster_name true s)
  unfolding get_paths
  get_paths-Found cluster_name s =
      first (ensure_dir host p.cluster_dir true s) (ensure_dir-Ensured p.cluster_dir s)
    where
      p : Paths
      p = paths_of host cluster_name

      again :
          (t : State)
          → There host p.cluster_dir t
          → There host p.kube_dir t
          → There host p.helm_dir t
          → get_paths host cluster_name false t ≡ (ok p, t)
      again t h k l =
          rw (ensured_again p.cluster_dir t h)
            (rw (ensured_again p.kube_dir t k) (rw (ensured_again p.helm_dir t l) refl))

      third :
          (t : State) (r : Result Exception (Unit {0}) × State)
          → Ensured host p.helm_dir t r
          → There host p.cluster_dir t
          → There host p.kube_dir t
          → Found host cluster_name (continue r (λ _. pure p))
      third t (ok a, u) (l, stay) h k = (refl, again u (stay p.cluster_dir h) (stay p.kube_dir k) l)
      third t (err x, u) e h k = absurd e

      second :
          (t : State) (r : Result Exception (Unit {0}) × State)
          → Ensured host p.kube_dir t r
          → There host p.cluster_dir t
          → Found host cluster_name (continue r (λ _. ensure_dir host p.helm_dir true >> pure p))
      second t (ok a, u) (k, stay) h =
          third u (ensure_dir host p.helm_dir true u) (ensure_dir-Ensured p.helm_dir u)
            (stay p.cluster_dir h) k
      second t (err x, u) e h = absurd e

      first :
          (r : Result Exception (Unit {0}) × State)
          → Ensured host p.cluster_dir s r
          → Found host cluster_name (
              continue r (λ _.
                ensure_dir host p.kube_dir true >> (ensure_dir host p.helm_dir true >> pure p)))
      first (ok a, t) (h, stay) =
          second t (ensure_dir host p.kube_dir true t) (ensure_dir-Ensured p.kube_dir t) h
      first (err x, t) e = absurd e
