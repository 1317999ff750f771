-- ===== src/Helm/Host.antt =====
-- The commands and directories of n2vc/k8s_helm_conn.py: `_local_async_exec`, `_get_paths`,
-- `_params_to_file_option` and the commands that stand alone. The operating system answers each call
-- as a `Host` says.
pub mod Directories
use n2vc.Prelude.{
  ℕ, Bool, true, false, ◌&&◌, not, ◌||◌, ◌==◌, Option, none, some, List, [], ◌∷◌, ◌++◌,
  if◌then◌else◌,
}
use n2vc.Prelude.Exec.{Exec, Result, ok, err, pure, raise, ◌>>=◌, ◌>>◌, ◌catch◌}
use n2vc.Exception.{Exception, cancelled, k8s}
use n2vc.Text.{Text, codes, format, Unicode}
use n2vc.Database.{Answers, Call}
use n2vc.Helm.Output.{argv, get_namespace_cluster_id}
use n2vc.Helm.Release.{rjust}

-- A call of the operating system: a program with its arguments, and changes of the file system.
pub data Event : Type 0 where
  run : List Text → Event
  make_dir write_file remove_file remove_tree : Text → Event
  sleep : Event

-- A release, as `helm list` has it.
pub record Release : Type 0 where
  pub name : Text
  pub revision : ℕ

-- How the calls end after those before: the exception, if any; what a program that ran has written,
-- and whether its return code is 0; and whether a path exists. Random numbers, and the parts of the
-- yaml texts that are read: the description and the whole of `helm status`, or the exception where it
-- has none; the releases of `helm list`.
pub record Host : Type 0 where
  pub fails : List Event → Event → Option Exception
  pub output : List Event → List Text → Text × Bool
  pub exists : List Event → Text → Bool
  pub random : List Event → Text
  pub status_of : Text → Result Exception (Text × Text)
  pub releases_of : Text → Option (List Release)
  -- the rounds of `_store_status` before a command ends
  pub rounds : List Event → ℕ
  -- attributes of the object, with the database of the class K8sConnector
  pub fs_path : Text
  pub kubectl_command : Text
  pub helm_command : Text
  pub service_account : Text
  pub has_db : Bool
  pub has_callback : Bool
  pub answers : Answers
  -- str(time.time())
  pub now : Text

pub record State : Type 0 where
  pub history : List Event
  pub calls : List Call

abbrev pub Op : Type 0 → Type 0
Op A = Exec Exception State A

pub record Paths : Type 0 where
  pub kube_dir : Text
  pub helm_dir : Text
  pub config_filename : Text
  pub cluster_dir : Text

abbrev pub recorded : Event → State → State
recorded e s = record s { history = s.history ++ e ∷ [] }

-- The exception replaces the value.
abbrev pub ends : {A : Type 0} → Option Exception → A → Result Exception A
ends none a = ok a
ends (some x) a = err x

-- base[:-1], if it ends in a slash or a backslash
unfoldable pub base_of : Text → Text
base_of [] = []
base_of (c ∷ []) = if c == b'/' || c == b'\\' then [] else c ∷ []
base_of (c ∷ d ∷ s) = c ∷ base_of (d ∷ s)

module _ (host : Host) where
  unfoldable pub call : Event → Op (Unit {0})
  call e s = (ends (host.fails s.history e) tt, recorded e s)

  unfoldable pub exists : Text → Op Bool
  exists path s = (ok (host.exists s.history path), s)

  unfoldable pub random : Op Text
  random s = (ok (host.random s.history), s)

  -- What the program has written, and whether its return code is 0.
  abbrev pub finished : Bool → Text × Bool → Result Exception (Text × Bool)
  finished strict (output, zero) = if strict && not zero then err k8s else ok (output, zero)

  -- The program could not run; without `raise_exception_on_error` the result is "" and -1.
  abbrev pub not_run : Bool → Exception → Result Exception (Text × Bool)
  not_run strict Exception.cancelled = err cancelled
  not_run strict Exception.k8s = err k8s
  not_run strict x = if strict then err k8s else ok ([], false)

  abbrev pub run_result : Bool → Option Exception → Text × Bool → Result Exception (Text × Bool)
  run_result strict none r = finished strict r
  run_result strict (some x) r = not_run strict x

  -- `strict` is `raise_exception_on_error`.
  unfoldable pub local_async_exec : ⦃u : Unicode⦄ → Text → Bool → Op (Text × Bool)
  unfolding argv
  local_async_exec command strict s = (
    run_result strict (host.fails s.history (run (argv command)))
        (host.output s.history (argv command)),
    recorded (run (argv command)) s,
  )

  -- One directory: it is made if it has to be, and then it has to be there.
  unfoldable pub ensure_dir : Text → Bool → Op (Unit {0})
  unfolding call exists
  ensure_dir dir create_if_not_exist = do
    there ← exists dir
    (if create_if_not_exist && not there then call (make_dir dir) else pure tt)
    there' ← exists dir
    (if there' then pure tt else raise k8s)

  unfoldable pub paths_of : Text → Paths
  unfolding base_of
  paths_of cluster_name =
      let cluster_dir = base_of host.fs_path ++ codes "/" ++ cluster_name in
      record {
        kube_dir = cluster_dir ++ codes "/.kube";
        helm_dir = cluster_dir ++ codes "/.helm";
        config_filename = cluster_dir ++ codes "/.kube/config";
        cluster_dir = cluster_dir;
      }

  unfoldable pub get_paths : Text → Bool → Op Paths
  unfolding ensure_dir paths_of
  get_paths cluster_name create_if_not_exist = do
    ensure_dir (paths_of cluster_name).cluster_dir create_if_not_exist
    ensure_dir (paths_of cluster_name).kube_dir create_if_not_exist
    ensure_dir (paths_of cluster_name).helm_dir create_if_not_exist
    pure (paths_of cluster_name)

  -- "-f" and the file that the parameters were written to; nothing if there are none. What yaml makes of
  -- the parameters is not modelled.
  unfoldable pub params_to_file_option : Text → Bool → Op (Text × Option Text)
  unfolding get_paths random call
  params_to_file_option cluster_id false = pure ([], none)
  params_to_file_option cluster_id true = do
    get_paths cluster_id true
    r ← random
    (let values_file = rjust r ++ codes ".yaml" in
        do call (write_file values_file); pure (codes "-f " ++ values_file, some values_file))
