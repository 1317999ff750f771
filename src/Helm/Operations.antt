-- ===== src/Helm/Operations.antt =====
-- The steps of n2vc/k8s_helm_conn.py on releases: `uninstall`, `instances_list`, `get_instance_info`,
-- `_status_kdu` and `_store_status`.
use n2vc.Prelude.{ℕ, zero, suc, Bool, true, false, Option, none, some, List, [], ◌∷◌, if◌then◌else◌}
use n2vc.Prelude.Exec.{Result, pure, raise, ◌>>=◌, ◌>>◌, ◌catch◌}
use n2vc.Exception.{Exception, type_error}
use n2vc.Text.{Text, codes, format, text_eq, Unicode}
use n2vc.Database.{DbDict, Call}
use n2vc.Database.K8s.{write_app_status_to_db}
use n2vc.Helm.Output.{get_namespace_cluster_id, output_to_table}
use n2vc.Helm.Host.{Event, Release, Host, State, Op, call, local_async_exec, get_paths}

abbrev pub with_calls :
    {A : Type 0} → Result Exception A × List Call → State → Result Exception A × State
with_calls (r, c) s = (r, record s { calls = c })

abbrev pub or_raise : {A : Type 0} → Exception → Option A → Op A
or_raise x none = raise x
or_raise x (some a) = pure a

module _ ⦃u : Unicode⦄ (host : Host) where
  -- The description and the whole of `helm status`; it raises where the command fails, and where the
  -- output is not what is expected.
  unfoldable pub status_kdu : Text → Text → Op (Text × Text)
  unfolding get_paths local_async_exec format
  status_kdu cluster_id kdu_instance = do
    paths ← get_paths host cluster_id true
    (output, success) ←
        local_async_exec host
          (format (
            host.helm_command
            ∷ codes " --kubeconfig="
            ∷ paths.config_filename
            ∷ codes " --home="
            ∷ paths.helm_dir
            ∷ codes " status "
            ∷ kdu_instance
            ∷ codes " --output yaml"
            ∷ []))
          true
    λ s. (host.status_of output, s)

  unfoldable pub write_status : Option DbDict → Text → Text → Text → Op Bool
  unfolding write_app_status_to_db
  write_status db_dict status detailed_status operation s =
      with_calls
        (write_app_status_to_db host.answers host.has_db host.has_callback db_dict status
          detailed_status operation host.now s.calls)
        s

  -- `except CancelledError: return`, `except Exception: pass`
  unfoldable pub go_on : Exception → Op Bool
  go_on Exception.cancelled = pure false
  go_on x = pure true

  -- One round of `_store_status`: whether there is another.
  unfoldable pub store_status : Text → Text → Option DbDict → Text → Op Bool
  unfolding call status_kdu write_status go_on
  store_status cluster_id kdu_instance db_dict operation =
      (do
        call host Event.sleep
        (status, detailed_status) ← status_kdu cluster_id kdu_instance
        write_status db_dict status detailed_status operation)
      catch go_on

  -- The rounds beside a command.
  unfoldable pub store_rounds : ℕ → Text → Text → Option DbDict → Text → Op (Unit {0})
  unfolding store_status
  store_rounds zero cluster_id kdu_instance db_dict operation = pure tt
  store_rounds (suc n) cluster_id kdu_instance db_dict operation =
      let rest = store_rounds n cluster_id kdu_instance db_dict operation in
      do
        more ← store_status cluster_id kdu_instance db_dict operation
        (if more then rest else pure tt)

  unfoldable pub instances_list : Text → Op (Option (List Release))
  unfolding get_namespace_cluster_id get_paths local_async_exec format
  instances_list cluster_uuid = do
    paths ← get_paths host (get_namespace_cluster_id cluster_uuid).1 true
    (output, success) ←
        local_async_exec host
          (format (
            host.helm_command
            ∷ codes " --kubeconfig="
            ∷ paths.config_filename
            ∷ codes " --home="
            ∷ paths.helm_dir
            ∷ codes " list --output yaml"
            ∷ []))
          true
    pure (elim output [ [] ↦ some [] | c ∷ text ↦ host.releases_of (c ∷ text) ])

  abbrev pub with_name : Text → List Release → Option Release
  with_name name [] = none
  with_name name (r ∷ rs) = if text_eq r.name name then some r else with_name name rs

  -- The loop over None is a TypeError.
  unfoldable pub get_instance_info : Text → Text → Op (Option Release)
  unfolding instances_list text_eq
  get_instance_info cluster_uuid kdu_instance = do
    listed ← instances_list cluster_uuid
    instances ← or_raise type_error listed
    pure (with_name kdu_instance instances)

  -- int(instance.get("Revision")), or 0
  abbrev pub revision_of : Option Release → ℕ
  revision_of none = 0
  revision_of (some r) = r.revision

  unfoldable pub uninstall : Text → Text → Op (List (List Text))
  unfolding get_namespace_cluster_id get_paths local_async_exec format output_to_table
  uninstall cluster_uuid kdu_instance = do
    paths ← get_paths host (get_namespace_cluster_id cluster_uuid).1 true
    (output, success) ←
        local_async_exec host
          (format (
            host.helm_command
            ∷ codes " --kubeconfig="
            ∷ paths.config_filename
            ∷ codes " --home="
            ∷ paths.helm_dir
            ∷ codes " delete --purge "
            ∷ kdu_instance
            ∷ []))
          true
    pure (output_to_table output)

  -- `if file_to_delete: os.remove(file_to_delete)`
  abbrev pub remove_temporary : Option Text → Op (Unit {0})
  remove_temporary none = pure tt
  remove_temporary (some file) = call host (Event.remove_file file)
