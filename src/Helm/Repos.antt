-- ===== src/Helm/Repos.antt =====
-- `synchronize_repos` of n2vc/k8s_helm_conn.py: the repositories of a cluster are made those that the
-- database lists. The database and the runs of helm are a parameter.
pub mod Sync
pub mod Added
use n2vc.Prelude.{
  String, Bool, true, false, not, List, [], ◌∷◌, ◌++◌, map, Option, none, some, keep, ◌=ₛ◌,
  if◌then◌else◌,
}
use n2vc.Prelude.Dict
use n2vc.Prelude.Dict.{Dict}
use n2vc.Prelude.Exec.{Exec, Result, ok, err, pure, raise, ◌>>=◌, ◌>>◌, ◌catch◌}
use n2vc.Exception.{Exception}
use n2vc.Database.{item}

-- What the code does to the cluster: `repo_remove` by name, `repo_add` by name and URL.
pub data Command : Type 0 where
  repo_remove : String → Command
  repo_add : String → String → Command

-- The entry of a cluster: `helm_chart_repos`, and `helm_charts_added` with the names of the
-- repositories by their ids; [] where they are absent.
pub record Cluster : Type 0 where
  pub helm_chart_repos : List String
  pub helm_charts_added : Dict String

-- The entry of the cluster, if there is one; the name and the URL of a repository, or the exception
-- in which reading them ends; and how a command ends, after the commands before.
pub record Helm : Type 0 where
  pub cluster : Option Cluster
  pub k8srepo : String → Result Exception (String × String)
  pub fails : List Command → Command → Option Exception

abbrev ended_by : Option Exception → Result Exception (Unit {0})
ended_by none = ok tt
ended_by (some e) = err e

-- repo in repos
abbrev pub member : String → List String → Bool
member r [] = false
member r (s ∷ ss) = if r =ₛ s then true else member r ss

-- `cluster_repo_dict.get(repo)`, as a truth value: an empty name is false.
abbrev pub is_added_name : Option String → Bool
is_added_name none = false
is_added_name (some name) = not (name =ₛ "")

unfoldable pub repos_to_add : Cluster → List String
repos_to_add k = keep (λ r. not (is_added_name (Dict.get r k.helm_charts_added))) k.helm_chart_repos

-- the keys, with the names that they have
unfoldable pub repos_to_delete : Cluster → Dict String
repos_to_delete k = keep (λ p. not (member p.0 k.helm_chart_repos)) k.helm_charts_added

module _ (helm : Helm) where
  unfoldable pub run : Command → Exec Exception (List Command) (Unit {0})
  run c commands = (ended_by (helm.fails commands c), commands ++ c ∷ [])

  -- A repository counts as deleted if the command failed, too.
  unfoldable pub delete_repos : Dict String → Exec Exception (List Command) (List String)
  unfolding run
  delete_repos [] = pure []
  delete_repos ((repo_id, name) ∷ rest) = do
    run (repo_remove name) catch (λ e. pure tt)
    deleted ← delete_repos rest
    pure (repo_id ∷ deleted)

  -- One repository: it is in the result, if the command did not fail.
  unfoldable pub add_repo :
      String → String → String → Dict String → Exec Exception (List Command) (Dict String)
  unfolding run
  add_repo repo_id name url added =
      (do run (repo_add name url); pure (Dict.put repo_id name added)) catch (λ e. pure added)

  unfoldable pub add_repos : List String → Dict String → Exec Exception (List Command) (Dict String)
  unfolding add_repo
  add_repos [] added = pure added
  add_repos (repo_id ∷ rest) added = do
    (name, url) ← λ commands. (helm.k8srepo repo_id, commands)
    added' ← add_repo repo_id name url added
    add_repos rest added'

  -- the repositories that were deleted, and those that were added with their names
  unfoldable pub synchronize :
      Option Cluster → Exec Exception (List Command) (List String × Dict String)
  unfolding delete_repos add_repos repos_to_add repos_to_delete
  synchronize none = raise Exception.k8s
  synchronize (some k) = do
    deleted ← delete_repos (repos_to_delete k)
    added ← add_repos (repos_to_add k) []
    pure (deleted, added)

  unfoldable pub synchronize_repos : Exec Exception (List Command) (List String × Dict String)
  unfolding synchronize
  synchronize_repos = synchronize helm.cluster catch (λ e. raise Exception.k8s)
