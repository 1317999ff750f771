-- ===== src/Tests/Helm.antt =====
-- Commands, cluster ids and release names.
use n2vc.Prelude.{List, map, String, length, true, [], ◌≡◌, refl, ◌++◌, ◌∷◌, some, All, ◌≤◌, arith}
use n2vc.Text.{Text, codes, is_space, lower, is_alpha, is_numeric}
use n2vc.Text.Split.{split}
use n2vc.Text.Squeeze.{squeeze}
use n2vc.Naming.AppName.Valid.{is_allowed, StartsLower}
use n2vc.Helm.Output.{argv, strip}
use n2vc.Helm.Output.Words.{words, argv-eq-words}
use n2vc.Helm.Release.{embedded, generate_release_name}
use n2vc.Helm.Release.Valid.{IsRandom, generate_release_name-IsAllowed}
use n2vc.Prelude.Dict
use n2vc.Prelude.Dict.{Dict}
use n2vc.Prelude.Exec.{ok, err}
use n2vc.Exception.{Exception}
use n2vc.Helm.Repos.{repo_remove, repo_add, Cluster, Helm, synchronize_repos}
use n2vc.Helm.Repos.Sync.{
  Selected, IsUnlisted, IsMissing, removal, addition, id_of, synchronize_repos_lem,
}
use n2vc.Tests.Naming.{ascii}

helm_list : argv (codes " helm  list ") ≡ codes "helm" ∷ codes "list" ∷ []
unfolding argv split squeeze strip is_space
helm_list = refl

argv-eq-words_example : argv (codes " helm  list ") ≡ words (strip (codes " helm  list "))
unfolding strip is_space
argv-eq-words_example = argv-eq-words (codes " helm  list ") (λ e. ground arith)

abbrev chart : Text
chart = codes "stable/mq"

release : generate_release_name chart (codes "42") ≡ some (codes "stable-mq-0000000042")
unfolding generate_release_name lower is_alpha is_numeric
release = refl

digits-IsRandom : IsRandom (codes "42")
digits-IsRandom = record { digits = (refl, (refl, tt)); short = omega arith }

generate_release_name-IsAllowed_example :
    (r : Text) × (generate_release_name chart (codes "42") ≡ some r)
    × All (λ c. is_allowed c ≡ true) r
    × StartsLower r
    × (length r ≤ 47)
unfolding embedded
generate_release_name-IsAllowed_example =
    generate_release_name-IsAllowed chart (codes "42")
      (
        omega arith,
        (
          omega arith,
          (
            omega arith,
            (
              omega arith,
              (omega arith, (omega arith, (omega arith, (omega arith, (omega arith, tt))))),
            ),
          ),
        ),
      )
      digits-IsRandom (λ e. ground arith)

-- The cluster has an old repository and the one that stays; a new one is listed.
abbrev cluster : Cluster
cluster = record {
  helm_chart_repos = "r1" ∷ "r2" ∷ [];
  helm_charts_added = ("r0", "old") ∷ ("r1", "stable") ∷ [];
}

abbrev entry : String → String × String
entry r = ("osm", "http://osm")

-- Every command fails.
abbrev no_command : Helm
no_command = record {
  cluster = some cluster;
  k8srepo = λ r. ok (entry r);
  fails = λ h c. some Exception.k8s;
}

abbrev unread : Helm
unread = record no_command { k8srepo = λ r. err (Exception.db_exception true) }

synchronized :
    synchronize_repos no_command []
    ≡ (ok ("r0" ∷ [], []), repo_remove "old" ∷ repo_add "osm" "http://osm" ∷ [])
unfolding synchronize_repos Dict.get
synchronized = refl

synchronize_repos_lem_example :
    (unlisted added : Dict String) × (missing : List String) × Selected
      (IsUnlisted cluster)
      cluster.helm_charts_added
      unlisted
    × Selected (IsMissing cluster) cluster.helm_chart_repos missing
    × (synchronize_repos no_command [] ≡ (
      ok (map id_of unlisted, added),
      ([] ++ map removal unlisted) ++ map (addition entry) missing,
    ))
synchronize_repos_lem_example = synchronize_repos_lem no_command cluster entry [] refl (λ r. refl)
