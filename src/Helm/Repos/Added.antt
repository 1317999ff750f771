-- ===== src/Helm/Repos/Added.antt =====
-- What `synchronize_repos` returns as added, if every command succeeds.
use n2vc.Prelude.{
  String, ◌≡◌, refl, List, [], ◌∷◌, ◌++◌, map, Option, none, some, if◌then◌else◌, eq_iff, arith,
  append-nil, append_assoc, ◌∙◌,
}
use n2vc.Prelude.Dict
use n2vc.Prelude.Dict.{Dict, get-put}
use n2vc.Prelude.Exec.{ok, raise, ◌catch◌}
use n2vc.Exception.{Exception}
use n2vc.Helm.Repos.{
  Command, Cluster, Helm, member, repos_to_add, repos_to_delete, run, add_repo, add_repos,
  synchronize, synchronize_repos,
}
use n2vc.Helm.Repos.Sync.{removal, addition, id_of, delete_repos_all}

abbrev added_by : (String → String × String) → List String → Dict String → Dict String
added_by entry [] added = added
added_by entry (r ∷ rs) added = added_by entry rs (Dict.put r (entry r).0 added)

get-added_by :
    (entry : String → String × String) (rs : List String) (added : Dict String) (j : String)
    → Dict.get j (added_by entry rs added)
      ≡ (if member j rs then some (entry j).0 else Dict.get j added)
get-added_by entry [] added j = refl
get-added_by entry (r ∷ rs) added j = ground (
  arith,
  get-added_by entry rs (Dict.put r (entry r).0 added) j,
  get-put r j (entry r).0 added,
  eq_iff r j,
  eq_iff j r,
)

module _ (helm : Helm) (entry : String → String × String)
    (works : (h : List Command) (c : Command) → helm.fails h c ≡ none)
    (entries : (r : String) → helm.k8srepo r ≡ ok (entry r)) where
  add_repos_added :
      (rs : List String) (added : Dict String) (commands : List Command)
      → add_repos helm rs added commands
        ≡ (ok (added_by entry rs added), commands ++ map (addition entry) rs)
  unfolding add_repos add_repo run
  add_repos_added [] added commands = rw append-nil
  add_repos_added (r ∷ rs) added commands = rw (entries r) (
      rw (works commands (addition entry r)) (
        add_repos_added rs (Dict.put r (entry r).0 added) (commands ++ addition entry r ∷ [])
        ∙ rw append_assoc))

  found_added :
      (k : Cluster) (commands : List Command) (c : Option Cluster)
      → c ≡ some k
      → ((synchronize helm c catch λ e. raise Exception.k8s) commands).0
        ≡ ok (map id_of (repos_to_delete k), added_by entry (repos_to_add k) [])
  unfolding synchronize
  found_added k commands c there = rw there (
      rw (delete_repos_all helm (repos_to_delete k) commands)
        (rw (add_repos_added (repos_to_add k) [] (commands ++ map removal (repos_to_delete k)))))

  -- If every command succeeds and every listed repository has an entry, the result names exactly the
  -- missing repositories as added, each with the name in its entry.
  synchronize_repos_added :
      (k : Cluster) (commands : List Command)
      → helm.cluster ≡ some k
      → (added : Dict String) × ((synchronize_repos helm commands).0
          ≡ ok (map id_of (repos_to_delete k), added))
        × ((j : String)
            → Dict.get j added ≡ (if member j (repos_to_add k) then some (entry j).0 else none))
  unfolding synchronize_repos Dict.get
  synchronize_repos_added k commands there = (
    added_by entry (repos_to_add k) [],
    found_added k commands helm.cluster there,
    get-added_by entry (repos_to_add k) [],
  )
