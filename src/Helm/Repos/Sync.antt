-- ===== src/Helm/Repos/Sync.antt =====
-- What `synchronize_repos` does: the removals first, then the additions.
use n2vc.Prelude.{
  none, Bool, true, false, not, keep, ◌≢◌, ◌⊎◌, ◌=ₛ◌, eq_iff, Bool-cases, refl, arith, inl, inr,
  Option-cases, String, ◌≡◌, ◌∙◌, List, [], ◌∷◌, ◌++◌, map, Option, some, append_assoc, append-nil,
}
use n2vc.Prelude.Dict
use n2vc.Prelude.Dict.{Dict}
use n2vc.Prelude.Exec.{ok, err, raise, ◌catch◌}
use n2vc.Exception.{Exception}
use n2vc.Helm.Repos.{
  Command, repo_remove, repo_add, Cluster, Helm, repos_to_add, repos_to_delete, member,
  is_added_name, run, delete_repos, add_repo, add_repos, synchronize, synchronize_repos,
}

-- The removal of each repository, and the addition of each by its entry.
abbrev pub removal : String × String → Command
removal (repo_id, name) = repo_remove name

abbrev pub addition : (String → String × String) → String → Command
addition entry repo_id = repo_add (entry repo_id).0 (entry repo_id).1

abbrev pub id_of : String × String → String
id_of (repo_id, name) = repo_id

-- Some entries of a list, in its order: those with the property, and no others.
pub data Selected {A : Type 0} (P : A → Type 0) : List A → List A → Type 0 where
  none_left : Selected P [] []
  taken : (a : A) (xs ys : List A) → P a → Selected P xs ys → Selected P (a ∷ xs) (a ∷ ys)
  passed : (a : A) (xs ys : List A) → ¬ P a → Selected P xs ys → Selected P (a ∷ xs) ys

abbrev pub Listed : String → List String → Type 0
Listed r [] = ⊥
Listed r (s ∷ ss) = (r ≡ s) ⊎ Listed r ss

-- A repository that was added and that the database does not list any more.
abbrev pub IsUnlisted : Cluster → String × String → Type 0
IsUnlisted k (repo_id, name) = ¬ Listed repo_id k.helm_chart_repos

-- A repository without a name that is not empty.
abbrev pub IsMissing : Cluster → String → Type 0
IsMissing k repo_id =
    ¬ ((name : String) × (Dict.get repo_id k.helm_charts_added ≡ some name) × (name ≢ ""))

keep-Selected :
    {A : Type 0} (P : A → Type 0) (test : A → Bool)
    → ((a : A) → test a ≡ true → P a)
    → ((a : A) → test a ≡ false → ¬ P a)
    → (xs : List A) → Selected P xs (keep test xs)
keep-Selected P test holds fails [] = none_left
keep-Selected P test holds fails (a ∷ xs) = elim (Bool-cases (test a)) [
  | inl e ↦ rw e (taken a xs (keep test xs) (holds a e) (keep-Selected P test holds fails xs))
  | inr e ↦ rw e (passed a xs (keep test xs) (fails a e) (keep-Selected P test holds fails xs))
]

Listed-member : (r : String) (ss : List String) → Listed r ss → member r ss ≡ true
Listed-member r [] h = absurd h
Listed-member r (s ∷ ss) (inl e) = ground (arith, e, eq_iff r s)
Listed-member r (s ∷ ss) (inr h) = ground (arith, Listed-member r ss h)

member-Listed : (r : String) (ss : List String) → member r ss ≡ true → Listed r ss
member-Listed r [] h = absurd (ground arith)
member-Listed r (s ∷ ss) h = elim (Bool-cases (r =ₛ s)) [
  | inl e ↦ inl ((eq_iff r s).0 e)
  | inr e ↦ inr (member-Listed r ss (ground arith))
]

repos_to_delete-Selected :
    (k : Cluster) → Selected (IsUnlisted k) k.helm_charts_added (repos_to_delete k)
unfolding repos_to_delete
repos_to_delete-Selected k =
    keep-Selected (IsUnlisted k) (λ p. not (member p.0 k.helm_chart_repos))
      (λ p e l. ground (arith, Listed-member p.0 k.helm_chart_repos l))
      (λ p e n. n (member-Listed p.0 k.helm_chart_repos (ground arith))) k.helm_charts_added

repos_to_add-Selected : (k : Cluster) → Selected (IsMissing k) k.helm_chart_repos (repos_to_add k)
unfolding repos_to_add
repos_to_add-Selected k =
    keep-Selected (IsMissing k) (λ r. not (is_added_name (Dict.get r k.helm_charts_added)))
      (λ r e (name, g, n). ground (arith, eq_iff name ""))
      (λ r e n. named (Dict.get r k.helm_charts_added) (ground arith) (λ name g d. n (name, g, d)))
      k.helm_chart_repos
  where
    named :
        (o : Option String)
        → is_added_name o ≡ true
        → ((name : String) → o ≡ some name → name ≢ "" → ⊥)
        → ⊥
    named none h k = ground arith
    named (some name) h k = k name refl (λ e. ground (arith, e, eq_iff name ""))

module _ (helm : Helm) where
  pub delete_repos_all :
      (d : Dict String) (commands : List Command)
      → delete_repos helm d commands ≡ (ok (map id_of d), commands ++ map removal d)
  unfolding delete_repos run
  delete_repos_all [] commands = rw append-nil
  delete_repos_all ((repo_id, name) ∷ rest) commands =
      elim (Option-cases (helm.fails commands (repo_remove name))) [
        | inl n ↦
            rw n (rw (delete_repos_all rest (commands ++ repo_remove name ∷ [])) (rw append_assoc))
        | inr (x, k) ↦
            rw k (rw (delete_repos_all rest (commands ++ repo_remove name ∷ [])) (rw append_assoc))
      ]

  add_repos_all :
      (rs : List String) (added : Dict String) (commands : List Command)
      (entry : String → String × String)
      → ((r : String) → helm.k8srepo r ≡ ok (entry r))
      → (added' : Dict String) × (add_repos helm rs added commands
          ≡ (ok added', commands ++ map (addition entry) rs))
  unfolding add_repos add_repo run
  add_repos_all [] added commands entry h = (added, rw append-nil)
  add_repos_all (r ∷ rs) added commands entry h =
      elim (Option-cases (helm.fails commands (addition entry r))) [
        | inl n ↦
            let (a, e) =
              add_repos_all rs (Dict.put r (entry r).0 added) (commands ++ addition entry r ∷ [])
                entry h in
            (a, rw (h r) (rw n (e ∙ rw append_assoc)))
        | inr (x, k) ↦
            let (a, e) = add_repos_all rs added (commands ++ addition entry r ∷ []) entry h in
            (a, rw (h r) (rw k (e ∙ rw append_assoc)))
      ]

  found_all :
      (k : Cluster) (entry : String → String × String) (commands : List Command)
      (c : Option Cluster)
      → c ≡ some k
      → ((r : String) → helm.k8srepo r ≡ ok (entry r))
      → (added : Dict String) × ((synchronize helm c catch λ e. raise Exception.k8s) commands ≡ (
        ok (map id_of (repos_to_delete k), added),
        (commands ++ map removal (repos_to_delete k)) ++ map (addition entry) (repos_to_add k),
      ))
  unfolding synchronize
  found_all k entry commands c there entries =
      let (added, e) =
        add_repos_all (repos_to_add k) [] (commands ++ map removal (repos_to_delete k)) entry
          entries in
      (added, rw there (rw (delete_repos_all (repos_to_delete k) commands) (rw e)))

  found_unread :
      (k : Cluster) (repo_id : String) (rest : List String) (x : Exception)
      (commands : List Command) (c : Option Cluster)
      → c ≡ some k
      → repos_to_add k ≡ repo_id ∷ rest
      → helm.k8srepo repo_id ≡ err x
      → (synchronize helm c catch λ e. raise Exception.k8s) commands
        ≡ (err Exception.k8s, commands ++ map removal (repos_to_delete k))
  unfolding synchronize add_repos
  found_unread k repo_id rest x commands c there first unread =
      rw there (rw (delete_repos_all (repos_to_delete k) commands) (rw first (rw unread)))

  -- Where every repository that is listed has an entry, those that were added and are not listed any
  -- more are removed, and then those listed that have no name yet, or an empty one, are added: no
  -- others, each in its order. A command that fails stops nothing. The identifiers of the removed ones
  -- are returned.
  pub synchronize_repos_lem :
      (k : Cluster) (entry : String → String × String) (commands : List Command)
      → helm.cluster ≡ some k
      → ((r : String) → helm.k8srepo r ≡ ok (entry r))
      → (unlisted added : Dict String) × (missing : List String) × Selected
          (IsUnlisted k)
          k.helm_charts_added
          unlisted
        × Selected (IsMissing k) k.helm_chart_repos missing
        × (synchronize_repos helm commands ≡ (
          ok (map id_of unlisted, added),
          (commands ++ map removal unlisted) ++ map (addition entry) missing,
        ))
  unfolding synchronize_repos
  synchronize_repos_lem k entry commands there entries =
      let (added, e) = found_all k entry commands helm.cluster there entries in
      (
        repos_to_delete k,
        added,
        repos_to_add k,
        repos_to_delete-Selected k,
        repos_to_add-Selected k,
        e,
      )

  -- If the entry of the first missing repository cannot be read, the synchronization ends in
  -- K8sException: the removals are made, nothing is added, and what was removed is not returned.
  synchronize_repos_unread :
      (k : Cluster) (repo_id : String) (rest : List String) (x : Exception)
      (commands : List Command)
      → helm.cluster ≡ some k
      → repos_to_add k ≡ repo_id ∷ rest
      → helm.k8srepo repo_id ≡ err x
      → synchronize_repos helm commands
        ≡ (err Exception.k8s, commands ++ map removal (repos_to_delete k))
  unfolding synchronize_repos
  synchronize_repos_unread k repo_id rest x commands there first unread =
      found_unread k repo_id rest x commands helm.cluster there first unread
