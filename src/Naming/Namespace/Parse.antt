-- ===== src/Naming/Namespace/Parse.antt =====
-- Namespaces that are built from their components, and taken apart by `_get_namespace_components`.
use n2vc.Prelude.{refl, ◌∙◌, ap, ◌≡◌, arith, All-append, ◌≢◌, [], ◌∷◌, ◌++◌, Option, none, some}
use n2vc.Text.{Text}
use n2vc.Text.Split.{split-append, split_whole, split-join, join, Lacks}
use n2vc.Naming.Namespace.{
  vdu_parts, List, ℕ, get_namespace_components, components_of, split, vdu_of, non_empty, Components,
}

abbrev pub or_empty : Option Text → Text
or_empty none = []
or_empty (some s) = s

abbrev pub with_count : Text → Option Text → Text
with_count vdu none = vdu
with_count vdu (some count) = vdu ++ b'-' ∷ count

-- [<nsi-id>].<ns-id>.<vnf-id>.<vdu-id>[-<count>]
pub build_namespace : Components → Text
build_namespace n = join b'.' (
    or_empty n.nsi_id
    ∷ or_empty n.ns_id
    ∷ or_empty n.vnf_id
    ∷ with_count (or_empty n.vdu_id) n.vdu_count
    ∷ [])

-- A component that is there is not empty and holds no separator.
abbrev pub IsComponent : Option Text → Type 0
IsComponent none = Unit
IsComponent (some s) = (s ≢ []) × Lacks b'.' s

abbrev pub IsVdu : Option Text → Option Text → Type 0
IsVdu none none = Unit
IsVdu none (some count) = ⊥
IsVdu (some vdu) none = (vdu ≢ []) × Lacks b'.' vdu × Lacks b'-' vdu
IsVdu (some vdu) (some count) =
    (vdu ≢ []) × Lacks b'.' vdu × Lacks b'-' vdu × Lacks b'.' count × Lacks b'-' count

pub record IsNamespace (n : Components) : Type 0 where
  pub nsi : IsComponent n.nsi_id
  pub ns : IsComponent n.ns_id
  pub vnf : IsComponent n.vnf_id
  pub vdu : IsVdu n.vdu_id n.vdu_count

non_empty-or_empty : (o : Option Text) → IsComponent o → non_empty (or_empty o) ≡ o
non_empty-or_empty none h = refl
non_empty-or_empty (some []) h = absurd (h.0 refl)
non_empty-or_empty (some (c ∷ s)) h = refl

vdu_of-with_count :
    (v k : Option Text) → IsVdu v k → vdu_of (non_empty (with_count (or_empty v) k)) ≡ (v, k)
vdu_of-with_count none none h = refl
vdu_of-with_count none (some k) h = absurd h
vdu_of-with_count (some []) none h = absurd (h.0 refl)
vdu_of-with_count (some []) (some k) h = absurd (h.0 refl)
vdu_of-with_count (some (c ∷ s)) none h = ap vdu_parts (split_whole b'-' (c ∷ s) h.2)
vdu_of-with_count (some (c ∷ s)) (some k) h =
    ap vdu_parts
      (split-append b'-' (c ∷ s) k h.2 ∙ ap (λ ps. (c ∷ s) ∷ ps) (split_whole b'-' k h.4))

or_empty-Lacks : (o : Option Text) → IsComponent o → Lacks b'.' (or_empty o)
or_empty-Lacks none h = tt
or_empty-Lacks (some s) h = h.1

with_count-Lacks : (v k : Option Text) → IsVdu v k → Lacks b'.' (with_count (or_empty v) k)
with_count-Lacks none none h = tt
with_count-Lacks none (some k) h = absurd h
with_count-Lacks (some s) none h = h.1
with_count-Lacks (some s) (some k) h = All-append _ s (b'-' ∷ k) h.1 (omega arith, h.3)

nonempty-components :
    (s : Text) → s ≢ [] → get_namespace_components (some s) ≡ some (components_of (split b'.' s))
unfolding get_namespace_components
nonempty-components [] h = absurd (h refl)
nonempty-components (c ∷ s) h = refl

join-ne-nil : (sep : ℕ) (g h : Text) (gs : List Text) → join sep (g ∷ h ∷ gs) ≢ []
unfolding join
join-ne-nil sep [] h gs = ground arith
join-ne-nil sep (c ∷ g) h gs = ground arith

module _ (n : Components) (valid : IsNamespace n) where
  split-build_namespace :
      split b'.' (build_namespace n)
      ≡ or_empty n.nsi_id
        ∷ or_empty n.ns_id
        ∷ or_empty n.vnf_id
        ∷ with_count (or_empty n.vdu_id) n.vdu_count
        ∷ []
  unfolding build_namespace
  split-build_namespace = split-join b'.' _ _ (
    or_empty-Lacks n.nsi_id valid.nsi,
    (
      or_empty-Lacks n.ns_id valid.ns,
      (or_empty-Lacks n.vnf_id valid.vnf, (with_count-Lacks n.vdu_id n.vdu_count valid.vdu, tt)),
    ),
  )

  components_of-build_namespace : components_of (split b'.' (build_namespace n)) ≡ n
  unfolding components_of
  components_of-build_namespace = rw split-build_namespace (λ i. record {
    nsi_id = non_empty-or_empty n.nsi_id valid.nsi i;
    ns_id = non_empty-or_empty n.ns_id valid.ns i;
    vnf_id = non_empty-or_empty n.vnf_id valid.vnf i;
    vdu_id = (vdu_of-with_count n.vdu_id n.vdu_count valid.vdu i).0;
    vdu_count = (vdu_of-with_count n.vdu_id n.vdu_count valid.vdu i).1;
  })

  -- A namespace built from components that are not empty and hold no separator is taken apart into
  -- the same components, absent ones included.
  pub get_namespace_components-build_namespace :
      get_namespace_components (some (build_namespace n)) ≡ some n
  unfolding get_namespace_components
  get_namespace_components-build_namespace =
      nonempty-components (build_namespace n) (unfold build_namespace in join-ne-nil b'.' _ _ _)
      ∙ ap some components_of-build_namespace
