-- ===== src/Naming/Namespace.antt =====
-- `_get_namespace_components` of n2vc/n2vc_conn.py, and the application name that
-- `_get_application_name` of n2vc/n2vc_juju_conn.py builds from the components.
pub mod Parse
pub mod Parts
use n2vc.Prelude.{
  zero, suc, suc, ℕ, ◌-◌, Bool, true, false, List, [], ◌∷◌, ◌++◌, Option, none, some, length, drop,
  if◌then◌else◌,
}
use n2vc.Text.{Text, codes, Unicode, format}
use n2vc.Text.Split.{split}
use n2vc.Naming.AppName.{format_app_name}

pub record Components : Type 0 where
  pub nsi_id : Option Text
  pub ns_id : Option Text
  pub vnf_id : Option Text
  pub vdu_id : Option Text
  pub vdu_count : Option Text

-- `parts[i]` if it is there and not empty
abbrev non_empty : Text → Option Text
non_empty [] = none
non_empty (c ∷ s) = some (c ∷ s)

abbrev part : ℕ → List Text → Option Text
part i [] = none
part zero (p ∷ ps) = non_empty p
part (suc i) (p ∷ ps) = part i ps

-- `vdu_parts = parts[3].split("-")`: the id, and the count if there is a hyphen
abbrev vdu_parts : List Text → Option Text × Option Text
vdu_parts [] = (none, none)
vdu_parts (vdu ∷ []) = (some vdu, none)
vdu_parts (vdu ∷ count ∷ rest) = (some vdu, some count)

abbrev vdu_of : Option Text → Option Text × Option Text
vdu_of none = (none, none)
vdu_of (some p) = vdu_parts (split b'-' p)

components_of : List Text → Components
components_of parts = record {
  nsi_id = part 0 parts;
  ns_id = part 1 parts;
  vnf_id = part 2 parts;
  vdu_id = (vdu_of (part 3 parts)).0;
  vdu_count = (vdu_of (part 3 parts)).1;
}

-- `none` is `N2VCBadArgumentsException`.
unfoldable pub get_namespace_components : Option Text → Option Components
unfolding components_of
get_namespace_components none = none
get_namespace_components (some []) = none
get_namespace_components (some (c ∷ s)) = some (components_of (split b'.' (c ∷ s)))

-- s[-12:]
last_twelve : Text → Text
last_twelve s = drop (length s - 12) s

shortened : Text → Option Text → Text
unfolding last_twelve
shortened label none = []
shortened label (some []) = []
shortened label (some (c ∷ s)) = label ++ last_twelve (c ∷ s)

counted : Option Text → Text
counted none = []
counted (some []) = []
counted (some (c ∷ s)) = codes "-cnt-" ++ c ∷ s

unfoldable pub application_name : Components → Text
unfolding shortened counted
application_name n = format (
    codes "app-"
    ∷ shortened (codes "vnf-") n.vnf_id
    ∷ shortened (codes "-vdu-") n.vdu_id
    ∷ counted n.vdu_count
    ∷ [])

module _ ⦃u : Unicode⦄ where
  abbrev formatted : Option Components → Option Text
  formatted none = none
  formatted (some n) = format_app_name (application_name n)

  -- `none`: the namespace is missing or empty.
  unfoldable pub get_application_name : Option Text → Option Text
  get_application_name namespace = formatted (get_namespace_components namespace)
