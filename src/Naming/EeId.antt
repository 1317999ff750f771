-- ===== src/Naming/EeId.antt =====
-- Execution environment ids: `_build_ee_id` and `_get_ee_id_components` of n2vc/n2vc_juju_conn.py.
use n2vc.Prelude.{append-nil, ◌≡◌, List, [], ◌∷◌, Option, none, some}
use n2vc.Text.{Text, codes, format}
use n2vc.Text.Split.{split, join, Lacks, split-join}

unfoldable pub build_ee_id : Text → Text → Text → Text
build_ee_id model_name application_name machine_id =
    format (model_name ∷ codes "." ∷ application_name ∷ codes "." ∷ machine_id ∷ [])

-- `parts[0]`, `parts[1]`, `parts[2]`; `none` is the `IndexError` of a shorter list.
pub first_three : List Text → Option (Text × Text × Text)
first_three (model_name ∷ application_name ∷ machine_id ∷ rest) =
    some (model_name, application_name, machine_id)
first_three _ = none

abbrev absent : Option Text × Option Text × Option Text
absent = (none, none, none)

abbrev pub present : Option (Text × Text × Text) → Option (Option Text × Option Text × Option Text)
present none = none
present (some (m, a, i)) = some (some m, some a, some i)

unfoldable pub get_ee_id_components : Option Text → Option (Option Text × Option Text × Option Text)
unfolding first_three
get_ee_id_components none = some absent
get_ee_id_components (some ee_id) = present (first_three (split b'.' ee_id))

pub ee_id-join : (m a i : Text) → build_ee_id m a i ≡ join b'.' (m ∷ a ∷ i ∷ [])
unfolding build_ee_id format join
ee_id-join m a i = simp append-nil

-- From names that hold no dot the built id is taken apart into the same names.
pub get_ee_id_components-build_ee_id :
    (m a i : Text)
    → Lacks b'.' m
    → Lacks b'.' a
    → Lacks b'.' i
    → get_ee_id_components (some (build_ee_id m a i)) ≡ some (some m, some a, some i)
unfolding get_ee_id_components
get_ee_id_components-build_ee_id m a i hm ha hi =
    rw (ee_id-join, split-join b'.' m (a ∷ i ∷ []) (hm, (ha, (hi, tt))))
