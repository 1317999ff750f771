-- ===== src/Naming/Namespace/Parts.antt =====
-- What the parts of a namespace hold.
use n2vc.Prelude.{ℕ, zero, suc, ◌≡◌, Option, none, some, List, [], ◌∷◌, All, arith}
use n2vc.Text.{Text, codes}
use n2vc.Text.Split.{split, split-Lacks, Lacks}
use n2vc.Naming.Namespace.{Components, get_namespace_components, part, components_of}

-- "{}".format(name)
abbrev pub shown : Option Text → Text
shown none = codes "None"
shown (some name) = name

-- A part of a namespace holds no dot.
part-Lacks : (i : ℕ) (ps : List Text) → All (Lacks b'.') ps → Lacks b'.' (shown (part i ps))
part-Lacks i [] h = ground arith
part-Lacks zero ([] ∷ ps) h = ground arith
part-Lacks zero ((c ∷ p) ∷ ps) h = h.0
part-Lacks (suc i) (p ∷ ps) h = part-Lacks i ps h.1

pub ns_id-Lacks :
    (namespace : Option Text) (components : Components)
    → get_namespace_components namespace ≡ some components
    → Lacks b'.' (shown components.ns_id)
unfolding get_namespace_components components_of
ns_id-Lacks none components h = absurd (ground arith)
ns_id-Lacks (some []) components h = absurd (ground arith)
ns_id-Lacks (some (c ∷ s)) components h =
    let e : components_of (split b'.' (c ∷ s)) ≡ components = ground arith in
    rw (← e) (part-Lacks 1 (split b'.' (c ∷ s)) (split-Lacks b'.' (c ∷ s)))
