-- ===== src/Tests/Naming.antt =====
-- Names, namespaces and ids, with Python's tables cut down to ASCII.
use n2vc.Prelude.{
  All, Bool-cases, inl, inr, if◌then◌else◌, ◌==◌, true, ◌≡◌, refl, some, none, [], ◌∷◌, false, ℕ,
  Bool, arith,
}
use n2vc.Text.{lower, replace, is_digit, Text, Unicode, codes}
use n2vc.Naming.AppName.{format_app_name}
use n2vc.Naming.AppName.Valid.{is_plain, is_allowed, IsValidAppName, format_app_name-IsValidAppName}
use n2vc.Naming.Namespace.{Components, get_namespace_components}
use n2vc.Naming.Namespace.Parse.{
  build_namespace, IsNamespace, get_namespace_components-build_namespace,
}
use n2vc.Text.Split.{join, split, Lacks}
use n2vc.Text.Squeeze.{has_pair, squeeze}

instance abbrev pub ascii : Unicode
ascii = record {
  wide_alpha = λ c. false;
  wide_numeric = λ c. false;
  wide_digit = λ c. false;
  wide_space = λ c. false;
  wide_lower = λ c. c ∷ [];
}

abbrev holds : (ℕ → Bool) → Text → Bool
holds f [] = true
holds f (c ∷ s) = if f c then holds f s else false

All-true : (f : ℕ → Bool) (s : Text) → holds f s ≡ true → All (λ c. f c ≡ true) s
All-true f [] h = tt
All-true f (c ∷ s) h = elim (Bool-cases (f c)) [
  | inl e ↦ (e, All-true f s (ground arith))
  | inr e ↦ absurd (ground arith)
]

app_12 : format_app_name (codes "My_ App-12") ≡ some (codes "my-app-z12")
unfolding format_app_name join split squeeze lower replace is_digit
app_12 = refl

format_app_name-IsValidAppName_example :
    (r : Text) × (format_app_name (codes "My_App 12") ≡ some r) × IsValidAppName r
format_app_name-IsValidAppName_example =
    format_app_name-IsValidAppName (codes "My_App 12") (All-true is_plain (codes "My_App 12") refl)

ab_1c-IsValidAppName : IsValidAppName (codes "ab-1c")
unfolding split has_pair
ab_1c-IsValidAppName = record {
  characters = All-true is_allowed (codes "ab-1c") refl;
  first = refl;
  no_double_hyphen = refl;
  no_number_group = (λ h. ground (arith, h.0), (λ h. ground (arith, h.1.0), tt));
}

abbrev has : ℕ → Text → Bool
has sep [] = false
has sep (c ∷ s) = if c == sep then true else has sep s

pub no_sep : (sep : ℕ) (s : Text) → has sep s ≡ false → Lacks sep s
no_sep sep [] h = tt
no_sep sep (c ∷ s) h = elim (Bool-cases (c == sep)) [
  | inl e ↦ absurd (ground arith)
  | inr e ↦ (ground arith, no_sep sep s (ground arith))
]

abbrev vdu_2 : Components
vdu_2 = record {
  nsi_id = none;
  ns_id = some (codes "ns");
  vnf_id = some (codes "vnf");
  vdu_id = some (codes "vdu");
  vdu_count = some (codes "2");
}

vdu_2-IsNamespace : IsNamespace vdu_2
vdu_2-IsNamespace = record {
  nsi = tt;
  ns = (λ e. ground arith, no_sep b'.' (codes "ns") refl);
  vnf = (λ e. ground arith, no_sep b'.' (codes "vnf") refl);
  vdu = (
    λ e. ground arith,
    no_sep b'.' (codes "vdu") refl,
    no_sep b'-' (codes "vdu") refl,
    no_sep b'.' (codes "2") refl,
    no_sep b'-' (codes "2") refl,
  );
}

get_namespace_components-build_namespace_example :
    get_namespace_components (some (build_namespace vdu_2)) ≡ some vdu_2
get_namespace_components-build_namespace_example =
    get_namespace_components-build_namespace vdu_2 vdu_2-IsNamespace
