-- ===== src/Naming/AppName/Fixed.antt =====
-- `_format_app_name` on names that already meet the restrictions of Juju.
use n2vc.Prelude.{◌≡◌, refl, ap, ◌∙◌, List, [], ◌∷◌, map, some, arith, All, inl, inr, Bool-cases}
use n2vc.Text.{Text, Unicode, is_digit, lower, replace}
use n2vc.Text.Split.{All-split, split, join-split}
use n2vc.Text.Squeeze.{squeeze, squeeze_unpaired}
use n2vc.Naming.AppName.{true, all_numbers, prefix_group, prefix_name, normalise, format_app_name}
use n2vc.Naming.AppName.Valid.{is_allowed, IsNumber, IsValidAppName, StartsLower}

module _ ⦃u : Unicode⦄ where
  lower-allowed :
      (s : Text)
      → All (λ c. is_allowed c ≡ true) s
      → lower (replace b' ' b'-' (replace b'_' b'-' s)) ≡ s
  unfolding lower replace
  lower-allowed [] h = refl
  lower-allowed (c ∷ s) h = ground (arith, lower-allowed s h.1)

  normalise-valid : (s : Text) → IsValidAppName s → normalise s ≡ s
  unfolding normalise
  normalise-valid s v =
      ap (squeeze b'-') (lower-allowed s v.characters) ∙ squeeze_unpaired b'-' s v.no_double_hyphen

  IsNumber-of_All :
      (g : Text) → All (λ c. is_allowed c ≡ true) g → all_numbers g ≡ true → IsNumber g
  unfolding all_numbers is_digit
  IsNumber-of_All [] a h = tt
  IsNumber-of_All (c ∷ g) a h = (ground arith, IsNumber-of_All g a.1 (ground arith))

  map-prefix_group :
      (gs : List Text)
      → All (λ g. All (λ c. is_allowed c ≡ true) g) gs
      → All (λ g. ¬ IsNumber g) gs
      → map prefix_group gs ≡ gs
  unfolding prefix_group
  map-prefix_group [] a n = refl
  map-prefix_group (g ∷ gs) a n = elim (Bool-cases (all_numbers g)) [
    | inl e ↦ absurd (n.0 (IsNumber-of_All g a.0 e))
    | inr e ↦ rw e (ap (◌∷◌ g) (map-prefix_group gs a.1 n.1))
  ]

  prefix_name-lower : (s : Text) → StartsLower s → prefix_name s ≡ some s
  unfolding prefix_name is_digit
  prefix_name-lower [] h = absurd h
  prefix_name-lower (c ∷ s) h = ground arith

  -- `_format_app_name` returns a name that meets the restrictions unchanged. So a second call
  -- changes nothing.
  format_app_name_fixed : (s : Text) → IsValidAppName s → format_app_name s ≡ some s
  unfolding format_app_name
  format_app_name_fixed s v =
      rw
        (
          normalise-valid s v,
          map-prefix_group (split b'-' s) (All-split _ b'-' s v.characters) v.no_number_group,
          join-split,
        )
        (prefix_name-lower s v.first)
