-- ===== src/Naming/AppName.antt =====
-- `_format_app_name` and `_format_model_name` of n2vc/n2vc_juju_conn.py. `none` is the `IndexError`
-- of `app_name[0]` at an empty text.
pub mod Some
pub mod Valid
pub mod Fixed
use n2vc.Prelude.{
  ℕ, Bool, true, false, ◌||◌, List, [], ◌∷◌, map, Option, none, some, ◌==◌, if◌then◌else◌,
}
use n2vc.Text.{
  Text, Unicode, is_digit, lower, replace, is_lower_ascii, is_upper_ascii, is_digit_ascii,
}
use n2vc.Text.Split.{split, join}
use n2vc.Text.Squeeze.{squeeze}

module _ ⦃u : Unicode⦄ where
  unfoldable pub all_numbers : Text → Bool
  all_numbers [] = true
  all_numbers (c ∷ s) = let rest = all_numbers s in if is_digit c then rest else false

  -- 'all numbers' groups get a letter in front
  unfoldable pub prefix_group : Text → Text
  unfolding all_numbers
  prefix_group group = if all_numbers group then b'z' ∷ group else group

  -- `app_name[0].isdigit()`
  unfoldable pub prefix_name : Text → Option Text
  prefix_name [] = none
  prefix_name (c ∷ s) = some (if is_digit c then b'z' ∷ c ∷ s else c ∷ s)

  -- the text before the groups are looked at
  unfoldable pub normalise : Text → Text
  normalise name = squeeze b'-' (lower (replace b' ' b'-' (replace b'_' b'-' name)))

  unfoldable pub format_app_name : Text → Option Text
  unfolding prefix_group prefix_name normalise
  format_app_name name = prefix_name (join b'-' (map prefix_group (split b'-' (normalise name))))

  unfoldable pub format_model_name : Text → Text
  format_model_name name = lower (replace b' ' b'-' (replace b'_' b'-' name))
