-- ===== src/Naming/AppName/Some.antt =====
-- `_format_app_name` of n2vc/n2vc_juju_conn.py gives a name for every text that begins with an "a",
-- as the names that `_get_application_name` builds do.
use n2vc.Prelude.{◌≡◌, refl, ◌∙◌, List, [], ◌∷◌, ◌++◌, map, some}
use n2vc.Text.{Text, Unicode, lower, replace, is_digit}
use n2vc.Text.Split.{split, join, cons_head}
use n2vc.Text.Squeeze.{collapse, squeeze-eq-collapse}
use n2vc.Naming.AppName.{all_numbers, prefix_group, prefix_name, normalise, format_app_name}

-- The text begins with an "a".
abbrev IsLettered : Text → Type 0
IsLettered s = (t : Text) × (s ≡ b'a' ∷ t)

collapse-IsLettered : (s : Text) → IsLettered (collapse b'-' (b'a' ∷ s))
unfolding collapse
collapse-IsLettered [] = ([], refl)
collapse-IsLettered (c ∷ s) = (collapse b'-' (c ∷ s), refl)

module _ ⦃u : Unicode⦄ where
  normalise-IsLettered : (s : Text) → IsLettered (normalise (b'a' ∷ s))
  unfolding normalise replace lower is_digit
  normalise-IsLettered s =
      let (t, e) = collapse-IsLettered (lower (replace b' ' b'-' (replace b'_' b'-' s))) in
      (t, squeeze-eq-collapse b'-' _ ∙ e)

  join-IsLettered :
      (g : Text) (gs : List Text) → IsLettered (join b'-' (map prefix_group ((b'a' ∷ g) ∷ gs)))
  unfolding join prefix_group all_numbers is_digit
  join-IsLettered g [] = (g, refl)
  join-IsLettered g (h ∷ hs) = (g ++ b'-' ∷ join b'-' (map prefix_group (h ∷ hs)), refl)

  groups-IsLettered : (s : Text) → IsLettered (join b'-' (map prefix_group (split b'-' (b'a' ∷ s))))
  unfolding split
  groups-IsLettered s = go (split b'-' s)
    where
      go : (gs : List Text) → IsLettered (join b'-' (map prefix_group (cons_head b'a' gs)))
      go [] = join-IsLettered [] []
      go (g ∷ gs) = join-IsLettered g gs

  pub format_app_name-some : (s : Text) → (t : Text) × (format_app_name (b'a' ∷ s) ≡ some t)
  unfolding format_app_name prefix_name is_digit
  format_app_name-some s =
      let (t, e) = normalise-IsLettered s in
      let (r, e') = groups-IsLettered t in (b'a' ∷ r, rw e (rw e' refl))
