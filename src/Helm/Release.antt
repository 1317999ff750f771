-- ===== src/Helm/Release.antt =====
-- `_generate_release_name` of n2vc/k8s_helm_conn.py. The random number is a parameter: the text of
-- it, as `str` writes it. `none` is the `IndexError` of `name[0]` at an empty text.
pub mod Valid
use n2vc.Prelude.{
  zero, suc, ◌+◌, ◌*◌, ◌≤◌, ◌<◌, min, String, ◌≡◌, refl, sym, ap, ◌∙◌, ◌≢◌, ◌↔◌, ◌⊎◌, inl, inr, not,
  ◌&&◌, append_assoc, append-nil, arith, eq_iff, leb, ◌=ₛ◌, ltb→lt, lt→ltb, ==_iff, Bool-cases,
  Option-cases, get_elem?, drop, keep, length-append, length-take-le, All, All-append, All-take,
  All-drop, ℕ, ◌-◌, Bool, true, false, ◌||◌, List, [], ◌∷◌, ◌++◌, map, Option, none, some, ltb,
  ◌==◌, if◌then◌else◌, length, take, replicate,
}
use mathlib.Core.Option
use n2vc.Text.{Text, codes, Unicode, is_alpha, is_numeric, lower, starts_with, contains}

-- What follows the last slash.
unfoldable pub last_slash : Text → Option Text
last_slash [] = none
last_slash (c ∷ s) = elim (last_slash s) [
  | none ↦ if c == b'/' then some s else none
  | some r ↦ some r
]

abbrev pub or_all : Text → Option Text → Text
or_all s none = s
or_all s (some r) = r

-- `chart_name[chart_name.rfind("/") + 1 :]`
unfoldable pub after_slash : Text → Text
unfolding last_slash
after_slash s = or_all s (last_slash s)

-- The name of a file or directory, or the last part of a URL.
unfoldable pub embedded : Text → Text
unfolding after_slash starts_with contains
embedded chart_name =
    if starts_with (codes "/") chart_name
    then after_slash chart_name
    else if contains (codes "://") chart_name
    then after_slash chart_name
    else chart_name

-- s.rjust(10, "0")
abbrev pub rjust : Text → Text
rjust s = replicate (10 - length s) b'0' ++ s

module _ ⦃u : Unicode⦄ where
  abbrev pub name_char : ℕ → ℕ
  name_char c = if is_alpha c || is_numeric c then c else b'-'

  unfoldable pub name_of : Text → Text
  name_of [] = []
  name_of (c ∷ s) = name_char c ∷ name_of s

  abbrev pub cut : Text → Text
  cut name = if ltb 35 (length name) then take 35 name else name

  -- if it does not start with a letter, an "a" is put in front
  unfoldable pub prefix_a : Text → Option Text
  prefix_a [] = none
  prefix_a (c ∷ s) = some (if is_alpha c then c ∷ s else b'a' ∷ c ∷ s)

  unfoldable pub generate_release_name : Text → Text → Option Text
  unfolding embedded name_of prefix_a
  generate_release_name chart_name random =
      Option.map (λ name. lower (name ++ b'-' ∷ rjust random))
        (prefix_a (cut (name_of (embedded chart_name))))
