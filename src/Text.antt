-- ===== src/Text.antt =====
-- Python texts that the program walks: the list of their code points, with the methods of `str`
-- that n2vc/n2vc_juju_conn.py, n2vc/n2vc_conn.py and n2vc/k8s_helm_conn.py call.
pub mod Split
pub mod Squeeze
use Prim.Native.Char.{code}
use n2vc.Prelude.{
  ℕ, ◌+◌, ◌<◌, String, ◌≡◌, ◌↔◌, Bool, true, false, ◌&&◌, ◌||◌, List, [], ◌∷◌, ◌++◌, map, arith,
  ltb, leb, ◌==◌, if◌then◌else◌, All,
}

abbrev pub Text : Type 0
Text = List ℕ

-- The code points of a literal.
abbrev pub codes : String → Text
codes String.[] = []
codes (String.◌∷◌ c s) = code c ∷ codes s

-- Python's tables for the code points from 128 on, which the language's documentation leaves to
-- the Unicode data base.
pub record Unicode : Type 0 where
  pub wide_alpha : ℕ → Bool
  pub wide_numeric : ℕ → Bool
  pub wide_digit : ℕ → Bool
  pub wide_space : ℕ → Bool
  pub wide_lower : ℕ → Text

abbrev pub is_lower_ascii : ℕ → Bool
is_lower_ascii c = leb b'a' c && leb c b'z'

abbrev pub is_upper_ascii : ℕ → Bool
is_upper_ascii c = leb b'A' c && leb c b'Z'

abbrev pub is_digit_ascii : ℕ → Bool
is_digit_ascii c = leb b'0' c && leb c b'9'

module _ ⦃u : Unicode⦄ where
  -- c.isalpha()
  unfoldable pub is_alpha : ℕ → Bool
  is_alpha c = if ltb c 128 then is_lower_ascii c || is_upper_ascii c else u.wide_alpha c

  -- c.isnumeric()
  unfoldable pub is_numeric : ℕ → Bool
  is_numeric c = if ltb c 128 then is_digit_ascii c else u.wide_numeric c

  -- c.isdigit()
  unfoldable pub is_digit : ℕ → Bool
  is_digit c = if ltb c 128 then is_digit_ascii c else u.wide_digit c

  -- the characters that `strip()` removes
  unfoldable pub is_space : ℕ → Bool
  is_space c = if ltb c 128 then (leb 9 c && leb c 13) || (leb 28 c && leb c 32) else u.wide_space c

  lower_char : ℕ → Text
  lower_char c = if ltb c 128 then (if is_upper_ascii c then c + 32 else c) ∷ [] else u.wide_lower c

  -- s.lower()
  unfoldable pub lower : Text → Text
  unfolding lower_char
  lower [] = []
  lower (c ∷ s) = lower_char c ++ lower s

-- s.replace(a, b), for one character each
unfoldable pub replace : ℕ → ℕ → Text → Text
replace a b [] = []
replace a b (c ∷ s) = (if c == a then b else c) ∷ replace a b s

-- s == t
unfoldable pub text_eq : Text → Text → Bool
text_eq [] [] = true
text_eq (x ∷ s) (y ∷ t) = x == y && text_eq s t
text_eq _ _ = false

pub text_eq_iff : (s t : Text) → (text_eq s t ≡ true) ↔ (s ≡ t)
unfolding text_eq
text_eq_iff [] [] = ground arith
text_eq_iff [] (y ∷ t) = ground arith
text_eq_iff (x ∷ s) [] = ground arith
text_eq_iff (x ∷ s) (y ∷ t) = ground (arith, text_eq_iff s t)

-- s.startswith(p)
unfoldable pub starts_with : Text → Text → Bool
starts_with [] s = true
starts_with (x ∷ p) [] = false
starts_with (x ∷ p) (y ∷ s) = x == y && starts_with p s

-- p in s
unfoldable pub contains : Text → Text → Bool
unfolding starts_with
contains p [] = starts_with p []
contains p (c ∷ s) = starts_with p (c ∷ s) || contains p s

-- The pieces of a format string and its arguments, in order.
unfoldable pub format : List Text → Text
format [] = []
format (s ∷ rest) = s ++ format rest

abbrev pub IsAscii : Text → Type 0
IsAscii s = All (λ c. c < 128) s
