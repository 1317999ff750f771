-- ===== src/Helm/Release/Valid.antt =====
-- Release names: their characters, their first character, and their length.
use n2vc.Prelude.{
  ℕ, ◌+◌, ◌-◌, ◌≤◌, ◌≡◌, ◌≢◌, refl, Bool, true, ◌||◌, [], ◌∷◌, ◌++◌, none, some, arith, ltb, ◌==◌,
  All, inl, inr, Bool-cases, Option-cases, ap, zero, suc, length, replicate, length-append,
  All-append, All-take, length-take-le,
}
use n2vc.Text.{
  Text, codes, Unicode, is_alpha, is_numeric, lower, is_lower_ascii, is_upper_ascii, is_digit_ascii,
  IsAscii, starts_with, contains,
}
use mathlib.Core.Option
use n2vc.Naming.AppName.Valid.{is_allowed, StartsLower}
use n2vc.Helm.Release.{
  last_slash, after_slash, embedded, rjust, name_of, cut, prefix_a, generate_release_name,
}

-- letters, digits and hyphens
abbrev is_name : ℕ → Bool
is_name c = is_lower_ascii c || is_upper_ascii c || is_digit_ascii c || c == b'-'

abbrev IsName : Text → Type 0
IsName s = All (λ c. is_name c ≡ true) s

-- What `str(random.randrange(start=1, stop=99999999))` returns: up to eight digits.
pub record IsRandom (random : Text) : Type 0 where
  pub digits : All (λ c. is_digit_ascii c ≡ true) random
  pub short : length random ≤ 8

last_slash-IsAscii : (s r : Text) → IsAscii s → last_slash s ≡ some r → IsAscii r
unfolding last_slash
last_slash-IsAscii [] r h e = cc
last_slash-IsAscii (c ∷ s) r h e = elim (Option-cases (last_slash s)) [
  | inl n ↦ elim (Bool-cases (c == b'/')) [
    | inl slash ↦ let e' : s ≡ r = ground arith in rw e' at h.1
    | inr other ↦ absurd (ground arith)
  ]
  | inr (q, k) ↦ let e' : q ≡ r = ground arith in last_slash-IsAscii s r h.1 (rw k (ap some e'))
]

after_slash-IsAscii : (s : Text) → IsAscii s → IsAscii (after_slash s)
unfolding after_slash
after_slash-IsAscii s h = elim (Option-cases (last_slash s)) [
  | inl n ↦ rw n h
  | inr (q, k) ↦ rw k (last_slash-IsAscii s q h k)
]

embedded-IsAscii : (s : Text) → IsAscii s → IsAscii (embedded s)
unfolding embedded
embedded-IsAscii s h = elim (Bool-cases (starts_with (codes "/") s)) [
  | inl e ↦ rw e (after_slash-IsAscii s h)
  | inr e ↦ elim (Bool-cases (contains (codes "://") s)) [
    | inl k ↦ rw (e, k) (after_slash-IsAscii s h)
    | inr k ↦ rw (e, k) h
  ]
]

last_slash-append : (s : Text) → last_slash (s ++ b'/' ∷ []) ≡ some []
unfolding last_slash
last_slash-append [] = refl
last_slash-append (c ∷ s) = rw (last_slash-append s)

-- The zeros and the digits.
rjust-IsName : (random : Text) → IsRandom random → IsName (rjust random)
rjust-IsName random h =
    All-append _ (replicate (10 - length random) b'0') random (zeros (10 - length random))
      (digits random h.digits)
  where
    zeros : (n : ℕ) → IsName (replicate n b'0')
    zeros zero = tt
    zeros (suc n) = (refl, zeros n)

    digits : (s : Text) → All (λ c. is_digit_ascii c ≡ true) s → IsName s
    digits [] h = tt
    digits (c ∷ s) h = (ground arith, digits s h.1)

length-rjust : (random : Text) → IsRandom random → length (rjust random) ≡ 10
length-rjust random h = omega (
  arith,
  length-append (replicate (10 - length random) b'0') random,
  zeros (10 - length random),
  h.short,
)
  where
    zeros : (n : ℕ) → length {A = ℕ} (replicate n b'0') ≡ n
    zeros zero = refl
    zeros (suc n) = omega (arith, zeros n)

module _ ⦃u : Unicode⦄ where
  name_of-IsName : (s : Text) → IsAscii s → IsName (name_of s)
  unfolding name_of is_alpha is_numeric
  name_of-IsName [] h = tt
  name_of-IsName (c ∷ s) h = ground (arith, name_of-IsName s h.1)

  name_of-ne-nil : (s : Text) → s ≢ [] → name_of s ≢ []
  unfolding name_of
  name_of-ne-nil [] n e = n refl
  name_of-ne-nil (c ∷ s) n e = ground arith

  lower-allowed : (s : Text) → IsName s → All (λ c. is_allowed c ≡ true) (lower s)
  unfolding lower
  lower-allowed [] h = tt
  lower-allowed (c ∷ s) h = ground (arith, lower-allowed s h.1)

  length-lower : (s : Text) → IsName s → length (lower s) ≡ length s
  unfolding lower
  length-lower [] h = refl
  length-lower (c ∷ s) h = ground (arith, length-lower s h.1)

  cut-IsName : (s : Text) → IsName s → IsName (cut s)
  cut-IsName s h = elim (Bool-cases (ltb 35 (length s))) [
    | inl e ↦ rw e (All-take _ 35 s h)
    | inr e ↦ rw e h
  ]

  length-cut-le : (s : Text) → length (cut s) ≤ 35
  length-cut-le s = elim (Bool-cases (ltb 35 (length s))) [
    | inl e ↦ rw e (length-take-le 35 s)
    | inr e ↦ rw e (ground arith)
  ]

  cut-ne-nil : (s : Text) → s ≢ [] → cut s ≢ []
  cut-ne-nil [] n e = n refl
  cut-ne-nil (c ∷ s) n e = elim (Bool-cases (ltb 35 (length (c ∷ s)))) [
    | inl l ↦ ground arith
    | inr l ↦ ground arith
  ]

  -- A name of letters, digits and hyphens with a letter in front, if it has none.
  prefix_a-IsName :
      (s : Text)
      → s ≢ []
      → IsName s
      → (c : ℕ) × (r : Text) × (prefix_a s ≡ some (c ∷ r))
        × IsName (c ∷ r)
        × (is_lower_ascii c || is_upper_ascii c ≡ true)
        × (length (c ∷ r) ≤ length s + 1)
  unfolding prefix_a is_alpha
  prefix_a-IsName [] n h = absurd (n refl)
  prefix_a-IsName (c ∷ s) n h = elim (Bool-cases (is_alpha c)) [
    | inl e ↦ (c, s, rw e, h, ground (arith, h.0), omega arith)
    | inr e ↦ (b'a', c ∷ s, rw e, (refl, h), refl, omega arith)
  ]

  lower-StartsLower :
      (c : ℕ) (r : Text) → is_lower_ascii c || is_upper_ascii c ≡ true → StartsLower (lower (c ∷ r))
  unfolding lower
  lower-StartsLower c r h = ground arith

  named :
      (s random : Text)
      → IsRandom random
      → IsName s
      → s ≢ []
      → length s ≤ 35
      → (r : Text) × (Option.map (λ name. lower (name ++ b'-' ∷ rjust random)) (prefix_a s)
          ≡ some r)
        × All (λ c. is_allowed c ≡ true) r
        × StartsLower r
        × (length r ≤ 47)
  named s random hr h n l =
      let (c, r, e, hn, letter, short) = prefix_a-IsName s n h in
      let all : IsName ((c ∷ r) ++ b'-' ∷ rjust random) =
        All-append (λ c. is_name c ≡ true) (c ∷ r) (b'-' ∷ rjust random) hn
          (refl, rjust-IsName random hr) in
      (
        lower ((c ∷ r) ++ b'-' ∷ rjust random),
        ap (Option.map (λ name. lower (name ++ b'-' ∷ rjust random))) e,
        lower-allowed ((c ∷ r) ++ b'-' ∷ rjust random) all,
        lower-StartsLower c (r ++ b'-' ∷ rjust random) letter,
        omega (
          arith,
          length-lower ((c ∷ r) ++ b'-' ∷ rjust random) all,
          length-append (c ∷ r) (b'-' ∷ rjust random),
          length-rjust random hr,
          short,
          l,
        ),
      )

  -- For an ASCII chart name whose last part is not empty, the release name consists of lower-case
  -- letters, digits and hyphens, starts with a letter, and has at most 47 characters.
  pub generate_release_name-IsAllowed :
      (chart_name random : Text)
      → IsAscii chart_name
      → IsRandom random
      → embedded chart_name ≢ []
      → (r : Text) × (generate_release_name chart_name random ≡ some r)
        × All (λ c. is_allowed c ≡ true) r
        × StartsLower r
        × (length r ≤ 47)
  unfolding generate_release_name
  generate_release_name-IsAllowed chart_name random h hr n =
      let name = name_of-IsName (embedded chart_name) (embedded-IsAscii chart_name h) in
      named (cut (name_of (embedded chart_name))) random hr (cut-IsName _ name)
        (cut-ne-nil _ (name_of-ne-nil (embedded chart_name) n))
        (length-cut-le (name_of (embedded chart_name)))

  -- A chart in a directory whose path is written with a slash at its end has no release name: the
  -- code fails with IndexError.
  generate_release_name_slash :
      (directory random : Text)
      → generate_release_name (b'/' ∷ directory ++ b'/' ∷ []) random ≡ none
  unfolding generate_release_name embedded after_slash starts_with name_of prefix_a
  generate_release_name_slash directory random = rw last_slash-append
