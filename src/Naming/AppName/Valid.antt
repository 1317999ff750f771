-- ===== src/Naming/AppName/Valid.antt =====
-- What `_format_app_name` promises in its comment: the restrictions on application names.
use n2vc.Prelude.{
  ℕ, ◌≡◌, ◌≢◌, refl, Bool, true, false, ◌||◌, List, [], ◌∷◌, map, some, arith, ◌==◌, All, inl, inr,
  Bool-cases,
}
use n2vc.Text.{
  Text, Unicode, is_digit, lower, replace, is_lower_ascii, is_upper_ascii, is_digit_ascii,
}
use n2vc.Text.Split.{split-ne-nil, split, join, Lacks, split-join, split-Lacks, All-split, All-join}
use n2vc.Text.Squeeze.{has_pair, squeeze-eq-collapse, All-collapse}
use n2vc.Naming.AppName.{all_numbers, prefix_group, prefix_name, normalise, format_app_name}

abbrev pub is_allowed : ℕ → Bool
is_allowed c = is_lower_ascii c || is_digit_ascii c || c == b'-'

-- letters, digits, and the three characters that the code turns into hyphens or keeps
abbrev pub is_plain : ℕ → Bool
is_plain c = is_allowed c || is_upper_ascii c || c == b'_' || c == b' '

abbrev pub IsPlain : Text → Type 0
IsPlain s = All (λ c. is_plain c ≡ true) s

abbrev pub IsNumber : Text → Type 0
IsNumber g = All (λ c. is_digit_ascii c ≡ true) g

abbrev pub StartsLower : Text → Type 0
StartsLower [] = ⊥
StartsLower (c ∷ s) = is_lower_ascii c ≡ true

-- The restrictions that the comment of `_format_app_name` lists.
pub record IsValidAppName (name : Text) : Type 0 where
  pub characters : All (λ c. is_allowed c ≡ true) name
  pub first : StartsLower name
  pub no_double_hyphen : has_pair b'-' name ≡ false
  pub no_number_group : All (λ g. ¬ IsNumber g) (split b'-' name)

-- From here on: each step of the code keeps the characters that an application name may hold.
module _ ⦃u : Unicode⦄ where
  All-lower :
      (s : Text)
      → IsPlain s
      → All (λ c. is_allowed c ≡ true) (lower (replace b' ' b'-' (replace b'_' b'-' s)))
  unfolding lower replace
  All-lower [] h = tt
  All-lower (c ∷ s) h = ground (arith, All-lower s h.1)

  normalise-allowed : (s : Text) → IsPlain s → All (λ c. is_allowed c ≡ true) (normalise s)
  unfolding normalise
  normalise-allowed s h = rw squeeze-eq-collapse (All-collapse _ b'-' _ (All-lower s h))

  -- On allowed characters the code's test for a number is that for ASCII digits.
  all_numbers_sound :
      (g : Text) → All (λ c. is_allowed c ≡ true) g → all_numbers g ≡ false → ¬ IsNumber g
  unfolding all_numbers is_digit
  all_numbers_sound [] a h n = cc
  all_numbers_sound (c ∷ g) a h n = all_numbers_sound g a.1 (ground arith) n.1

  prefix_group_lem :
      (g : Text)
      → All (λ c. is_allowed c ≡ true) g
      → Lacks b'-' g
      → All (λ c. is_allowed c ≡ true) (prefix_group g)
        × Lacks b'-' (prefix_group g)
        × ¬ IsNumber (prefix_group g)
  unfolding prefix_group
  prefix_group_lem g a l = elim (Bool-cases (all_numbers g)) [
    | inl e ↦ rw e ((refl, a), (omega arith, l), λ n. ground (arith, n.0))
    | inr e ↦ rw e (a, l, all_numbers_sound g a e)
  ]

All-map {ℓ κ λ'} :
    {A : Type ℓ} {P : A → Type κ} {Q : A → Type λ'}
    → ((a : A) → P a → Q a)
    → (xs : List A) → All P xs
    → All Q xs
All-map f [] h = tt
All-map f (x ∷ xs) h = (f x h.0, All-map f xs h.1)

map-ne-nil {ℓ κ} : {A : Type ℓ} {B : Type κ} (f : A → B) (xs : List A) → xs ≢ [] → map f xs ≢ []
map-ne-nil f [] n = absurd (n refl)
map-ne-nil f (x ∷ xs) n = ground arith

abbrev IsGroup : Text → Type 0
IsGroup g = All (λ c. is_allowed c ≡ true) g × Lacks b'-' g × ¬ IsNumber g

abbrev after_first : List Text → List Text
after_first [] = []
after_first (g ∷ gs) = gs

after_first-cons :
    (x : ℕ) (s : Text) → x ≢ b'-' → after_first (split b'-' (x ∷ s)) ≡ after_first (split b'-' s)
unfolding split
after_first-cons x s n = ground arith

split-hyphen : (x : ℕ) (s : Text) → (x == b'-') ≡ true → split b'-' (x ∷ s) ≡ [] ∷ split b'-' s
unfolding split
split-hyphen x s e = rw e

All-after_first {ℓ} : (P : Text → Type ℓ) (gs : List Text) → All P gs → All P (after_first gs)
All-after_first P [] h = tt
All-after_first P (g ∷ gs) h = h.1

hyphen_first :
    (x y : ℕ) (s : Text)
    → (x == b'-') ≡ true
    → All (λ g. ¬ IsNumber g) (split b'-' (y ∷ s))
    → (All (λ g. ¬ IsNumber g) (after_first (split b'-' (y ∷ s))) → has_pair b'-' (y ∷ s) ≡ false)
    → has_pair b'-' (x ∷ y ∷ s) ≡ false
unfolding has_pair
hyphen_first x y s e h rest = elim (Bool-cases (y == b'-')) [
  | inl second ↦ absurd ((rw (split-hyphen y s second) at h).0 tt)
  | inr second ↦ ground (arith, rest (All-after_first _ _ h))
]

-- A group that is no number and holds no hyphen is not empty, so hyphens do not meet.
has_pair-split :
    (s : Text) → All (λ g. ¬ IsNumber g) (after_first (split b'-' s)) → has_pair b'-' s ≡ false
unfolding has_pair split
has_pair-split [] h = refl
has_pair-split (x ∷ []) h = refl
has_pair-split (x ∷ y ∷ s) h = elim (Bool-cases (x == b'-')) [
  | inl e ↦ hyphen_first x y s e (rw (split-hyphen x (y ∷ s) e) at h) (has_pair-split (y ∷ s))
  | inr e ↦
      let rest : has_pair b'-' (y ∷ s) ≡ false =
        has_pair-split (y ∷ s) (rw (after_first-cons x (y ∷ s) (ground arith)) at h) in
      ground (arith, rest)
]

module _ ⦃u : Unicode⦄ where
  All-prefix_group :
      (gs : List Text)
      → All (λ g. All (λ c. is_allowed c ≡ true) g) gs
      → All (Lacks b'-') gs
      → All IsGroup (map prefix_group gs)
  All-prefix_group [] a l = tt
  All-prefix_group (g ∷ gs) a l = (prefix_group_lem g a.0 l.0, All-prefix_group gs a.1 l.1)

  joined-cons :
      (c : ℕ) (g : Text) (gs : List Text) → join b'-' ((c ∷ g) ∷ gs) ≡ c ∷ join b'-' (g ∷ gs)
  unfolding join
  joined-cons c g [] = refl
  joined-cons c g (k ∷ gs) = refl

  Groups-IsValidAppName :
      (c : ℕ) (g : Text) (gs : List Text)
      → All IsGroup ((c ∷ g) ∷ gs)
      → is_lower_ascii c ≡ true
      → IsValidAppName (c ∷ join b'-' (g ∷ gs))
  Groups-IsValidAppName c g gs h first = rw (← joined-cons c g gs) (record {
    characters =
        All-join (λ x. is_allowed x ≡ true) b'-' groups refl (All-map (λ k p. p.0) groups h);
    first = rw (joined-cons c g gs) first;
    no_double_hyphen = has_pair-split (join b'-' groups) (rw parts (All-map (λ k p. p.2) gs h.1));
    no_number_group = rw parts (All-map (λ k p. p.2) groups h);
  })
    where
      groups : List Text
      groups = (c ∷ g) ∷ gs

      parts : split b'-' (join b'-' groups) ≡ groups
      parts = split-join b'-' (c ∷ g) gs (All-map (λ k p. p.1) groups h)

  not_digit_lower :
      (c : ℕ) → is_allowed c ≡ true → c ≢ b'-' → is_digit c ≡ false → is_lower_ascii c ≡ true
  unfolding is_digit
  not_digit_lower c a n d = ground arith

  -- The groups of the finished name, for groups that are no numbers.
  joined-IsValidAppName :
      (g : Text) (gs : List Text)
      → All IsGroup (g ∷ gs)
      → (r : Text) × (prefix_name (join b'-' (g ∷ gs)) ≡ some r) × IsValidAppName r
  unfolding prefix_name
  joined-IsValidAppName [] gs h = absurd (h.0.2 tt)
  joined-IsValidAppName (c ∷ g) gs h = elim (Bool-cases (is_digit c)) [
    | inl e ↦ (
      b'z' ∷ c ∷ join b'-' (g ∷ gs),
      rw (joined-cons c g gs, e),
      rw (← joined-cons c g gs) (
          Groups-IsValidAppName b'z' (c ∷ g) gs
            (((refl, h.0.0), (omega arith, h.0.1), λ n. ground (arith, n.0)), h.1) refl),
    )
    | inr e ↦ (
      c ∷ join b'-' (g ∷ gs),
      rw (joined-cons c g gs, e),
      Groups-IsValidAppName c g gs h (not_digit_lower c h.0.0.0 h.0.1.0 e),
    )
  ]

  grouped-IsValidAppName :
      (gs : List Text)
      → gs ≢ []
      → All IsGroup gs
      → (r : Text) × (prefix_name (join b'-' gs) ≡ some r) × IsValidAppName r
  grouped-IsValidAppName [] n h = absurd (n refl)
  grouped-IsValidAppName (g ∷ gs) n h = joined-IsValidAppName g gs h

  -- For a name of letters, digits, hyphens, underscores and spaces, `_format_app_name` returns a
  -- name, and that name meets each of the restrictions listed in its comment.
  pub format_app_name-IsValidAppName :
      (name : Text) → IsPlain name → (r : Text) × (format_app_name name ≡ some r) × IsValidAppName r
  unfolding format_app_name
  format_app_name-IsValidAppName name h =
      grouped-IsValidAppName (map prefix_group (split b'-' (normalise name)))
        (map-ne-nil _ _ (split-ne-nil b'-' (normalise name)))
        (All-prefix_group (split b'-' (normalise name))
          (All-split _ b'-' (normalise name) (normalise-allowed name h))
          (split-Lacks b'-' (normalise name)))
