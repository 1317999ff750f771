-- ===== src/Text/Squeeze.antt =====
-- `while cc in s: s = s.replace(cc, c)`, the loop of `_format_app_name` (on hyphens) and of
-- `_remove_multiple_spaces`, on fuel, and what it computes.
use n2vc.Prelude.{
  ℕ, zero, suc, ◌≤◌, ◌<◌, ◌≡◌, refl, sym, ◌∙◌, Bool, true, false, ◌&&◌, List, [], ◌∷◌, arith, ◌==◌,
  if◌then◌else◌, length, All, inl, inr, Bool-cases,
}

-- s.find(cc) >= 0, for a text `cc` of twice the character `c`
unfoldable pub has_pair : ℕ → List ℕ → Bool
has_pair c [] = false
has_pair c (x ∷ []) = false
has_pair c (x ∷ y ∷ s) = let rest = has_pair c (y ∷ s) in if x == c && y == c then true else rest

-- s.replace(cc, c): pairs are found from the left and do not overlap.
unfoldable pub replace_pair : ℕ → List ℕ → List ℕ
replace_pair c [] = []
replace_pair c (x ∷ []) = x ∷ []
replace_pair c (x ∷ y ∷ s) =
    let after_pair = c ∷ replace_pair c s in
    let after_one = x ∷ replace_pair c (y ∷ s) in if x == c && y == c then after_pair else after_one

-- The loop, with fuel.
squeeze_loop : ℕ → ℕ → List ℕ → List ℕ
squeeze_loop zero c s = s
squeeze_loop (suc fuel) c s =
    let again = squeeze_loop fuel c (replace_pair c s) in if has_pair c s then again else s

-- Each round makes the text shorter, so its length is fuel enough.
unfoldable pub squeeze : ℕ → List ℕ → List ℕ
unfolding squeeze_loop has_pair replace_pair
squeeze c s = squeeze_loop (length s) c s

-- The text with every run of `c` cut down to one.
unfoldable pub collapse : ℕ → List ℕ → List ℕ
collapse c [] = []
collapse c (x ∷ []) = x ∷ []
collapse c (x ∷ y ∷ s) =
    let rest = collapse c (y ∷ s) in if x == c && y == c then rest else x ∷ rest

collapse-replace_pair_cons :
    (c x : ℕ) (s : List ℕ) → collapse c (x ∷ replace_pair c s) ≡ collapse c (x ∷ s)
unfolding collapse replace_pair
collapse-replace_pair_cons c x [] = refl
collapse-replace_pair_cons c x (y ∷ []) = refl
collapse-replace_pair_cons c x (y ∷ z ∷ s) =
    ground (arith, collapse-replace_pair_cons c c s, collapse-replace_pair_cons c y (z ∷ s))

collapse-replace_pair : (c : ℕ) (s : List ℕ) → collapse c (replace_pair c s) ≡ collapse c s
unfolding collapse replace_pair
collapse-replace_pair c [] = refl
collapse-replace_pair c (x ∷ []) = refl
collapse-replace_pair c (x ∷ y ∷ s) =
    ground (arith, collapse-replace_pair_cons c c s, collapse-replace_pair_cons c x (y ∷ s))

collapse_unpaired : (c : ℕ) (s : List ℕ) → has_pair c s ≡ false → collapse c s ≡ s
unfolding collapse has_pair
collapse_unpaired c [] h = refl
collapse_unpaired c (x ∷ []) h = refl
collapse_unpaired c (x ∷ y ∷ s) h = ground (arith, collapse_unpaired c (y ∷ s))

length-replace_pair-le : (c : ℕ) (s : List ℕ) → length (replace_pair c s) ≤ length s
unfolding replace_pair
length-replace_pair-le c [] = omega arith
length-replace_pair-le c (x ∷ []) = omega arith
length-replace_pair-le c (x ∷ y ∷ s) =
    ground (arith, length-replace_pair-le c s, length-replace_pair-le c (y ∷ s))

length-replace_pair-lt :
    (c : ℕ) (s : List ℕ) → has_pair c s ≡ true → length (replace_pair c s) < length s
unfolding replace_pair has_pair
length-replace_pair-lt c [] h = absurd (n h)
  where
    n : ¬ (false ≡ true)
    n e = cc
length-replace_pair-lt c (x ∷ []) h = ground arith
length-replace_pair-lt c (x ∷ y ∷ s) h =
    ground (arith, length-replace_pair-le c s, length-replace_pair-lt c (y ∷ s))

squeeze_loop-eq-collapse :
    (fuel c : ℕ) (s : List ℕ) → length s ≤ fuel → squeeze_loop fuel c s ≡ collapse c s
unfolding squeeze_loop
squeeze_loop-eq-collapse zero c [] h = unfold collapse in refl
squeeze_loop-eq-collapse zero c (x ∷ s) h = absurd (omega arith)
squeeze_loop-eq-collapse (suc fuel) c s h = elim (Bool-cases (has_pair c s)) [
  | inl pair ↦ rw pair (
      squeeze_loop-eq-collapse fuel c (replace_pair c s)
        (omega (arith, length-replace_pair-lt c s pair))
      ∙ collapse-replace_pair c s)
  | inr none ↦ rw none (sym (collapse_unpaired c s none))
]

-- The `while` loop that replaces pairs of a character ends, and computes the text with every run of
-- the character cut down to one.
pub squeeze-eq-collapse : (c : ℕ) (s : List ℕ) → squeeze c s ≡ collapse c s
unfolding squeeze
squeeze-eq-collapse c s = squeeze_loop-eq-collapse (length s) c s (omega arith)

pub All-collapse {ℓ} : (P : ℕ → Type ℓ) (c : ℕ) (s : List ℕ) → All P s → All P (collapse c s)
unfolding collapse
All-collapse P c [] h = tt
All-collapse P c (x ∷ []) h = h
All-collapse P c (x ∷ y ∷ s) h = elim (Bool-cases (x == c && y == c)) [
  | inl e ↦ rw e (All-collapse P c (y ∷ s) h.1)
  | inr e ↦ rw e (h.0, All-collapse P c (y ∷ s) h.1)
]

pub squeeze_unpaired : (c : ℕ) (s : List ℕ) → has_pair c s ≡ false → squeeze c s ≡ s
squeeze_unpaired c s h = squeeze-eq-collapse c s ∙ collapse_unpaired c s h
