-- ===== src/Helm/Output/Words.antt =====
-- The arguments that `_local_async_exec` of n2vc/k8s_helm_conn.py makes of a command.
use n2vc.Prelude.{
  ==_iff, ℕ, ◌≡◌, ◌≢◌, refl, ap, sym, ◌∙◌, Bool, true, false, List, [], ◌∷◌, arith, ◌==◌,
  if◌then◌else◌, inl, inr, Bool-cases, keep,
}
use n2vc.Text.{Text, Unicode, is_space}
use n2vc.Text.Split.{split, cons_head}
use n2vc.Text.Squeeze.{collapse, squeeze-eq-collapse}
use n2vc.Helm.Output.{lstrip, rstrip, strip, remove_multiple_spaces, argv}

abbrev pub is_word : Text → Bool
is_word [] = false
is_word (c ∷ s) = true

-- The parts of a text between single spaces that are not empty.
abbrev pub words : Text → List Text
words s = keep is_word (split b' ' s)

abbrev StartsWell : Text → Type 0
StartsWell [] = Unit
StartsWell (c ∷ s) = (c == b' ') ≡ false

abbrev EndsWell : Text → Type 0
EndsWell [] = Unit
EndsWell (c ∷ []) = (c == b' ') ≡ false
EndsWell (c ∷ d ∷ s) = EndsWell (d ∷ s)

keep-cons_head :
    (x y : ℕ) (gs : List Text)
    → keep is_word (cons_head x (cons_head y gs)) ≡ cons_head x (keep is_word (cons_head y gs))
keep-cons_head x y [] = refl
keep-cons_head x y (g ∷ gs) = refl

-- An empty part in front of the words, where the text starts with a space.
abbrev spaced : Text → List Text → List Text
spaced [] ws = ws
spaced (c ∷ s) ws = if c == b' ' then [] ∷ ws else ws

split-collapse :
    (c : ℕ) (s : Text)
    → EndsWell (c ∷ s)
    → split b' ' (collapse b' ' (c ∷ s)) ≡ spaced (c ∷ s) (words (c ∷ s))
unfolding split collapse
split-collapse c [] h = rw h
split-collapse c (d ∷ s) h =
    let ih : split b' ' (collapse b' ' (d ∷ s)) ≡ spaced (d ∷ s) (words (d ∷ s)) =
      split-collapse d s h in
    elim (Bool-cases (c == b' ')) [
      | inl x ↦ elim (Bool-cases (d == b' ')) [
        | inl y ↦ rw (x, y) (rw y at ih)
        | inr y ↦ rw (x, y) (rw x (ap (◌∷◌ []) (rw y at ih)))
      ]
      | inr x ↦ elim (Bool-cases (d == b' ')) [
        | inl y ↦ rw (x, y) (rw x (ap (cons_head c) (rw y at ih)))
        | inr y ↦
            rw (x, y)
              (rw x (ap (cons_head c) (rw y at ih) ∙ sym (keep-cons_head c d (split b' ' s))))
      ]
    ]

module _ ⦃u : Unicode⦄ where
  not_space : (c : ℕ) → is_space c ≡ false → (c == b' ') ≡ false
  unfolding is_space
  not_space c h = ground (arith, ==_iff c b' ')

  lstrip-StartsWell : (s : Text) → StartsWell (lstrip s)
  unfolding lstrip
  lstrip-StartsWell [] = tt
  lstrip-StartsWell (c ∷ s) = elim (Bool-cases (is_space c)) [
    | inl e ↦ rw e (lstrip-StartsWell s)
    | inr e ↦ rw e (not_space c e)
  ]

  rstrip-StartsWell : (s : Text) → StartsWell s → StartsWell (rstrip s)
  unfolding rstrip
  rstrip-StartsWell [] h = tt
  rstrip-StartsWell (c ∷ s) h =
      elim (rstrip s)
        as (λ r.
          StartsWell (elim r [ [] ↦ if is_space c then [] else c ∷ [] | d ∷ r ↦ c ∷ d ∷ r ])) [
            | [] ↦ elim (is_space c) as (λ b. StartsWell (if b then [] else c ∷ [])) [
              | true ↦ tt
              | false ↦ h
            ]
            | d ∷ r ↦ h
          ]

  rstrip-EndsWell : (s : Text) → EndsWell (rstrip s)
  unfolding rstrip
  rstrip-EndsWell [] = tt
  rstrip-EndsWell (c ∷ s) = go (rstrip s) (rstrip-EndsWell s)
    where
      go :
          (r : Text)
          → EndsWell r
          → EndsWell (elim r [ [] ↦ if is_space c then [] else c ∷ [] | d ∷ r ↦ c ∷ d ∷ r ])
      go [] h = elim (Bool-cases (is_space c)) [ inl e ↦ rw e tt | inr e ↦ rw e (not_space c e) ]
      go (d ∷ r) h = h

  collapsed :
      (s : Text) → s ≢ [] → StartsWell s → EndsWell s → split b' ' (collapse b' ' s) ≡ words s
  collapsed [] n a b = absurd (n refl)
  collapsed (c ∷ s) n a b = split-collapse c s b ∙ rw a

  -- The arguments of a command that is not blank are its parts between spaces, once it is stripped:
  -- no argument is empty, however many spaces there are.
  pub argv-eq-words : (command : Text) → strip command ≢ [] → argv command ≡ words (strip command)
  unfolding argv remove_multiple_spaces strip
  argv-eq-words command n =
      ap (split b' ') (squeeze-eq-collapse b' ' (strip command))
      ∙ collapsed (strip command) n (rstrip-StartsWell (lstrip command) (lstrip-StartsWell command))
          (rstrip-EndsWell (lstrip command))
