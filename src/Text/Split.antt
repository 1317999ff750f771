-- ===== src/Text/Split.antt =====
-- `s.split(sep)` and `sep.join(parts)` for a separator of one character.
use n2vc.Prelude.{
  inr, ==_iff, inl, All-append, Bool-cases, ℕ, ◌≡◌, ◌≢◌, refl, ap, ◌∙◌, List, [], ◌∷◌, ◌++◌, arith,
  ◌==◌, if◌then◌else◌, All,
}

abbrev pub cons_head : ℕ → List (List ℕ) → List (List ℕ)
cons_head c [] = (c ∷ []) ∷ []
cons_head c (g ∷ gs) = (c ∷ g) ∷ gs

-- s.split(sep)
unfoldable pub split : ℕ → List ℕ → List (List ℕ)
split sep [] = [] ∷ []
split sep (c ∷ s) = let rest = split sep s in if c == sep then [] ∷ rest else cons_head c rest

-- sep.join(parts)
unfoldable pub join : ℕ → List (List ℕ) → List ℕ
join sep [] = []
join sep (g ∷ []) = g
join sep (g ∷ h ∷ gs) = g ++ sep ∷ join sep (h ∷ gs)

abbrev pub Lacks : ℕ → List ℕ → Type 0
Lacks sep s = All (λ c. c ≢ sep) s

-- A part that does not hold the separator is split off whole.
pub split-append :
    (sep : ℕ) (g s : List ℕ) → Lacks sep g → split sep (g ++ sep ∷ s) ≡ g ∷ split sep s
unfolding split
split-append sep [] s h = ground arith
split-append sep (c ∷ g) s h = ground (arith, split-append sep g s h.1)

pub split_whole : (sep : ℕ) (g : List ℕ) → Lacks sep g → split sep g ≡ g ∷ []
unfolding split
split_whole sep [] h = refl
split_whole sep (c ∷ g) h = ground (arith, split_whole sep g h.1)

pub split-join :
    (sep : ℕ) (g : List ℕ) (gs : List (List ℕ))
    → All (Lacks sep) (g ∷ gs)
    → split sep (join sep (g ∷ gs)) ≡ g ∷ gs
unfolding join
split-join sep g [] h = split_whole sep g h.0
split-join sep g (k ∷ gs) h =
    split-append sep g (join sep (k ∷ gs)) h.0 ∙ ap (◌∷◌ g) (split-join sep k gs h.1)

-- A text is made of its parts again.
cons_head-join :
    (sep c : ℕ) (gs : List (List ℕ)) → gs ≢ [] → join sep (cons_head c gs) ≡ c ∷ join sep gs
unfolding join
cons_head-join sep c [] h = absurd (h refl)
cons_head-join sep c (g ∷ []) h = refl
cons_head-join sep c (g ∷ k ∷ gs) h = refl

pub split-ne-nil : (sep : ℕ) (s : List ℕ) → split sep s ≢ []
unfolding split
split-ne-nil sep [] = ground arith
split-ne-nil sep (c ∷ s) = ground (arith, split-ne-nil sep s)

nil_head-join : (sep : ℕ) (gs : List (List ℕ)) → gs ≢ [] → join sep ([] ∷ gs) ≡ sep ∷ join sep gs
unfolding join
nil_head-join sep [] h = absurd (h refl)
nil_head-join sep (g ∷ gs) h = refl

pub join-split : (sep : ℕ) (s : List ℕ) → join sep (split sep s) ≡ s
unfolding split
join-split sep [] = unfold join in refl
join-split sep (c ∷ s) = elim (Bool-cases (c == sep)) [
  | inl e ↦ rw e (
      nil_head-join sep (split sep s) (split-ne-nil sep s)
      ∙ cc (join-split sep s, (==_iff c sep).0 e))
  | inr e ↦
      rw e (cons_head-join sep c (split sep s) (split-ne-nil sep s) ∙ ap (◌∷◌ c) (join-split sep s))
]

pub split-Lacks : (sep : ℕ) (s : List ℕ) → All (Lacks sep) (split sep s)
unfolding split
split-Lacks sep [] = (tt, tt)
split-Lacks sep (c ∷ s) = elim (Bool-cases (c == sep)) [
  | inl e ↦ rw e (tt, split-Lacks sep s)
  | inr e ↦ rw e (cons_head-Lacks (split sep s) (ground arith) (split-Lacks sep s))
]
  where
    cons_head-Lacks :
        (gs : List (List ℕ)) → c ≢ sep → All (Lacks sep) gs → All (Lacks sep) (cons_head c gs)
    cons_head-Lacks [] n h = ((n, tt), tt)
    cons_head-Lacks (g ∷ gs) n h = ((n, h.0), h.1)

module _ {ℓ} (P : ℕ → Type ℓ) (sep : ℕ) where
  All-cons_head : (c : ℕ) (gs : List (List ℕ)) → P c → All (All P) gs → All (All P) (cons_head c gs)
  All-cons_head c [] p h = ((p, tt), tt)
  All-cons_head c (g ∷ gs) p h = ((p, h.0), h.1)

  -- What holds of each character of a text holds of those of its parts, and back.
  pub All-split : (s : List ℕ) → All P s → All (All P) (split sep s)
  unfolding split
  All-split [] h = (tt, tt)
  All-split (c ∷ s) h = elim (Bool-cases (c == sep)) [
    | inl e ↦ rw e (tt, All-split s h.1)
    | inr e ↦ rw e (All-cons_head c (split sep s) h.0 (All-split s h.1))
  ]

  pub All-join : (gs : List (List ℕ)) → P sep → All (All P) gs → All P (join sep gs)
  unfolding join
  All-join [] p h = tt
  All-join (g ∷ []) p h = h.0
  All-join (g ∷ k ∷ gs) p h =
      All-append P g (sep ∷ join sep (k ∷ gs)) h.0 (p, All-join (k ∷ gs) p h.1)
