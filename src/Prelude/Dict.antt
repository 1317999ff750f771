-- ===== src/Prelude/Dict.antt =====
-- Python's `dict` with text keys, as an association list in the order of insertion.
use n2vc.Prelude.{
  String, ◌≡◌, refl, Option, none, some, List, [], ◌∷◌, arith, ◌=ₛ◌, eq_iff, if◌then◌else◌, Bool,
  true, false,
}

abbrev pub Dict {ℓ} : Type ℓ → Type ℓ
Dict V = List (String × V)

module _ {ℓ} {V : Type ℓ} where
  -- d.get(k)
  unfoldable pub get : String → Dict V → Option V
  get k [] = none
  get k ((j, v) ∷ d) = if j =ₛ k then some v else get k d

  -- d[k] = v: the place of a known key stays.
  unfoldable pub put : String → V → Dict V → Dict V
  put k v [] = (k, v) ∷ []
  put k v ((j, w) ∷ d) = if j =ₛ k then (j, v) ∷ d else (j, w) ∷ put k v d

  -- d.pop(k, None); every entry of the key goes.
  unfoldable pub remove : String → Dict V → Dict V
  remove k [] = []
  remove k ((j, w) ∷ d) = let rest = remove k d in if j =ₛ k then rest else (j, w) ∷ rest

  -- k in d
  abbrev is_found : Option V → Bool
  is_found none = false
  is_found (some v) = true

  unfoldable pub has : String → Dict V → Bool
  unfolding get
  has k d = is_found (get k d)

  pub get-put :
      (k j : String) (v : V) (d : Dict V) → get j (put k v d) ≡ (if k =ₛ j then some v else get j d)
  unfolding get put
  get-put k j v [] = refl
  get-put k j v ((i, w) ∷ d) = ground (arith, eq_iff k j, eq_iff i k, eq_iff i j, get-put k j v d)

  pub get-remove :
      (k j : String) (d : Dict V) → get j (remove k d) ≡ (if k =ₛ j then none else get j d)
  unfolding get remove
  get-remove k j [] = ground arith
  get-remove k j ((i, w) ∷ d) = ground (arith, eq_iff k j, eq_iff i k, eq_iff i j, get-remove k j d)
