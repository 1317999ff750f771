-- ===== src/Libjuju/Member.antt =====
-- Python's `in` on lists of names, as n2vc/libjuju.py uses it.
use n2vc.Prelude.{
  ◌≡◌, refl, ◌∙◌, Bool, true, false, ◌||◌, ◌&&◌, List, [], ◌∷◌, ◌++◌, if◌then◌else◌, keep, arith,
  inl, inr, Bool-cases,
}
use n2vc.Text.{Text, text_eq, text_eq_iff}
use n2vc.Libjuju.Connection.{member}

pub member_self : (m : Text) (ms : List Text) → member m (m ∷ ms) ≡ true
unfolding member
member_self m ms = rw ((text_eq_iff m m).1 refl)

pub member-append :
    (m : Text) (xs ys : List Text) → member m (xs ++ ys) ≡ member m xs || member m ys
unfolding member
member-append m [] ys = refl
member-append m (x ∷ xs) ys = ground (arith, member-append m xs ys)

pub member-keep :
    (m : Text) (p : Text → Bool) (xs : List Text) → member m (keep p xs) ≡ p m && member m xs
unfolding member
member-keep m p [] = ground arith
member-keep m p (x ∷ xs) = elim (Bool-cases (text_eq m x)) [
  | inl e ↦ elim (Bool-cases (p x)) [
    | inl here ↦
        let same : m ≡ x = (text_eq_iff m x).0 e in
        let kept : p m ≡ true = rw same here in rw (here, e, kept)
    | inr away ↦
        let same : m ≡ x = (text_eq_iff m x).0 e in
        let lost : p m ≡ false = rw same away in rw (away, e, lost) (member-keep m p xs ∙ rw lost)
  ]
  | inr n ↦ elim (Bool-cases (p x)) [
    | inl here ↦ rw (here, n) (member-keep m p xs)
    | inr away ↦ rw (away, n) (member-keep m p xs)
  ]
]

-- Two tests that agree on the names of a list keep the same names.
pub keep_agree :
    (p q : Text → Bool) (xs : List Text)
    → ((m : Text) → member m xs ≡ true → p m ≡ q m)
    → keep p xs ≡ keep q xs
unfolding member
keep_agree p q [] h = refl
keep_agree p q (x ∷ xs) h =
    let first : p x ≡ q x = h x (rw ((text_eq_iff x x).1 refl)) in
    let rest : keep p xs ≡ keep q xs = keep_agree p q xs (λ m k. h m (later m k)) in
    rw (first, rest)
  where
    later : (m : Text) → member m xs ≡ true → (if text_eq m x then true else member m xs) ≡ true
    later m k = ground (arith, k)

pub keep-keep :
    (p q : Text → Bool) (xs : List Text) → keep p (keep q xs) ≡ keep (λ m. q m && p m) xs
keep-keep p q [] = refl
keep-keep p q (x ∷ xs) = ground (arith, keep-keep p q xs)
