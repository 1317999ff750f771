-- ===== src/K8sJuju/Deployment/Workdir.antt =====
-- The directory that `install` of n2vc/k8s_juju_conn.py changes to.
use n2vc.Prelude.{
  ◌≡◌, refl, ap, ℕ, Bool, true, false, ◌==◌, List, [], ◌∷◌, ◌++◌, if◌then◌else◌, arith, All,
}
use n2vc.Text.{Text, codes, starts_with}
use n2vc.Text.Split.{split, split_whole, Lacks, cons_head}
use n2vc.K8sJuju.Deployment.{is_one_of, lstrip, rstrip, kept, strip, last_part, new_workdir}

-- The parts of a path: at least two, and the last is what stands behind the last slash.
record Ends (base : Text) (parts : List Text) : Type 0 where
  first : Text
  second : Text
  rest : List Text
  whole : parts ≡ first ∷ second ∷ rest
  last : last_part (second ∷ rest) ≡ base

split-Ends : (p base : Text) → Lacks b'/' base → Ends base (split b'/' (p ++ b'/' ∷ base))
unfolding split
split-Ends [] base h = record {
  first = [];
  second = base;
  rest = [];
  whole = ap (λ r. [] ∷ r) (split_whole b'/' base h);
  last = unfold last_part in refl;
}
split-Ends (c ∷ p) base h = go (split-Ends p base h) (c == b'/')
  where
    go :
        {parts : List Text}
        → Ends base parts
        → (b : Bool) → Ends base (if b then [] ∷ parts else cons_head c parts)
    go e true = record {
      first = [];
      second = e.first;
      rest = e.second ∷ e.rest;
      whole = ap (λ r. [] ∷ r) e.whole;
      last = unfold last_part in e.last;
    }
    go e false = record {
      first = c ∷ e.first;
      second = e.second;
      rest = e.rest;
      whole = ap (cons_head c) e.whole;
      last = e.last;
    }

last_part-split :
    (p base : Text) → Lacks b'/' base → last_part (split b'/' (p ++ b'/' ∷ base)) ≡ base
unfolding last_part
last_part-split p base h = let e = split-Ends p base h in rw e.whole e.last

-- A character of a text is one of its characters.
one_of_more :
    (d : ℕ) (chars s : Text)
    → All (λ c. is_one_of chars c ≡ true) s
    → All (λ c. is_one_of (d ∷ chars) c ≡ true) s
unfolding is_one_of
one_of_more d chars [] h = tt
one_of_more d chars (c ∷ s) h = (ground (arith, h.0), one_of_more d chars s h.1)

one_of_itself : (s : Text) → All (λ c. is_one_of s c ≡ true) s
unfolding is_one_of
one_of_itself [] = tt
one_of_itself (c ∷ s) = (ground arith, one_of_more c s s (one_of_itself s))

rstrip_all : (chars s : Text) → All (λ c. is_one_of chars c ≡ true) s → rstrip chars s ≡ []
unfolding rstrip
rstrip_all chars [] h = refl
rstrip_all chars (c ∷ s) h = rw (rstrip_all chars s h.1) (rw h.0 refl)

not_one_of : (c : ℕ) (s : Text) → Lacks c s → is_one_of s c ≡ false
unfolding is_one_of
not_one_of c [] h = refl
not_one_of c (d ∷ s) h = ground (arith, not_one_of c s h.1, h.0)

kept-append : (chars : Text) (c d : ℕ) (p : Text) → kept chars c (p ++ d ∷ []) ≡ c ∷ p ++ d ∷ []
kept-append chars c d [] = refl
kept-append chars c d (e ∷ p) = refl

rstrip-append :
    (base : Text) → Lacks b'/' base → (p : Text) → rstrip base (p ++ b'/' ∷ base) ≡ p ++ b'/' ∷ []
unfolding rstrip
rstrip-append base h [] =
    rw (rstrip_all base base (one_of_itself base)) (rw (not_one_of b'/' base h) refl)
rstrip-append base h (c ∷ p) = rw (rstrip-append base h p) (kept-append base c b'/' p)

lstrip_absolute :
    (chars s : Text)
    → is_one_of chars b'/' ≡ false
    → starts_with (codes "/") s ≡ true
    → lstrip chars s ≡ s
unfolding lstrip starts_with
lstrip_absolute chars [] h a = refl
lstrip_absolute chars (c ∷ s) h a = go (is_one_of chars c) refl
  where
    go : (b : Bool) → is_one_of chars c ≡ b → (if b then lstrip chars s else c ∷ s) ≡ c ∷ s
    go true e = let q : c ≡ 47 = ground arith in cc (q, h, e)
    go false e = refl

-- For an absolute path to a bundle, `install` changes to exactly the directory that it stands in.
pub new_workdir_absolute :
    (p base : Text)
    → Lacks b'/' base
    → starts_with (codes "/") (p ++ b'/' ∷ base) ≡ true
    → new_workdir (p ++ b'/' ∷ base) ≡ p ++ b'/' ∷ []
unfolding new_workdir strip
new_workdir_absolute p base h a = rw (last_part-split p base h) (
    rw (lstrip_absolute base (p ++ b'/' ∷ base) (not_one_of b'/' base h) a)
      (rstrip-append base h p))
