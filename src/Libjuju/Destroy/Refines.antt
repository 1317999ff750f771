-- ===== src/Libjuju/Destroy/Refines.antt =====
-- Operations of n2vc/libjuju.py as functions on the list of the models whose destruction has been
-- asked for, where every call succeeds.
use n2vc.Prelude.{◌≡◌, refl, ◌∙◌, Bool, true, false, List, if◌then◌else◌}
use n2vc.Prelude.Exec.{
  Result, ok, err, pure, continue, handled, finished, ended, ◌>>=◌, ◌catch◌, ◌finally◌,
}
use n2vc.Exception.{Exception}
use n2vc.Text.{Text}
use n2vc.Libjuju.Connection.{World, Lib}
use n2vc.Libjuju.Destroy.Asked.{asked}

-- The action returns what the function says, and asks for what it adds.
abbrev pub Meets : {A : Type 0} → A × List Text → Result Exception A × World → Type 0
Meets (b, l) (ok a, t) = (a ≡ b) × (asked t.history ≡ l)
Meets (b, l) (err x, t) = ⊥

pub record Refines {A : Type 0} (f : List Text → A × List Text) (m : Lib A) : Type 0 where
  pub at : (s : World) → Meets (f (asked s.history)) (m s)

abbrev pub Skipped : {A : Type 0} → World → Result Exception A × World → Type 0
Skipped s (ok a, t) = asked t.history ≡ asked s.history
Skipped s (err x, t) = ⊥

-- The action returns and asks for nothing.
pub record IsSkip {A : Type 0} (m : Lib A) : Type 0 where
  pub at : (s : World) → Skipped s (m s)

module _ {A B : Type 0} where
  pub bind-IsSkip :
      {m : Lib A} {f : A → Lib B} → IsSkip m → ((a : A) → IsSkip (f a)) → IsSkip (m >>= f)
  bind-IsSkip {m} {f} h k = record { at = λ s. go s (m s) (h.at s) }
    where
      then_skip :
          (s t : World) (r : Result Exception B × World)
          → asked t.history ≡ asked s.history
          → Skipped t r
          → Skipped s r
      then_skip s t (ok b, u) e e' = e' ∙ e
      then_skip s t (err x, u) e e' = absurd e'

      go : (s : World) (r : Result Exception A × World) → Skipped s r → Skipped s (continue r f)
      go s (ok a, t) e = then_skip s t (f a t) e ((k a).at t)
      go s (err x, t) e = absurd e

  pub skip-Refines :
      {m : Lib A} {f : A → Lib B} {g : List Text → B × List Text}
      → IsSkip m
      → ((a : A) → Refines g (f a))
      → Refines g (m >>= f)
  skip-Refines {m} {f} {g} h k = record { at = λ s. go s (m s) (h.at s) }
    where
      go :
          (s : World) (r : Result Exception A × World)
          → Skipped s r
          → Meets (g (asked s.history)) (continue r f)
      go s (ok a, t) e = rw (← e) ((k a).at t)
      go s (err x, t) e = absurd e

  pub bind-Refines :
      {m : Lib A} {k : A → Lib B} {f : List Text → A × List Text}
      (g : A → List Text → B × List Text)
      → Refines f m
      → ((a : A) → Refines (g a) (k a))
      → Refines (λ l. g (f l).0 (f l).1) (m >>= k)
  bind-Refines {m} {k} {f} g h j = record { at = λ s. go (f (asked s.history)) (m s) (h.at s) }
    where
      go :
          (b : A × List Text) (r : Result Exception A × World)
          → Meets b r
          → Meets (g b.0 b.1) (continue r k)
      go (b, l) (ok a, t) (e, e') = rw (← e, ← e') ((j a).at t)
      go (b, l) (err x, t) e = absurd e

module _ {A B : Type 0} where
  pub finally-Refines :
      {m : Lib A} {k : Lib B} {f : List Text → A × List Text}
      → Refines f m
      → IsSkip k
      → Refines f (m finally k)
  finally-Refines {m} {k} {f} h j = record { at = λ s. go (f (asked s.history)) (m s) (h.at s) }
    where
      last :
          (b : A × List Text) (a : A) (t : World) (r : Result Exception B × World)
          → a ≡ b.0
          → asked t.history ≡ b.1
          → Skipped t r
          → Meets b (ended (ok a) r)
      last (b, l) a t (ok x, u) e e' e'' = (e, e'' ∙ e')
      last (b, l) a t (err x, u) e e' e'' = absurd e''

      go : (b : A × List Text) (r : Result Exception A × World) → Meets b r → Meets b (finished r k)
      go (b, l) (ok a, t) (e, e') = last (b, l) a t (k t) e e' (j.at t)
      go (b, l) (err x, t) e = absurd e

module _ {A : Type 0} where
  pub pure-Refines : (a : A) → Refines (λ l. (a, l)) (pure a)
  pure-Refines a = record { at = λ s. (refl, refl) }

  pub pure-IsSkip : (a : A) → IsSkip (pure {S = World} a)
  pure-IsSkip a = record { at = λ s. refl }

  pub if-IsSkip : (b : Bool) {m n : Lib A} → IsSkip m → IsSkip n → IsSkip (if b then m else n)
  if-IsSkip true h k = h
  if-IsSkip false h k = k

  pub catch-IsSkip : {m : Lib A} (f : Exception → Lib A) → IsSkip m → IsSkip (m catch f)
  catch-IsSkip {m} f h = record { at = λ s. go s (m s) (h.at s) }
    where
      go : (s : World) (r : Result Exception A × World) → Skipped s r → Skipped s (handled r f)
      go s (ok a, t) e = e
      go s (err x, t) e = absurd e
