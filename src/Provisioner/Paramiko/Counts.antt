-- ===== src/Provisioner/Paramiko/Counts.antt =====
-- How many steps of some kind the actions of `SSHProvisioner` in n2vc/provisioner.py take: `Adds` says
-- it of every end of an action, `Gives` of those where it returns.
use n2vc.Prelude.{◌≡◌, refl, ℕ, ◌+◌, none, some, List, [], ◌∷◌, ◌++◌, Option, arith}
use n2vc.Prelude.Exec.{
  Result, ok, err, pure, raise, continue, handled, ended, finished, ◌>>=◌, ◌catch◌, ◌finally◌,
}
use n2vc.Exception.{Exception}
use n2vc.Provisioner.Paramiko.{Failure, Step, State, Op, or_raise, lift}

unfoldable pub total : (Step → ℕ) → List Step → ℕ
total w [] = 0
total w (e ∷ h) = w e + total w h

pub total-snoc : (w : Step → ℕ) (h : List Step) (e : Step) → total w (h ++ e ∷ []) ≡ total w h + w e
unfolding total
total-snoc w [] e = omega arith
total-snoc w (d ∷ h) e = omega (arith, total-snoc w h e)

pub record Adds (w : Step → ℕ) (k : ℕ) {A : Type 0} (m : Op A) : Type 0 where
  pub at : (s : State) → total w (m s).1.history ≡ total w s.history + k

abbrev pub Returning :
    (w : Step → ℕ) (k : ℕ) (s : State) {A : Type 0} → Result Failure A × State → Type 0
Returning w k s (ok a, t) = total w t.history ≡ total w s.history + k
Returning w k s (err x, t) = Unit

pub record Gives (w : Step → ℕ) (k : ℕ) {A : Type 0} (m : Op A) : Type 0 where
  pub at : (s : State) → Returning w k s (m s)

unchanged : (w : Step → ℕ) (s : State) → total w s.history ≡ total w s.history + 0
unchanged w s = omega arith

module _ {w : Step → ℕ} {A : Type 0} where
  pub pure-Adds : (a : A) → Adds w 0 (pure {S = State} a)
  pure-Adds a = record { at = λ s. unchanged w s }

  pub raise-Adds : (x : Failure) → Adds w 0 (raise {S = State} {A = A} x)
  raise-Adds x = record { at = λ s. unchanged w s }

  pub lift-Adds : (r : Result Exception A) → Adds w 0 (lift r)
  lift-Adds (ok a) = pure-Adds a
  lift-Adds (err x) = record { at = λ s. unchanged w s }

  pub or_raise-Adds : (x : Exception) (o : Option A) → Adds w 0 (or_raise x o)
  or_raise-Adds x none = record { at = λ s. unchanged w s }
  or_raise-Adds x (some a) = pure-Adds a

  pub catch-Adds :
      {m : Op A} {f : Failure → Op A}
      → Adds w 0 m
      → ((x : Failure) → Adds w 0 (f x))
      → Adds w 0 (m catch f)
  catch-Adds {m} {f} h k = record { at = λ s. go s (m s) (h.at s) }
    where
      go :
          (s : State) (r : Result Failure A × State)
          → total w r.1.history ≡ total w s.history + 0
          → total w (handled r f).1.history ≡ total w s.history + 0
      go s (ok a, t) e = e
      go s (err x, t) e = omega (arith, e, (k x).at t)

  pub Adds-Gives : {k : ℕ} {m : Op A} → Adds w k m → Gives w k m
  Adds-Gives {k} {m} h = record { at = λ s. go s (m s) (h.at s) }
    where
      go :
          (s : State) (r : Result Failure A × State)
          → total w r.1.history ≡ total w s.history + k
          → Returning w k s r
      go s (ok a, t) e = e
      go s (err x, t) e = tt

  pub renamed-Gives :
      {k : ℕ} {m : Op A} (f : Failure → Failure)
      → Gives w k m
      → Gives w k (m catch λ x. raise (f x))
  renamed-Gives {k} {m} f h = record { at = λ s. go s (m s) (h.at s) }
    where
      go :
          (s : State) (r : Result Failure A × State)
          → Returning w k s r
          → Returning w k s (handled r (λ x. raise (f x)))
      go s (ok a, t) e = e
      go s (err x, t) e = tt

module _ {A B : Type 0} where
  state-ended : (r : Result Failure A) (q : Result Failure B × State) → (ended r q).1 ≡ q.1
  state-ended r (ok b, t) = refl
  state-ended r (err x, t) = refl

module _ {w : Step → ℕ} {A B : Type 0} where
  pub bind-Adds :
      {m : Op A} {f : A → Op B} → Adds w 0 m → ((a : A) → Adds w 0 (f a)) → Adds w 0 (m >>= f)
  bind-Adds {m} {f} h k = record { at = λ s. go s (m s) (h.at s) }
    where
      go :
          (s : State) (r : Result Failure A × State)
          → total w r.1.history ≡ total w s.history + 0
          → total w (continue r f).1.history ≡ total w s.history + 0
      go s (ok a, t) e = omega (arith, e, (k a).at t)
      go s (err x, t) e = e

  pub bind-Gives :
      {i j : ℕ} {m : Op A} {f : A → Op B}
      → Gives w i m
      → ((a : A) → Gives w j (f a))
      → Gives w (i + j) (m >>= f)
  bind-Gives {i} {j} {m} {f} h k = record { at = λ s. go s (m s) (h.at s) }
    where
      then_Returning :
          (s t : State)
          → total w t.history ≡ total w s.history + i
          → (r : Result Failure B × State) → Returning w j t r
          → Returning w (i + j) s r
      then_Returning s t e (ok b, v) d = omega (arith, e, d)
      then_Returning s t e (err x, v) d = tt

      go :
          (s : State) (r : Result Failure A × State)
          → Returning w i s r
          → Returning w (i + j) s (continue r f)
      go s (ok a, t) e = then_Returning s t e (f a t) ((k a).at t)
      go s (err x, t) e = tt

  pub finally-Adds :
      {k : ℕ} {m : Op A} {c : Op B} → Adds w 0 m → Adds w k c → Adds w k (m finally c)
  finally-Adds {k} {m} {c} h g = record { at = λ s. go s (m s) (h.at s) }
    where
      go :
          (s : State) (r : Result Failure A × State)
          → total w r.1.history ≡ total w s.history + 0
          → total w (finished r c).1.history ≡ total w s.history + k
      go s (q, t) e = rw (state-ended q (c t)) (omega (arith, e, g.at t))

  pub finally-Gives :
      {i j : ℕ} {m : Op A} {c : Op B} → Gives w i m → Gives w j c → Gives w (i + j) (m finally c)
  finally-Gives {i} {j} {m} {c} h g = record { at = λ s. go s (m s) (h.at s) }
    where
      cleaned :
          (s t : State) (a : A)
          → total w t.history ≡ total w s.history + i
          → (r : Result Failure B × State) → Returning w j t r
          → Returning w (i + j) s (ended {A = A} (ok a) r)
      cleaned s t a e (ok b, v) d = omega (arith, e, d)
      cleaned s t a e (err x, v) d = tt

      failed :
          (s : State) (x : Failure) (r : Result Failure B × State)
          → Returning w (i + j) s (ended {A = A} (err x) r)
      failed s x (ok b, v) = tt
      failed s x (err y, v) = tt

      go :
          (s : State) (r : Result Failure A × State)
          → Returning w i s r
          → Returning w (i + j) s (finished r c)
      go s (ok a, t) e = cleaned s t a e (c t) (g.at t)
      go s (err x, t) e = failed s x (c t)

zero-add : (k : ℕ) → 0 + k ≡ k
zero-add k = omega arith

-- After an action that takes no such step.
pub then-Gives :
    {w : Step → ℕ} {A B : Type 0} {k : ℕ} {m : Op A} {f : A → Op B}
    → Adds w 0 m
    → ((a : A) → Gives w k (f a))
    → Gives w k (m >>= f)
then-Gives {k = k} h g = rw (zero-add k) at (bind-Gives (Adds-Gives h) g)
