-- ===== src/K8sJuju/Keeps.antt =====
-- Actions of n2vc/k8s_juju_conn.py that keep a property of the state, however they end: one rule for
-- each way to build an action. And what holds where an action returns.
use n2vc.Prelude.{Bool, true, false, Option, none, some, if◌then◌else◌}
use n2vc.Prelude.Exec.{Result, ok, err, pure, raise, continue, handled, ◌>>=◌, ◌catch◌}
use n2vc.Exception.{Exception}
use n2vc.K8sJuju.Host.{State, Op, gets, lift, or_raise}

pub record Keeps (P : State → Type 0) {A : Type 0} (m : Op A) : Type 0 where
  pub at : (s : State) → P s → P (m s).1

module _ {P : State → Type 0} {A : Type 0} where
  pub pure-Keeps : (a : A) → Keeps P (pure {S = State} a)
  pure-Keeps a = record { at = λ s h. h }

  pub raise-Keeps : (x : Exception) → Keeps P (raise {S = State} {A = A} x)
  raise-Keeps x = record { at = λ s h. h }

  pub gets-Keeps : (f : State → A) → Keeps P (gets f)
  gets-Keeps f = record { at = λ s h. h }

  pub lift-Keeps : (r : Result Exception A) → Keeps P (lift r)
  lift-Keeps r = record { at = λ s h. h }

  pub or_raise-Keeps : (x : Exception) (o : Option A) → Keeps P (or_raise x o)
  or_raise-Keeps x none = record { at = λ s h. h }
  or_raise-Keeps x (some a) = record { at = λ s h. h }

  pub if-Keeps : (b : Bool) {m n : Op A} → Keeps P m → Keeps P n → Keeps P (if b then m else n)
  if-Keeps true h k = h
  if-Keeps false h k = k

  pub catch-Keeps :
      {m : Op A} {f : Exception → Op A}
      → Keeps P m
      → ((x : Exception) → Keeps P (f x))
      → Keeps P (m catch f)
  catch-Keeps {m} {f} h k = record { at = λ s p. go (m s) (h.at s p) }
    where
      go : (r : Result Exception A × State) → P r.1 → P (handled r f).1
      go (ok a, t) p = p
      go (err x, t) p = (k x).at t p

module _ {P : State → Type 0} {A B : Type 0} where
  pub bind-Keeps :
      {m : Op A} {f : A → Op B} → Keeps P m → ((a : A) → Keeps P (f a)) → Keeps P (m >>= f)
  bind-Keeps {m} {f} h k = record { at = λ s p. go (m s) (h.at s p) }
    where
      go : (r : Result Exception A × State) → P r.1 → P (continue r f).1
      go (ok a, t) p = (k a).at t p
      go (err x, t) p = p

pub ruleset keeps_rules = (
  pure-Keeps, raise-Keeps, gets-Keeps, lift-Keeps, or_raise-Keeps, if-Keeps, catch-Keeps,
  bind-Keeps,
)

-- What holds of the value and the state where an action returns.
abbrev pub Ends : {A : Type 0} → (A → State → Type 0) → Result Exception A × State → Type 0
Ends Q (ok a, t) = Q a t
Ends Q (err x, t) = Unit

module _ {A B : Type 0} (Q : B → State → Type 0) where
  -- An action, and then another.
  pub bind-Ends :
      (r : Result Exception A × State) (f : A → Op B)
      → Ends (λ a t. Ends Q (f a t)) r
      → Ends Q (continue r f)
  bind-Ends (ok a, t) f h = h
  bind-Ends (err x, t) f h = tt

module _ {A : Type 0} where
  -- What holds of every return.
  pub Ends-all :
      (Q : A → State → Type 0) (r : Result Exception A × State) → ((a : A) → Q a r.1) → Ends Q r
  Ends-all Q (ok a, t) h = h a
  Ends-all Q (err x, t) h = tt

-- What an action keeps holds where it returns, and where the next one starts.
pub Keeps-Ends :
    {A B : Type 0} {P : State → Type 0} (Q : B → State → Type 0) {m : Op A} (f : A → Op B)
    → Keeps P m
    → (s : State) → P s
    → ((a : A) (t : State) → P t → Ends Q (f a t))
    → Ends Q ((m >>= f) s)
Keeps-Ends {A} {B} {P} Q {m} f k s p l = go (m s) (k.at s p)
  where
    go : (r : Result Exception A × State) → P r.1 → Ends Q (continue r f)
    go (ok a, t) p = l a t p
    go (err x, t) p = tt

-- What holds where an action returns is enough for the next one.
pub then_Ends :
    {A B : Type 0} {P : State → Type 0} (Q : B → State → Type 0) (r : Result Exception A × State)
    (f : A → Op B)
    → Ends (λ _. P) r
    → ((a : A) (t : State) → P t → Ends Q (f a t))
    → Ends Q (continue r f)
then_Ends Q (ok a, t) f p l = l a t p
then_Ends Q (err x, t) f p l = tt
