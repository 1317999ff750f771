-- ===== src/Libjuju/Balance.antt =====
-- Actions that leave as many connections open as they found, and actions that are not cancelled:
-- one rule for each way to build an action.
use n2vc.Prelude.{
  ap, Option, some, ◌≢◌, refl, true, false, none, if◌then◌else◌, arith, Bool, ◌∙◌, ◌≡◌, List,
}
use n2vc.Prelude.Exec.{Result, ok, err, pure, raise, continue, handled, ◌>>=◌, ◌catch◌}
use n2vc.Exception.{Exception}
use n2vc.Libjuju.Connection.{
  ends, Juju, World, Lib, Event, call, call_names, call_text, call_flag, result_text, started,
}

-- The numbers of open connections of two states are the same.
pub record SameOpen (s t : World) : Type 0 where
  pub controllers : t.open_controllers ≡ s.open_controllers
  pub models : t.open_models ≡ s.open_models

-- An action that leaves as many connections open as it found, however it ends.
pub record IsBalanced {A : Type 0} (m : Lib A) : Type 0 where
  pub at : (s : World) → SameOpen s (m s).1

pub SameOpen-refl : (s : World) → SameOpen s s
SameOpen-refl s = record { controllers = refl; models = refl }

pub SameOpen-trans : {s t u : World} → SameOpen s t → SameOpen t u → SameOpen s u
SameOpen-trans h k = record {
  controllers = k.controllers ∙ h.controllers;
  models = k.models ∙ h.models;
}

module _ {A : Type 0} where
  pub pure-IsBalanced : (a : A) → IsBalanced (pure {S = World} a)
  pure-IsBalanced a = record { at = SameOpen-refl }

  pub raise-IsBalanced : (x : Exception) → IsBalanced (raise {S = World} {A = A} x)
  raise-IsBalanced x = record { at = SameOpen-refl }

  pub if-IsBalanced :
      (b : Bool) {m n : Lib A} → IsBalanced m → IsBalanced n → IsBalanced (if b then m else n)
  if-IsBalanced true h k = h
  if-IsBalanced false h k = k

module _ {A B : Type 0} where
  pub bind-IsBalanced :
      {m : Lib A} {f : A → Lib B}
      → IsBalanced m
      → ((a : A) → IsBalanced (f a))
      → IsBalanced (m >>= f)
  bind-IsBalanced {m} {f} h k = record { at = λ s. go s (m s) (h.at s) }
    where
      go :
          (s : World) (r : Result Exception A × World)
          → SameOpen s r.1
          → SameOpen s (continue r f).1
      go s (ok a, t) e = SameOpen-trans e ((k a).at t)
      go s (err x, t) e = e

module _ {A : Type 0} where
  pub catch-IsBalanced :
      {m : Lib A} {f : Exception → Lib A}
      → IsBalanced m
      → ((x : Exception) → IsBalanced (f x))
      → IsBalanced (m catch f)
  catch-IsBalanced {m} {f} h k = record { at = λ s. go s (m s) (h.at s) }
    where
      go :
          (s : World) (r : Result Exception A × World) → SameOpen s r.1 → SameOpen s (handled r f).1
      go s (ok a, t) e = e
      go s (err x, t) e = SameOpen-trans e ((k x).at t)

module _ (juju : Juju) where
  pub call-IsBalanced : (e : Event) → IsBalanced (call juju e)
  unfolding call
  call-IsBalanced e = record { at = λ s. ground arith }

  pub call_names-IsBalanced : (e : Event) → IsBalanced (call_names juju e)
  unfolding call_names
  call_names-IsBalanced e = record { at = λ s. ground arith }

  pub call_text-IsBalanced : (e : Event) → IsBalanced (call_text juju e)
  unfolding call_text
  call_text-IsBalanced e = record { at = λ s. ground arith }

  pub call_flag-IsBalanced : (e : Event) → IsBalanced (call_flag juju e)
  unfolding call_flag
  call_flag-IsBalanced e = record { at = λ s. ground arith }

pub result_text-IsBalanced : (juju : Juju) (e : Event) → IsBalanced (result_text juju e)
unfolding result_text
result_text-IsBalanced juju e = record { at = SameOpen-refl }

pub started-IsBalanced : (e : Event) → IsBalanced (started e)
unfolding started
started-IsBalanced e = record { at = λ s. record { controllers = refl; models = refl } }

pub ruleset balanced_rules = (
  pure-IsBalanced, raise-IsBalanced, if-IsBalanced, bind-IsBalanced, catch-IsBalanced,
  call-IsBalanced, call_names-IsBalanced, call_text-IsBalanced, call_flag-IsBalanced,
  result_text-IsBalanced, started-IsBalanced,
)

-- An action that does not end in CancelledError.
pub record IsUncancelled {A : Type 0} (m : Lib A) : Type 0 where
  pub at : (s : World) → (m s).0 ≢ err Exception.cancelled

module _ {A B : Type 0} where
  pub bind-IsUncancelled :
      {m : Lib A} {f : A → Lib B}
      → IsUncancelled m
      → ((a : A) → IsUncancelled (f a))
      → IsUncancelled (m >>= f)
  bind-IsUncancelled {m} {f} h k = record { at = λ s. go (m s) (h.at s) }
    where
      go :
          (r : Result Exception A × World)
          → r.0 ≢ err Exception.cancelled
          → (continue r f).0 ≢ err Exception.cancelled
      go (ok a, t) e q = (k a).at t q
      go (err x, t) e q = e (ground arith)

module _ {A : Type 0} where
  pub catch-IsUncancelled :
      {m : Lib A} {f : Exception → Lib A}
      → ((x : Exception) → x ≢ Exception.cancelled → IsUncancelled (f x))
      → IsUncancelled m
      → IsUncancelled (m catch f)
  catch-IsUncancelled {m} {f} k h = record { at = λ s. go (m s) (h.at s) }
    where
      go :
          (r : Result Exception A × World)
          → r.0 ≢ err Exception.cancelled
          → (handled r f).0 ≢ err Exception.cancelled
      go (ok a, t) e q = ground arith
      go (err x, t) e q = (k x (λ i. e (ap err i))).at t q

  pub pure-IsUncancelled : (a : A) → IsUncancelled (pure {S = World} a)
  pure-IsUncancelled a = record { at = λ s q. ground arith }

  pub raise-IsUncancelled :
      (x : Exception) → x ≢ Exception.cancelled → IsUncancelled (raise {S = World} {A = A} x)
  raise-IsUncancelled x n = record { at = λ s q. n (ground arith) }

  pub if-IsUncancelled :
      (b : Bool) {m n : Lib A}
      → IsUncancelled m
      → IsUncancelled n
      → IsUncancelled (if b then m else n)
  if-IsUncancelled true h k = h
  if-IsUncancelled false h k = k

module _ (juju : Juju)
    (calm : (h : List Event) (e : Event) → juju.fails h e ≢ some Exception.cancelled) where
  ends-ne-cancelled :
      {A : Type 0} (o : Option Exception) (a : A)
      → o ≢ some Exception.cancelled
      → ends o a ≢ err Exception.cancelled
  ends-ne-cancelled none a n q = ground arith
  ends-ne-cancelled (some x) a n q = n (cc)

  pub call-IsUncancelled : (e : Event) → IsUncancelled (call juju e)
  unfolding call
  call-IsUncancelled e = record { at = λ s. ends-ne-cancelled _ _ (calm s.history e) }

  pub call_names-IsUncancelled : (e : Event) → IsUncancelled (call_names juju e)
  unfolding call_names
  call_names-IsUncancelled e = record { at = λ s. ends-ne-cancelled _ _ (calm s.history e) }

  pub call_flag-IsUncancelled : (e : Event) → IsUncancelled (call_flag juju e)
  unfolding call_flag
  call_flag-IsUncancelled e = record { at = λ s. ends-ne-cancelled _ _ (calm s.history e) }

pub ruleset uncancelled_rules = (
  pure-IsUncancelled, if-IsUncancelled, bind-IsUncancelled, call-IsUncancelled,
  call_names-IsUncancelled, call_flag-IsUncancelled,
)
