-- ===== src/Connector/Balance.antt =====
-- The connections that the operations of n2vc/n2vc_juju_conn.py leave open.
use n2vc.Prelude.{Bool, true, false, Option, none, some, List, [], ◌∷◌, if◌then◌else◌}
use n2vc.Prelude.Exec.{Exec, Result, ok, err, pure, raise, continue, handled, ◌>>=◌, ◌catch◌}
use n2vc.Exception.{Exception}
use n2vc.Text.{Text}
use n2vc.Database.{Answers, DbDict, Call}
use n2vc.Libjuju.Connection.{Lib}
use n2vc.Libjuju.Balance.{SameOpen, SameOpen-refl, SameOpen-trans, IsBalanced}
use n2vc.Connector.{
  State, Op, on_juju, on_db, or_raise, given, namespace_components, ee_id_components,
  valid_components, instead, write_ee_id,
}
use n2vc.Connector.Charms.{answer}

-- An action that leaves as many connections open as it found, however it ends.
pub record IsLevel {A : Type 0} (m : Op A) : Type 0 where
  pub at : (s : State) → SameOpen s.world (m s).1.world

module _ {A : Type 0} where
  pub pure-IsLevel : (a : A) → IsLevel (pure {S = State} a)
  pure-IsLevel a = record { at = λ s. SameOpen-refl s.world }

  pub raise-IsLevel : (x : Exception) → IsLevel (raise {S = State} {A = A} x)
  raise-IsLevel x = record { at = λ s. SameOpen-refl s.world }

  pub if-IsLevel : (b : Bool) {m n : Op A} → IsLevel m → IsLevel n → IsLevel (if b then m else n)
  if-IsLevel true h k = h
  if-IsLevel false h k = k

  pub catch-IsLevel :
      {m : Op A} {f : Exception → Op A}
      → IsLevel m
      → ((x : Exception) → IsLevel (f x))
      → IsLevel (m catch f)
  catch-IsLevel {m} {f} h k = record { at = λ s. go s (m s) (h.at s) }
    where
      go :
          (s : State) (r : Result Exception A × State)
          → SameOpen s.world r.1.world
          → SameOpen s.world (handled r f).1.world
      go s (ok a, t) e = e
      go s (err x, t) e = SameOpen-trans e ((k x).at t)

  pub on_juju-IsLevel : {m : Lib A} → IsBalanced m → IsLevel (on_juju m)
  unfolding on_juju
  on_juju-IsLevel h = record { at = λ s. h.at s.world }

  pub on_db-IsLevel : (m : Exec Exception (List Call) A) → IsLevel (on_db m)
  unfolding on_db
  on_db-IsLevel m = record { at = λ s. SameOpen-refl s.world }

  pub instead-IsLevel : (x y : Exception) → IsLevel (instead {A = A} x y)
  unfolding instead
  instead-IsLevel x y = raise-IsLevel x

  pub or_raise-IsLevel : (x : Exception) (o : Option A) → IsLevel (or_raise x o)
  or_raise-IsLevel x none = raise-IsLevel x
  or_raise-IsLevel x (some a) = pure-IsLevel a

  pub answer-IsLevel : (r : Result Exception A) → IsLevel (answer r)
  answer-IsLevel r = record { at = λ s. SameOpen-refl s.world }

module _ {A B : Type 0} where
  pub bind-IsLevel :
      {m : Op A} {f : A → Op B} → IsLevel m → ((a : A) → IsLevel (f a)) → IsLevel (m >>= f)
  bind-IsLevel {m} {f} h k = record { at = λ s. go s (m s) (h.at s) }
    where
      go :
          (s : State) (r : Result Exception A × State)
          → SameOpen s.world r.1.world
          → SameOpen s.world (continue r f).1.world
      go s (ok a, t) e = SameOpen-trans e ((k a).at t)
      go s (err x, t) e = e

pub given-IsLevel : (o : Option Text) → IsLevel (given o)
unfolding given
given-IsLevel none = raise-IsLevel _
given-IsLevel (some []) = raise-IsLevel _
given-IsLevel (some (c ∷ s)) = pure-IsLevel (c ∷ s)

pub write_ee_id-IsLevel :
    (answers : Answers) (db_dict : Option DbDict) (ee_id : Text)
    → IsLevel (write_ee_id answers db_dict ee_id)
unfolding write_ee_id
write_ee_id-IsLevel answers none ee_id = record { at = λ s. SameOpen-refl s.world }
write_ee_id-IsLevel answers (some d) ee_id = on_db-IsLevel _

pub namespace_components-IsLevel :
    (namespace : Option Text) → IsLevel (namespace_components namespace)
unfolding namespace_components
namespace_components-IsLevel namespace = or_raise-IsLevel _ _

pub ee_id_components-IsLevel : (ee_id : Option Text) → IsLevel (ee_id_components ee_id)
unfolding ee_id_components
ee_id_components-IsLevel ee_id = or_raise-IsLevel _ _

pub valid_components-IsLevel : (ee_id : Text) → IsLevel (valid_components ee_id)
unfolding valid_components
valid_components-IsLevel ee_id =
    catch-IsLevel (ee_id_components-IsLevel (some ee_id)) (instead-IsLevel _)

pub ruleset level_rules = (
  pure-IsLevel, raise-IsLevel, if-IsLevel, bind-IsLevel, catch-IsLevel, on_juju-IsLevel,
  instead-IsLevel, or_raise-IsLevel, answer-IsLevel, given-IsLevel, write_ee_id-IsLevel,
  namespace_components-IsLevel, ee_id_components-IsLevel, valid_components-IsLevel,
)
