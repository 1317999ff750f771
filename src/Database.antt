-- ===== src/Database.antt =====
-- What the connectors write to the database: `write_app_status_to_db` of n2vc/n2vc_conn.py and of
-- n2vc/k8s_conn.py. The database and the callback are not part of the program: they answer each
-- call as an `Answers` says.
pub mod N2vc
pub mod K8s
use n2vc.Prelude.{
  arith, ap, refl, ◌≢◌, inl, inr, Bool-cases, ℕ, String, ◌≡◌, Bool, true, false, List, [], ◌∷◌,
  ◌++◌, Option, none, some, if◌then◌else◌, ◌==◌,
}
use mathlib.Core.Option
use n2vc.Prelude.Exec.{Exec, Result, ok, err, pure, raise, ◌>>=◌, ◌>>◌, ◌catch◌}
use n2vc.Exception.{Exception, db_exception, key_error, index_error}
use n2vc.Status.{DeploymentStatus, status_value}
use n2vc.Text.{Text, codes}

-- A `db_dict` that is not empty: what it has under "collection", "filter" and "path".
pub record DbDict : Type 0 where
  pub collection : Option String
  pub filter : Option String
  pub path : Option Text

-- An `update_dict`, with the table and the filter.
pub record Update : Type 0 where
  pub table : String
  pub q_filter : String
  pub the_path : Text
  pub update_dict : List (Text × Text)

pub data Call : Type 0 where
  -- self.db.set_one(..., fail_on_empty=True)
  set_one : Update → Call
  -- self.on_update_db(...)
  on_update_db : Update → Call

-- The exception that a call ends in, if any, after the calls made before.
abbrev pub Answers : Type 0
Answers = List Call → Call → Option Exception

abbrev answered : Option Exception → Result Exception (Unit {0})
answered none = ok tt
answered (some e) = err e

-- One call: it is recorded, and answered.
unfoldable pub call : Answers → Call → Exec Exception (List Call) (Unit {0})
call env c calls = (answered (env calls c), calls ++ c ∷ [])

-- d[key]
unfoldable pub item : {A S : Type 0} → Option A → Exec Exception S A
item none = raise key_error
item (some a) = pure a

-- `if not the_path[-1] == ".": the_path = the_path + "."`; an empty path has no last character.
unfoldable pub dotted : Text → Option Text
dotted [] = none
dotted (c ∷ []) = some (if c == b'.' then c ∷ [] else c ∷ b'.' ∷ [])
dotted (c ∷ d ∷ s) = Option.map (λ t. c ∷ t) (dotted (d ∷ s))

unfoldable pub with_dot : {S : Type 0} → Text → Exec Exception S Text
with_dot path = elim (dotted path) [ none ↦ raise index_error | some t ↦ pure t ]

-- The parts of the `db_dict`, read in the order of the code.
unfoldable pub target : {S : Type 0} → DbDict → Exec Exception S (String × String × Text)
unfolding item with_dot
target db_dict = do
  the_table ← item db_dict.collection
  the_filter ← item db_dict.filter
  path ← item db_dict.path
  the_path ← with_dot path
  pure (the_table, the_filter, the_path)

-- `set_one`, and then the callback if there is one
unfoldable pub store : Answers → Bool → Update → Exec Exception (List Call) (Unit {0})
unfolding call
store env has_callback u = do
  call env (set_one u)
  (if has_callback then call env (on_update_db u) else pure tt)

dotted-cons :
    (c : ℕ) (o : Option Text) (t : Text)
    → Option.map (λ s. c ∷ s) o ≡ some t
    → (s : Text) × (o ≡ some s) × (t ≡ c ∷ s)
dotted-cons c none t h = cc
dotted-cons c (some s) t h = (s, refl, ground arith)

dotted_again : (c : ℕ) (s : Text) → s ≢ [] → dotted s ≡ some s → dotted (c ∷ s) ≡ some (c ∷ s)
unfolding dotted
dotted_again c [] n h = absurd (n refl)
dotted_again c (d ∷ s) n h = ap (Option.map (λ t. c ∷ t)) h

dotted-ne-nil : (s t : Text) → dotted s ≡ some t → t ≢ []
unfolding dotted
dotted-ne-nil [] t h e = cc
dotted-ne-nil (c ∷ []) t h e = ground arith
dotted-ne-nil (c ∷ d ∷ s) t h e =
    let (s', _, e') = dotted-cons c (dotted (d ∷ s)) t h in ground arith

-- A path that ends in a dot already is left alone.
pub dotted-dotted : (s t : Text) → dotted s ≡ some t → dotted t ≡ some t
unfolding dotted
dotted-dotted [] t h = cc
dotted-dotted (c ∷ []) t h = elim (Bool-cases (c == b'.')) [
  | inl e ↦ let e' : t ≡ c ∷ [] = ground arith in rw (e', e)
  | inr e ↦ let e' : t ≡ c ∷ b'.' ∷ [] = ground arith in rw e'
]
dotted-dotted (c ∷ d ∷ s) t h =
    let (t', e, e') = dotted-cons c (dotted (d ∷ s)) t h in
    rw e' (dotted_again c t' (dotted-ne-nil (d ∷ s) t' e) (dotted-dotted (d ∷ s) t' e))
