-- ===== src/Session/Exclusion.antt =====
-- Mutual exclusion of the connection and of the creation of models in n2vc/n2vc_juju_conn.py.
use n2vc.Prelude.{
  ℕ, ◌≡◌, refl, Bool, true, false, Option, none, some, List, arith, ◌==◌, if◌then◌else◌, inl, inr,
  Bool-cases,
}
use n2vc.Text.{Text}
use n2vc.Libjuju.Connection.{member}
use n2vc.Session.{
  Task, Session, System, Step, Reach, lookup, login, login_again, connected, get_model, listed,
  after_add, after_get, resume, is_free, moved, start, wait_or_list, here, next,
}
use n2vc.Session.Lock.{
  IsLocked, IsLocked-updated, updated, IsLocked-agree, IsLocked-free, Moves, same, takes, releases,
}

-- A task that waits for the controller to connect.
abbrev pub connects : Task → Bool
connects Task.login_connect = true
connects t = false

-- A task that looks for a model, or creates it.
abbrev pub creates : Task → Bool
creates (Task.model_list name) = true
creates (Task.model_add name) = true
creates (Task.model_get name) = true
creates t = false

-- A state that the tasks can be in together.
pub record IsExclusive (s : System) : Type 0 where
  pub login_lock : IsLocked s.session.connecting (λ i. connects (s.tasks i))
  pub model_lock : IsLocked s.session.creating_model (λ i. creates (s.tasks i))
  pub fresh : s.session.connecting ≡ true → s.session.authenticated ≡ false
  pub counted : s.session.connections ≡ (if s.session.authenticated then 1 else 0)

-- What the step of one task does to both locks, and to the connections.
record Fits (t : Task) (s : Session) (r : Session × Task) : Type 0 where
  login_moves : Moves (connects t) (connects r.1) s.connecting r.0.connecting
  model_moves : Moves (creates t) (creates r.1) s.creating_model r.0.creating_model
  stays_fresh : r.0.connecting ≡ true → r.0.authenticated ≡ false
  stays_counted : r.0.connections ≡ (if r.0.authenticated then 1 else 0)

if-Fits :
    (t : Task) (s : Session) (b : Bool) (r r' : Session × Task)
    → (b ≡ true → Fits t s r)
    → (b ≡ false → Fits t s r')
    → Fits t s (if b then r else r')
if-Fits t s true r r' h k = h refl
if-Fits t s false r r' h k = k refl

module _ (s : Session) (fresh : s.connecting ≡ true → s.authenticated ≡ false)
    (counted : s.connections ≡ (if s.authenticated then 1 else 0)) where
  stays-Fits : (t t' : Task) → connects t' ≡ connects t → creates t' ≡ creates t → Fits t s (s, t')
  stays-Fits t t' e e' = record {
    login_moves = same e refl;
    model_moves = same e' refl;
    stays_fresh = fresh;
    stays_counted = counted;
  }

  login_again-Fits : (t : Task) → connects t ≡ false → creates t ≡ false → Fits t s (login_again s)
  unfolding login_again
  login_again-Fits t e e' =
      if-Fits t s s.connecting _ _ (λ busy. stays-Fits t _ (rw e refl) (rw e' refl))
        (λ quiet.
          if-Fits t s s.authenticated _ _ (λ a. stays-Fits t _ (rw e refl) (rw e' refl))
            (λ n. record {
              login_moves = takes refl quiet refl;
              model_moves = same (rw e' refl) refl;
              stays_fresh = λ q. n;
              stays_counted = counted;
            }))

  login-Fits : (t : Task) → connects t ≡ false → creates t ≡ false → Fits t s (login s)
  unfolding login
  login-Fits t e e' =
      if-Fits t s s.authenticated _ _ (λ a. stays-Fits t _ (rw e refl) (rw e' refl))
        (λ n. login_again-Fits t e e')

  get_model-Fits :
      (name : Text) (t : Task)
      → connects t ≡ false
      → creates t ≡ false
      → Fits t s (get_model name s)
  unfolding get_model
  get_model-Fits name t e e' = go (lookup name s.juju_models)
    where
      absent : Fits t s (wait_or_list name s)
      absent =
          if-Fits t s s.creating_model _ _ (λ busy. stays-Fits t _ (rw e refl) (rw e' refl))
            (λ quiet. record {
              login_moves = same (rw e refl) refl;
              model_moves = takes refl quiet refl;
              stays_fresh = fresh;
              stays_counted = counted;
            })

      go :
          (o : Option Bool)
          → Fits t s (elim o [ some b ↦ (s, Task.model_got name b) | none ↦ wait_or_list name s ])
      go (some b) = stays-Fits t _ (rw e refl) (rw e' refl)
      go none = absent

  connected-Fits : (b : Bool) → s.connecting ≡ true → Fits Task.login_connect s (connected b s)
  unfolding connected
  connected-Fits true h = record {
    login_moves = releases refl refl refl;
    model_moves = same refl refl;
    stays_fresh = λ q. absurd (ground (arith, q));
    stays_counted = ground (arith, fresh h, counted);
  }
  connected-Fits false h = record {
    login_moves = releases refl refl refl;
    model_moves = same refl refl;
    stays_fresh = λ q. absurd (ground (arith, q));
    stays_counted = counted;
  }

  -- The step that ends the creation of a model.
  ends-Fits :
      (t t' : Task) (s' : Session)
      → connects t ≡ false
      → creates t ≡ true
      → connects t' ≡ false
      → creates t' ≡ false
      → s'.connecting ≡ s.connecting
      → s'.authenticated ≡ s.authenticated
      → s'.connections ≡ s.connections
      → s'.creating_model ≡ false
      → Fits t s (s', t')
  ends-Fits t t' s' e c e' c' p q r f = record {
    login_moves = same (rw e' (rw e refl)) p;
    model_moves = releases c c' f;
    stays_fresh = λ h. rw q (fresh (rw (← p) h));
    stays_counted = rw (q, r) counted;
  }

  resume-Fits :
      (t : Task) (returned created : Bool)
      → (connects t ≡ true → s.connecting ≡ true)
      → Fits t s (resume t returned created s)
  unfolding resume listed after_add after_get
  resume-Fits Task.login_wait r c h = login_again-Fits Task.login_wait refl refl
  resume-Fits Task.login_connect r c h = connected-Fits r (h refl)
  resume-Fits (Task.model_wait name) r c h = get_model-Fits name (Task.model_wait name) refl refl
  resume-Fits (Task.model_list name) true c h = elim (Bool-cases (member name s.remote)) [
    | inl there ↦ rw there (stays-Fits _ _ refl refl)
    | inr absent ↦ rw absent (stays-Fits _ _ refl refl)
  ]
  resume-Fits (Task.model_list name) false c h =
      ends-Fits _ _ _ refl refl refl refl refl refl refl refl
  resume-Fits (Task.model_add name) true c h =
      ends-Fits _ _ _ refl refl refl refl refl refl refl refl
  resume-Fits (Task.model_add name) false true h =
      ends-Fits _ _ _ refl refl refl refl refl refl refl refl
  resume-Fits (Task.model_add name) false false h =
      ends-Fits _ _ _ refl refl refl refl refl refl refl refl
  resume-Fits (Task.model_get name) true c h =
      ends-Fits _ _ _ refl refl refl refl refl refl refl refl
  resume-Fits (Task.model_get name) false c h =
      ends-Fits _ _ _ refl refl refl refl refl refl refl refl
  resume-Fits t r c h = stays-Fits t t refl refl

free-holds : (t : Task) → is_free t ≡ true → (connects t ≡ false) × (creates t ≡ false)
unfolding is_free
free-holds Task.login_wait h = absurd (ground arith)
free-holds Task.login_connect h = absurd (ground arith)
free-holds (Task.model_wait name) h = absurd (ground arith)
free-holds (Task.model_list name) h = absurd (ground arith)
free-holds (Task.model_add name) h = absurd (ground arith)
free-holds (Task.model_get name) h = absurd (ground arith)
free-holds t h = (refl, refl)

-- The holders are those of the step.
holds_moved :
    (holds : Task → Bool) (i j : ℕ) (t : Task) (tasks : ℕ → Task)
    → holds (if j == i then t else tasks j) ≡ updated i (holds t) (λ k. holds (tasks k)) j
holds_moved holds i j t tasks = go (j == i)
  where
    go : (b : Bool) → holds (if b then t else tasks j) ≡ (if b then holds t else holds (tasks j))
    go true = refl
    go false = refl

module _ {s : System} (h : IsExclusive s) where
  moved-IsExclusive :
      (i : ℕ) (r : Session × Task) → Fits (s.tasks i) s.session r → IsExclusive (moved i r s)
  moved-IsExclusive i (session, t) f = record {
    login_lock =
        IsLocked-agree _ _ _ (λ j. holds_moved connects i j t s.tasks)
          (IsLocked-updated _ _ _ _ i h.login_lock f.login_moves);
    model_lock =
        IsLocked-agree _ _ _ (λ j. holds_moved creates i j t s.tasks)
          (IsLocked-updated _ _ _ _ i h.model_lock f.model_moves);
    fresh = f.stays_fresh;
    counted = f.stays_counted;
  }

  Step-IsExclusive : {u : System} → Step s u → IsExclusive u
  Step-IsExclusive (Step.begin_login i free) =
      let (e, e') = free-holds (s.tasks i) free in
      moved-IsExclusive i _ (login-Fits s.session h.fresh h.counted (s.tasks i) e e')
  Step-IsExclusive (Step.begin_get_model i name free) =
      let (e, e') = free-holds (s.tasks i) free in
      moved-IsExclusive i _ (get_model-Fits s.session h.fresh h.counted name (s.tasks i) e e')
  Step-IsExclusive (Step.goes_on i returned created) = moved-IsExclusive i _ (
      resume-Fits s.session h.fresh h.counted (s.tasks i) returned created (h.login_lock.flagged i))

-- Whatever the tasks do in whatever order, at most one of them connects the controller and at most
-- one looks for or creates a model. Each flag is set exactly while such a task exists, so none stays
-- set; and there is one connection where the session is authenticated, and else none.
pub Reach-IsExclusive : {s t : System} → IsExclusive s → Reach s t → IsExclusive t
Reach-IsExclusive h here = h
Reach-IsExclusive h (next r st) = Step-IsExclusive (Reach-IsExclusive h r) st

pub start-IsExclusive : (remote : List Text) → IsExclusive (start remote)
start-IsExclusive remote = record {
  login_lock = IsLocked-free _ (λ i. refl);
  model_lock = IsLocked-free _ (λ i. refl);
  fresh = λ q. refl;
  counted = refl;
}
