-- ===== src/Session.antt =====
-- The connection that n2vc/n2vc_juju_conn.py keeps itself: `_juju_login`, `_juju_get_model` and
-- `_juju_disconnect_model`, run by tasks that give up control at each `await`.
--
-- A task runs alone between two awaits, so each function here is the code from one await to the
-- next. The flags `_connecting` and `_creating_model` are the only locks: a task that finds one set
-- sleeps and looks again.
pub mod Lock
pub mod Exclusion
pub mod Once
pub mod Logout
use n2vc.Prelude.{
  ℕ, ◌+◌, ◌==◌, Bool, true, false, Option, none, some, List, [], ◌∷◌, if◌then◌else◌, ◌≡◌,
}
use n2vc.Text.{Text, text_eq}
use n2vc.Libjuju.Connection.{member}

-- Where a task is: at no await of these methods, or at one of them. A name is that of the model
-- that it asks for, as `_format_model_name` writes it.
pub data Task : Type 0 where
  -- between two calls; after a call that returned or raised
  idle login_done login_failed : Task
  model_got : Text → Bool → Task
  model_failed : Text → Task
  -- asyncio.sleep in `while self._connecting`; controller.connect
  login_wait login_connect : Task
  -- asyncio.sleep in `while self._creating_model`; list_models, add_model, get_model
  model_wait model_list model_add model_get : Text → Task

-- The attributes of the object, with `juju_models` as the names that are its keys, each with whether
-- its value is a model or None; the models that the controller has; the number of connections made;
-- and the models that were added.
pub record Session : Type 0 where
  pub authenticated : Bool
  pub connecting : Bool
  pub creating_model : Bool
  pub juju_models : List (Text × Bool)
  pub remote : List Text
  pub connections : ℕ
  pub added : List Text

-- The value under a key, the latest first.
unfoldable pub lookup : Text → List (Text × Bool) → Option Bool
unfolding text_eq
lookup name [] = none
lookup name ((n, b) ∷ rest) = if text_eq name n then some b else lookup name rest

-- `_juju_login`, after the waiting: connect if no other task has
unfoldable pub login_again : Session → Session × Task
login_again s =
    if s.connecting
    then (s, login_wait)
    else if s.authenticated
    then (s, login_done)
    else (record s { connecting = true }, login_connect)

-- `_juju_login`
unfoldable pub login : Session → Session × Task
unfolding login_again
login s = if s.authenticated then (s, login_done) else login_again s

-- After controller.connect: whether it returned.
unfoldable pub connected : Bool → Session → Session × Task
connected true s = (
  record s { authenticated = true; connecting = false; connections = s.connections + 1 },
  login_done,
)
connected false s = (record s { connecting = false }, login_failed)

-- `while self._creating_model`, or list the models
abbrev pub wait_or_list : Text → Session → Session × Task
wait_or_list name s =
    if s.creating_model
    then (s, model_wait name)
    else (record s { creating_model = true }, model_list name)

-- `_juju_get_model`, from its beginning or after a sleep
unfoldable pub get_model : Text → Session → Session × Task
unfolding lookup
get_model name s = elim (lookup name s.juju_models) [
  | some b ↦ (s, model_got name b)
  | none ↦ wait_or_list name s
]

-- The `finally` block, after an exception.
abbrev pub given_up : Text → Session → Session × Task
given_up name s = (record s { creating_model = false }, model_failed name)

-- After controller.list_models.
unfoldable pub listed : Bool → Text → Session → Session × Task
unfolding member
listed true name s = if member name s.remote then (s, model_get name) else (s, model_add name)
listed false name s = given_up name s

abbrev pub kept : Text → Session → Session × Task
kept name s = (
  record s { creating_model = false; juju_models = (name, true) ∷ s.juju_models },
  model_got name true,
)

abbrev pub with_added : Text → Session → Session
with_added name s = record s { remote = name ∷ s.remote; added = name ∷ s.added }

-- After controller.add_model; where it raised, whether the model was created all the same.
unfoldable pub after_add : Bool → Bool → Text → Session → Session × Task
after_add true created name s = kept name (with_added name s)
after_add false true name s = given_up name (with_added name s)
after_add false false name s = given_up name s

-- After controller.get_model.
unfoldable pub after_get : Bool → Text → Session → Session × Task
after_get true name s = kept name s
after_get false name s = given_up name s

-- A task goes on after its await, with the answer of the call.
unfoldable pub resume : Task → Bool → Bool → Session → Session × Task
unfolding login_again connected get_model listed after_add after_get
resume login_wait returned created s = login_again s
resume login_connect returned created s = connected returned s
resume (model_wait name) returned created s = get_model name s
resume (model_list name) returned created s = listed returned name s
resume (model_add name) returned created s = after_add returned created name s
resume (model_get name) returned created s = after_get returned name s
resume t returned created s = (s, t)

-- Whether a task is at no await.
unfoldable pub is_free : Task → Bool
is_free login_wait = false
is_free login_connect = false
is_free (model_wait name) = false
is_free (model_list name) = false
is_free (model_add name) = false
is_free (model_get name) = false
is_free t = true

pub record System : Type 0 where
  pub session : Session
  pub tasks : ℕ → Task

-- The task with the number has moved.
abbrev pub moved : ℕ → Session × Task → System → System
moved i (session, t) s = record { session = session; tasks = λ j. if j == i then t else s.tasks j }

pub data Step (s : System) : System → Type 0 where
  begin_login : (i : ℕ) → is_free (s.tasks i) ≡ true → Step s (moved i (login s.session) s)
  begin_get_model :
      (i : ℕ) (name : Text)
      → is_free (s.tasks i) ≡ true
      → Step s (moved i (get_model name s.session) s)
  goes_on :
      (i : ℕ) (returned created : Bool)
      → Step s (moved i (resume (s.tasks i) returned created s.session) s)

pub data Reach (s : System) : System → Type 0 where
  here : Reach s s
  next : {t u : System} → Reach s t → Step t u → Reach s u

-- Nothing is connected or asked for yet; the controller may have models.
abbrev pub start : List Text → System
start remote = record {
  session = record {
    authenticated = false;
    connecting = false;
    creating_model = false;
    juju_models = [];
    remote = remote;
    connections = 0;
    added = [];
  };
  tasks = λ i. idle;
}
