-- ===== src/K8sJuju/Host.antt =====
-- What n2vc/k8s_juju_conn.py keeps and calls: the attributes of a `K8sJujuConnector`, the files of its
-- clusters, and the calls of juju's library, of its command line and of the operating system, which a
-- `Host` answers.
use n2vc.Prelude.{ℕ, ◌+◌, ◌-◌, Bool, Option, none, some, List, [], ◌∷◌, ◌++◌, if◌then◌else◌}
use n2vc.Prelude.Exec.{Exec, Result, ok, err, pure, raise}
use n2vc.Exception.{Exception}
use n2vc.Text.{Text, codes, starts_with}

pub data Event : Type 0 where
  -- a program with its arguments
  run : List Text → Event
  write_file read_file change_dir : Text → Event
  -- juju.controller.Controller; `add_model` has the key that is authorized, if there is one
  connect disconnect_controller list_models : Event
  add_model : Text → Option Text → Event
  get_model destroy_model destroy_models : Text → Event
  -- juju.model.Model
  deploy block_until : Text → Event
  close_model get_status : Event
  -- an application: its name, and the charm to switch to
  upgrade_charm : Text → Text → Event
  get_actions is_leader : Text → Event
  -- a unit and an action
  run_action : Text → Text → Event
  get_output get_action_status : Event

-- The file of a cluster as yaml reads it: what stands under each key, if the key is there.
pub record Config : Type 0 where
  pub loadbalancer : Option Bool
  pub endpoint : Option Text
  pub username : Option Text
  pub secret : Option Text
  pub cacert : Option Text
  pub namespace : Option Text

-- The credentials as yaml reads them: `clusters`, in each `cluster`, and in it `server`.
pub record Credentials : Type 0 where
  pub clusters : Option (List (Option (Option Text)))

-- The keys of controllers.yaml and accounts.yaml that are read for a new cluster.
pub data Key : Type 0 where
  api_endpoint ca_cert user password : Key

-- How each call ends after those before: the exception, if any, and the values that are read.
pub record Host : Type 0 where
  pub fails : List Event → Event → Option Exception
  -- whether the return code of a program is above 0, and whether its errors have "already exists"
  pub result : List Event → List Text → Bool × Bool
  -- yaml.safe_load of credentials; none if it is empty
  pub load : Text → Result Exception (Option Credentials)
  -- the environment variable OSMLCM_VCA_APIPROXY, if it is set and not empty
  pub host_ip : Option Text
  -- what ~/.local/share/juju has for a controller
  pub field : List Event → Text → Key → Result Exception Text
  -- what a connected controller and its models answer
  pub models : List Event → List Text
  pub is_connected : List Event → Bool
  pub model_connected : List Event → Bool
  pub applications : List Event → List Text
  pub actions : List Event → List Text
  -- the names of the units of an application, and whether a unit is the leader
  pub units : List Event → Text → List Text
  pub leads : List Event → Text → Bool
  pub output : List Event → Text
  -- the status of an action, if it is listed
  pub action_status : List Event → Option Text
  -- the status of each application
  pub statuses : List Event → List (Text × Text)
  -- the applications of a bundle in a file, each with its charm if there is one
  pub bundle : Text → Result Exception (List (Text × Option Text))
  -- whether the working directory still exists
  pub in_place : List Event → Bool
  -- attributes of the object
  pub fs_path : Text
  pub juju_command : Text

-- The attributes that change, the connections that are open, the files of clusters (those that yaml
-- reads as nothing have no `Config`), the working directory and the calls made. The attribute
-- `models` is left out: it is empty, and nothing fills it.
pub record State : Type 0 where
  pub authenticated : Bool
  -- the attribute `controller` is there, and not None
  pub has_controller : Bool
  pub endpoint : Text
  pub user : Text
  pub secret : Text
  pub ca_cert : Text
  pub public_key : Option Text
  pub open_controllers : ℕ
  pub open_models : ℕ
  pub files : List (Text × Option Config)
  pub cwd : Text
  pub history : List Event

abbrev pub Op : Type 0 → Type 0
Op A = Exec Exception State A

abbrev pub gets : {A : Type 0} → (State → A) → Op A
gets f s = (ok (f s), s)

abbrev pub modify : (State → State) → Op (Unit {0})
modify f s = (ok tt, f s)

abbrev pub lift : {A : Type 0} → Result Exception A → Op A
lift r s = (r, s)

abbrev pub or_raise : {A : Type 0} → Exception → Option A → Op A
or_raise x none = raise x
or_raise x (some a) = pure a

abbrev pub recorded : Event → State → State
recorded e s = record s { history = s.history ++ e ∷ [] }

-- The exception replaces the value.
abbrev pub ends : {A : Type 0} → Option Exception → A → Result Exception A
ends none a = ok a
ends (some x) a = err x

-- A call that changes the state only if it succeeds.
abbrev pub changes : Option Exception → (State → State) → State → State
changes none f s = f s
changes (some x) f s = s

abbrev pub opened : State → State
opened s = record s { open_models = s.open_models + 1 }

abbrev pub closed : State → State
closed s = record s { open_models = s.open_models - 1 }

abbrev pub left : State → State
left s = record s { open_controllers = s.open_controllers - 1 }

-- os.path of a directory that is given, absolute or from the working directory
abbrev pub inside : Text → Text → Text
inside cwd path = if starts_with (codes "/") path then path else cwd ++ codes "/" ++ path

module _ (host : Host) where
  unfoldable pub call : Event → Op (Unit {0})
  call e s = (ends (host.fails s.history e) tt, recorded e s)

  -- A call, and what it does where it succeeds.
  unfoldable pub call_then : Event → (State → State) → Op (Unit {0})
  call_then e f s =
      (ends (host.fails s.history e) tt, recorded e (changes (host.fails s.history e) f s))

  -- A call, and what it answers.
  unfoldable pub ask : {A : Type 0} → Event → (List Event → A) → Op A
  ask e answer s = (ends (host.fails s.history e) (answer s.history), recorded e s)

  unfoldable pub command : List Text → Op (Bool × Bool)
  unfolding ask
  command argv = ask (Event.run argv) (λ h. host.result h argv)

  unfoldable pub chdir : Text → Op (Unit {0})
  unfolding call_then
  chdir path = call_then (Event.change_dir path) (λ s. record s { cwd = inside s.cwd path })

  unfoldable pub disconnect_model : Op (Unit {0})
  unfolding call_then
  disconnect_model = call_then Event.close_model closed
