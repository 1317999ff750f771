-- ===== src/Lib.antt =====
-- N2VC, the connector between OSM's life cycle manager and juju (and kubectl and helm).
--
-- The program is the Python package n2vc/. A connector (n2vc/n2vc_juju_conn.py) turns requests of
-- OSM into operations on juju models. It names applications and environments itself, waits for juju
-- through an observer (n2vc/juju_observer.py), and writes the progress to OSM's database
-- (n2vc/n2vc_conn.py). n2vc/libjuju.py is the newer access to juju: every operation opens its own
-- connections, and a watcher (n2vc/juju_watcher.py) follows the changes of the model and writes them
-- to the same database. n2vc/k8s_conn.py and n2vc/k8s_helm_conn.py do the same for deployment units
-- on Kubernetes, by running helm.
--
-- Which file models what:
--   Prelude      shared names, tests on numbers and strings, lists, dictionaries (Prelude/Dict), and
--                methods with a state that may raise (Prelude/Exec: do blocks, except, finally).
--   Text         Python texts as lists of code points: replace, lower, split and join (Text/Split),
--                and the loop `while "--" in s` (Text/Squeeze). Its fuel is the length of the text:
--                each round makes the text shorter.
--   Naming       Naming/AppName: `_format_app_name`, `_format_model_name` of n2vc/n2vc_juju_conn.py;
--                Naming/Namespace: `_get_namespace_components` of n2vc/n2vc_conn.py and
--                `_get_application_name`; Naming/EeId: `_build_ee_id`, `_get_ee_id_components`.
--   Status       the enums and tables of n2vc/utils.py, and the translations `osm_status` and
--                `juju_status_2_osm_status` of n2vc/n2vc_conn.py.
--   Exception    the exceptions of n2vc/exceptions.py and of Python that the modelled code raises.
--   Database     `write_app_status_to_db` of n2vc/n2vc_conn.py (Database/N2vc, with
--                `_write_ee_id_db`) and of n2vc/k8s_conn.py (Database/K8s). The state is the list of
--                calls made; an `Answers` says how each call ends.
--   Observer     `JujuModelObserver` of n2vc/juju_observer.py: its three dictionaries as state, the
--                registrations (Observer/Registry), `on_change` (Observer/Change) and the waits
--                (Observer/Wait). A wait runs over the rounds of its loop: the status that is read,
--                and when the event is set.
--   Watcher      `JujuModelWatcher` of n2vc/juju_watcher.py over a list of changes with their times.
--                Watcher/Spec says which writes a list of changes calls for.
--   Libjuju      `Libjuju` of n2vc/libjuju.py. Its state has the attributes of the object, the
--                numbers of open connections and the calls made; a `Juju` says how each call of the
--                library and of the database ends, after the calls made before. Libjuju/Balance
--                has one rule for each way to build an action, Libjuju/Opening and Libjuju/Frame
--                are about the frame that the operations share, Libjuju/Leaks, AddModel,
--                Deploy, Missing and Unbound about the operations. Libjuju/Destroy has the
--                destruction of models and machines: a wait has fuel for each half second that is
--                left, which Destroy/Fuel is about; Destroy/Refines and Destroy/Follows follow the
--                models whose destruction was asked for.
--   Connector    the operations of n2vc/n2vc_juju_conn.py that OSM calls, composed of those of
--                Libjuju, Naming and Database: Connector/Environments, Charms, Primitives (with at
--                most 20 runs of verify-ssh-credentials) and Ending (relations, deletion). Its
--                state is that of Libjuju with the calls of the database. Connector/Balance, Steps
--                and Connections are about connections, Raises and Refusals about exceptions,
--                Handover and Deletion about what the operations do together.
--   Session      the connection that n2vc/n2vc_juju_conn.py keeps itself: `_juju_login` and
--                `_juju_get_model` as steps of any number of tasks, each from one await to the next;
--                Session/Lock is about a flag as a lock, Session/Exclusion and Session/Once about
--                the reachable states, Session/Logout about `_juju_logout`.
--   Helm         n2vc/k8s_helm_conn.py. Helm/Output: the texts that it takes apart; Helm/Release:
--                `_generate_release_name`, with the random number as a parameter; Helm/Repos:
--                `synchronize_repos`, over a database and commands that a `Helm` answers. Helm/Host:
--                commands and directories, which a `Host` answers; Helm/Operations and Helm/Releases:
--                `install`, `upgrade`, `rollback` and what they use; Helm/Environment: `init_env`,
--                `reset` and the repositories of a cluster. The rounds of `_store_status`
--                beside a command come before it in the history, as many as the host says; the
--                search for a free name has as many tries as it is given.
--   K8sJuju      `K8sJujuConnector` of n2vc/k8s_juju_conn.py. Its state has the attributes that change,
--                the open connections, the files of its clusters and the working directory; a `Host`
--                answers each call. K8sJuju/Commands, Controller, Environment, Deployment and
--                Primitives have the operations; K8sJuju/Keeps has one rule for each way to build
--                an action, and K8sJuju/Frame what the operations keep by those rules;
--                K8sJuju/Session is about the connection.
--   Provisioner  n2vc/provisioner.py: Provisioner/Hardware reads what a machine says of itself,
--                Provisioner/Ssh is `AsyncSSHProvisioner`, with the eleven attempts of its loops,
--                and Provisioner/Paramiko is `SSHProvisioner` with its clients.
--   Tests        runs of the code, and the theorems at concrete inputs.
--
-- Not modelled: the log lines and the messages of exceptions, which nothing reads; the juju
-- library, the database, helm and the callbacks, which are parameters; Python's Unicode tables from
-- code point 128 on, which are a parameter too (Text.Unicode); the checks of `__init__`,
-- `_create_juju_public_key` and the private operations of n2vc/n2vc_juju_conn.py over the observer,
-- which nothing calls any more; `repo_list`, `inspect_kdu` and the services of
-- n2vc/k8s_helm_conn.py, the first half of `wait_for` in n2vc/juju_watcher.py, `help_kdu` of
-- n2vc/k8s_juju_conn.py, n2vc/vnf.py and n2vc/loggable.py. Timeouts are left out where only
-- libraries read them. But for Session, tasks run one at a time, except that other tasks may add
-- models while `add_model` waits for its lock.
pub mod Prelude
pub mod Text
pub mod Naming
pub mod Status
pub mod Exception
pub mod Database
pub mod Observer
pub mod Watcher
pub mod Helm
pub mod K8sJuju
pub mod Provisioner
pub mod Libjuju
pub mod Connector
pub mod Session
pub mod Tests
