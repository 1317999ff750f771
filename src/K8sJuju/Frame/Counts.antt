-- ===== src/K8sJuju/Frame/Counts.antt =====
-- The working directory and the number of open models of n2vc/k8s_juju_conn.py, as properties that
-- connections do not matter to.
use n2vc.Prelude.{◌≡◌, ℕ}
use n2vc.Text.{Text}
use n2vc.K8sJuju.Host.{State}
use n2vc.K8sJuju.Frame.{IsFrame}
use n2vc.K8sJuju.Frame.Plain.{IsPlain}

-- The number of open models.
abbrev pub HasOpen : ℕ → State → Type 0
HasOpen n s = s.open_models ≡ n

-- The working directory, and the number of open models.
abbrev pub IsAt : Text → ℕ → State → Type 0
IsAt path n s = (s.cwd ≡ path) × HasOpen n s

pub HasOpen-IsFrame : (n : ℕ) → IsFrame (HasOpen n)
HasOpen-IsFrame n = record {
  history = λ e s h. h;
  endpoint = λ x s h. h;
  user = λ x s h. h;
  secret = λ x s h. h;
  ca_cert = λ x s h. h;
  public_key = λ x s h. h;
}

pub IsAt-IsPlain : (path : Text) (n : ℕ) → IsPlain (IsAt path n)
IsAt-IsPlain path n = record {
  frame = record {
    history = λ e s h. h;
    endpoint = λ x s h. h;
    user = λ x s h. h;
    secret = λ x s h. h;
    ca_cert = λ x s h. h;
    public_key = λ x s h. h;
  };
  session = λ a c n s h. h;
}
