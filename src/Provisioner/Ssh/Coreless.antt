-- ===== src/Provisioner/Ssh/Coreless.antt =====
-- Machines whose processors n2vc/provisioner.py cannot count.
use n2vc.Prelude.{◌≡◌, refl, ap, ℕ, false, Option, none, some, List, [], ◌∷◌, All}
use n2vc.Prelude.Exec.{Result, ok, err, continue}
use n2vc.Exception.{Exception, value_error}
use n2vc.Text.{Text, codes, starts_with, Unicode}
use n2vc.Text.Split.{split}
use n2vc.Helm.Output.{strip}
use n2vc.Provisioner.Hardware.{
  Info, bind, or_error, int_of, second_word, count_cores, hardware, detect_hardware, normalize_arch,
  round_1024,
}
use n2vc.Provisioner.Ssh.{
  Host, State, lift, machine_of, init_ubuntu_user, run_configure_script, provision_machine,
}

-- A line on neither physical ids nor cores.
abbrev pub HasNoCores : Text → Type 0
HasNoCores line =
    (starts_with (codes "physical id") line ≡ false)
    × (starts_with (codes "cpu cores") line ≡ false)

abbrev Fails : {A : Type 0} → Result Exception A → Type 0
Fails r = (x : Exception) × (r ≡ err x)

module _ ⦃u : Unicode⦄ where
  uncounted : (lines : List Text) → All HasNoCores lines → count_cores lines [] [] ≡ ok []
  unfolding count_cores
  uncounted [] h = refl
  uncounted (line ∷ lines) h = rw h.0.0 (rw h.0.1 (uncounted lines h.1))

  -- The number of cores is then an empty text, and no number.
  machine-Fails :
      (host new_uuid series arch mem : Text) (lines : List Text)
      → All HasNoCores lines
      → Fails (bind (hardware (series ∷ arch ∷ mem ∷ lines)) (machine_of host new_uuid))
  unfolding hardware machine_of
  machine-Fails host new_uuid series arch mem lines h =
      rw (uncounted lines h) (words (second_word mem))
    where
      info : ℕ → Info
      info kb = record {
        series = strip series;
        arch = normalize_arch (strip arch);
        cpu_cores = [];
        mem = round_1024 kb;
      }

      numbers :
          (o : Option ℕ)
          → Fails
              (bind (bind (or_error value_error o) (λ kb. ok (info kb))) (machine_of host new_uuid))
      numbers none = (value_error, refl)
      numbers (some kb) = (value_error, refl)

      words :
          (r : Result Exception Text)
          → Fails (
              bind
                (bind r (λ word. bind (or_error value_error (int_of word)) (λ kb. ok (info kb))))
                (machine_of host new_uuid))
      words (err x) = (x, refl)
      words (ok word) = numbers (int_of word)

  lifted :
      {A B : Type 0} {x : Exception} (v : State) (r : Result Exception A)
      (f : A → Result Exception B)
      → bind r f ≡ err x
      → continue (lift r v) (λ a. lift (f a)) ≡ (err x, v)
  lifted v (ok a) f e = ap (λ r. (r, v)) e
  lifted v (err y) f e = ap (λ r. (r, v)) (cc e)

  -- A machine whose list of processors has no line on cores or on physical ids, as that of an ARM
  -- processor, cannot be provisioned: provision_machine raises, after it has prepared and examined
  -- the machine.
  pub provision_coreless :
      (host : Host) (series arch mem stdout : Text) (lines : List Text) (s t v : State)
      → init_ubuntu_user host s ≡ (ok tt, t)
      → run_configure_script host host.detection t ≡ (ok stdout, v)
      → split b'\n' stdout ≡ series ∷ arch ∷ mem ∷ lines
      → All HasNoCores lines
      → (x : Exception) × (provision_machine host s ≡ (err x, v))
  unfolding provision_machine detect_hardware
  provision_coreless host series arch mem stdout lines s t v h₁ h₂ h₃ h₄ =
      let (x, e) = machine-Fails host.host host.new_uuid series arch mem lines h₄ in
      (
        x,
        rw h₁ (
            rw h₂ (
              rw h₃ (
                lifted v (hardware (series ∷ arch ∷ mem ∷ lines))
                  (machine_of host.host host.new_uuid) e))),
      )
