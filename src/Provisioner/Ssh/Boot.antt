-- ===== src/Provisioner/Ssh/Boot.antt =====
-- The loops of n2vc/provisioner.py that wait for a machine.
use n2vc.Prelude.{
  ◌≡◌, refl, ℕ, zero, suc, ◌+◌, ◌≤◌, Bool, true, false, none, List, [], ◌∷◌, ◌++◌, arith,
  if◌then◌else◌,
}
use n2vc.Prelude.Exec.{Result, ok, err, pure, raise, continue, handled, ◌>>◌}
use n2vc.Exception.{Exception, called_process}
use n2vc.Text.{Text, codes, Unicode}
use n2vc.Helm.Output.{strip}
use n2vc.Provisioner.Ssh.{
  Event, Host, State, Op, recorded, finished, call, ssh, again, retry_loop, is_called_process,
  wait_for_boot,
}

-- The seconds that were slept.
unfoldable pub slept : List Event → ℕ
slept [] = 0
slept (Event.sleep n ∷ h) = n + slept h
slept (e ∷ h) = slept h

-- The seconds that the loop can sleep: not after its last attempt.
unfoldable pub longest : ℕ → ℕ → ℕ
longest zero delay = 0
longest (suc zero) delay = 0
longest (suc (suc left)) delay = delay + longest (suc left) (delay + 15)

pub longest_all : longest 11 15 ≡ 825
unfolding longest
longest_all = refl

slept-sleep : (h : List Event) (n : ℕ) → slept (h ++ Event.sleep n ∷ []) ≡ slept h + n
unfolding slept
slept-sleep [] n = omega arith
slept-sleep (Event.copy p ∷ h) n = slept-sleep h n
slept-sleep (Event.command p ∷ h) n = slept-sleep h n
slept-sleep (Event.sleep m ∷ h) n = omega (arith, slept-sleep h n)
slept-sleep (Event.write_file p ∷ h) n = slept-sleep h n
slept-sleep (Event.provisioning_script ∷ h) n = slept-sleep h n

slept-command : (h : List Event) (c : Text) → slept (h ++ Event.command c ∷ []) ≡ slept h
unfolding slept
slept-command [] c = refl
slept-command (Event.copy p ∷ h) c = slept-command h c
slept-command (Event.command p ∷ h) c = slept-command h c
slept-command (Event.sleep m ∷ h) c = omega (arith, slept-command h c)
slept-command (Event.write_file p ∷ h) c = slept-command h c
slept-command (Event.provisioning_script ∷ h) c = slept-command h c

abbrev probe : Text
probe = codes "sudo -n true"

-- The machine answers from some time on, and until then the command fails.
pub record Boots (host : Host) (seconds : ℕ) : Type 0 where
  pub runs : (h : List Event) → host.fails h (Event.command probe) ≡ none
  pub answers : (h : List Event) → seconds ≤ slept h → host.succeeds h (Event.command probe) ≡ true
  pub sleeps : (h : List Event) (n : ℕ) → host.fails h (Event.sleep n) ≡ none

-- It returns, and has slept that long at most.
abbrev pub Returned : ℕ → Result Exception (Unit {0}) × State → Type 0
Returned most (ok a, t) = slept t.history ≤ most
Returned most (err x, t) = ⊥

module _ ⦃u : Unicode⦄ (host : Host) (seconds : ℕ) (boots : Boots host seconds) where
  unanswered :
      (s : State)
      → seconds ≤ slept s.history
      → host.succeeds s.history (Event.command probe) ≡ false
      → ⊥
  unanswered s h e = cc (boots.answers s.history h, e)

  -- One attempt, and what follows where it fails.
  tried :
      (left most : ℕ) (k : Op (Unit {0})) (s : State) (b : Bool)
      → slept s.history ≤ most
      → (b ≡ false → Returned most (again left called_process k (recorded (Event.command probe) s)))
      → Returned most (
          handled
            (continue
              (finished none b (strip (host.stdout s.history)), recorded (Event.command probe) s)
              (λ _. pure tt))
            (λ x. if is_called_process x then again left x k else raise x))
  tried left most k s true le f = rw (slept-command s.history probe) le
  tried left most k s false le f = f refl

  loop-Returned :
      (left delay : ℕ) (s : State)
      → seconds ≤ slept s.history + longest (suc left) delay
      → Returned
          (slept s.history + longest (suc left) delay)
          (retry_loop host (suc left) delay is_called_process (ssh host probe >> pure tt) s)
  unfolding retry_loop ssh call longest
  loop-Returned zero delay s h = rw (boots.runs s.history) (
      tried zero _ (call host (Event.sleep delay) >> pure tt) s
        (host.succeeds s.history (Event.command probe)) (omega arith)
        (λ e. absurd (unanswered s (omega arith) e)))
  loop-Returned (suc left) delay s h = rw (boots.runs s.history) (
      tried (suc left) _ _ s (host.succeeds s.history (Event.command probe)) (omega arith) (λ e.
        rw (boots.sleeps (s.history ++ Event.command probe ∷ []) delay)
          (rw⁻¹ slept_then (loop-Returned left (delay + 15) t (rw slept_then h)))))
    where
      t : State
      t = recorded (Event.sleep delay) (recorded (Event.command probe) s)

      slept_then :
          slept t.history + longest (suc left) (delay + 15)
          ≡ slept s.history + (delay + longest (suc left) (delay + 15))
      slept_then = omega (
        arith,
        slept-sleep (s.history ++ Event.command probe ∷ []) delay,
        slept-command s.history probe,
      )

  -- A machine that answers within 825 seconds of sleep is waited for, and the wait sleeps no longer than
  -- that: the loop of eleven attempts ends without an exception.
  pub wait_for_boot-Returned :
      (s : State)
      → seconds ≤ slept s.history + 825
      → Returned (slept s.history + 825) (wait_for_boot host s)
  unfolding wait_for_boot
  wait_for_boot-Returned s h = rw⁻¹ longest_all (loop-Returned 10 15 s (rw longest_all h))
