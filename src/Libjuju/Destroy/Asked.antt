-- ===== src/Libjuju/Destroy/Asked.antt =====
-- The destructions of models that operations of n2vc/libjuju.py ask for.
use n2vc.Prelude.{
  ℕ, zero, suc, ◌≡◌, refl, ap, ◌∙◌, Bool, true, false, Option, none, some, List, [], ◌∷◌, ◌++◌,
  if◌then◌else◌, append-nil,
}
use n2vc.Prelude.Exec.{Result, ok, err, pure, raise, continue, handled, ◌>>=◌, ◌catch◌}
use n2vc.Exception.{Exception}
use n2vc.Text.{Text}
use n2vc.Libjuju.Connection.{Juju, World, Lib, Event, call, call_names}
use n2vc.Libjuju.Destroy.{now, wait_removed, wait_machine, destroy_machine, pass, destroy_machines}

-- The models whose destruction the calls ask for, in order.
abbrev pub asked : List Event → List Text
asked [] = []
asked (Event.destroy_model m ∷ h) = m ∷ asked h
asked (e ∷ h) = asked h

pub asked-append : (h k : List Event) → asked (h ++ k) ≡ asked h ++ asked k
asked-append [] k = refl
asked-append (Event.destroy_model m ∷ h) k = ap (◌∷◌ m) (asked-append h k)
asked-append (e ∷ h) k = asked-append h k

-- An action that asks for no destruction, however it ends.
pub record IsSilent {A : Type 0} (m : Lib A) : Type 0 where
  pub at : (s : World) → asked (m s).1.history ≡ asked s.history

module _ {A B : Type 0} where
  bind-IsSilent :
      {m : Lib A} {f : A → Lib B} → IsSilent m → ((a : A) → IsSilent (f a)) → IsSilent (m >>= f)
  bind-IsSilent {m} {f} h k = record { at = λ s. go s (m s) (h.at s) }
    where
      go :
          (s : World) (r : Result Exception A × World)
          → asked r.1.history ≡ asked s.history
          → asked (continue r f).1.history ≡ asked s.history
      go s (ok a, t) e = (k a).at t ∙ e
      go s (err x, t) e = e

module _ {A : Type 0} where
  pure-IsSilent : (a : A) → IsSilent (pure {S = World} a)
  pure-IsSilent a = record { at = λ s. refl }

  raise-IsSilent : (x : Exception) → IsSilent (raise {S = World} {A = A} x)
  raise-IsSilent x = record { at = λ s. refl }

  if-IsSilent : (b : Bool) {m n : Lib A} → IsSilent m → IsSilent n → IsSilent (if b then m else n)
  if-IsSilent true h k = h
  if-IsSilent false h k = k

  catch-IsSilent :
      {m : Lib A} {f : Exception → Lib A}
      → IsSilent m
      → ((x : Exception) → IsSilent (f x))
      → IsSilent (m catch f)
  catch-IsSilent {m} {f} h k = record { at = λ s. go s (m s) (h.at s) }
    where
      go :
          (s : World) (r : Result Exception A × World)
          → asked r.1.history ≡ asked s.history
          → asked (handled r f).1.history ≡ asked s.history
      go s (ok a, t) e = e
      go s (err x, t) e = (k x).at t ∙ e

module _ (juju : Juju) where
  pub asked-silent :
      (h : List Event) (e : Event) → asked (e ∷ []) ≡ [] → asked (h ++ e ∷ []) ≡ asked h
  asked-silent h e n = asked-append h (e ∷ []) ∙ rw n (append-nil (asked h))

  call-IsSilent : (e : Event) → asked (e ∷ []) ≡ [] → IsSilent (call juju e)
  unfolding call
  call-IsSilent e n = record { at = λ s. asked-silent s.history e n }

  call_names-IsSilent : (e : Event) → asked (e ∷ []) ≡ [] → IsSilent (call_names juju e)
  unfolding call_names
  call_names-IsSilent e n = record { at = λ s. asked-silent s.history e n }

  now-IsSilent : IsSilent (now juju)
  unfolding now
  now-IsSilent = record { at = λ s. refl }

  ruleset silent_rules = (
    bind-IsSilent, pure-IsSilent, raise-IsSilent, if-IsSilent, catch-IsSilent, call-IsSilent,
    call_names-IsSilent, now-IsSilent, refl,
  )

  wait_removed-IsSilent :
      (fuel : ℕ) (machine_id : Text) (end : ℕ) (machines : List Text)
      → IsSilent (wait_removed juju fuel machine_id end machines)
  unfolding wait_removed
  wait_removed-IsSilent zero machine_id end machines = search (silent_rules)
  wait_removed-IsSilent (suc fuel) machine_id end machines =
      search (silent_rules, wait_removed-IsSilent fuel) depth 16

  wait_machine-IsSilent :
      (machine_id : Text) (total_timeout : Option ℕ)
      → IsSilent (wait_machine juju machine_id total_timeout)
  unfolding wait_machine
  wait_machine-IsSilent machine_id none = search (silent_rules)
  wait_machine-IsSilent machine_id (some t) = search (silent_rules, wait_removed-IsSilent) depth 16

  destroy_machine-IsSilent :
      (machine_id : Text) (total_timeout : Option ℕ)
      → IsSilent (destroy_machine juju machine_id total_timeout)
  unfolding destroy_machine
  destroy_machine-IsSilent machine_id total_timeout =
      search (silent_rules, wait_machine-IsSilent) depth 16

  pass-IsSilent : (x : Exception) → IsSilent (pass juju x)
  unfolding pass
  pass-IsSilent Exception.cancelled = raise-IsSilent _
  pass-IsSilent x = pure-IsSilent tt

  pub destroy_machines-IsSilent :
      (machines : List Text) (total_timeout : Option ℕ)
      → IsSilent (destroy_machines juju machines total_timeout)
  unfolding destroy_machines
  destroy_machines-IsSilent [] total_timeout = search (silent_rules)
  destroy_machines-IsSilent (m ∷ ms) total_timeout =
      search (silent_rules, destroy_machine-IsSilent, pass-IsSilent, destroy_machines-IsSilent ms)
        depth 16
