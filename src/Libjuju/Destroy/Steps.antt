-- ===== src/Libjuju/Destroy/Steps.antt =====
-- The steps of `destroy_model` of n2vc/libjuju.py: none opens or closes a connection, and the loop
-- over the machines raises nothing.
use n2vc.Prelude.Exec.{err, Result, ok, handled, continue}
use n2vc.Prelude.{◌≡◌, ◌≢◌, arith, ap, ℕ, zero, suc, refl, false, List, [], ◌∷◌, Option, none, some}
use n2vc.Exception.{Exception}
use n2vc.Text.{Text}
use n2vc.Libjuju.Connection.{World, Event, Juju}
use n2vc.Libjuju.Balance.{
  SameOpen-refl, IsBalanced, IsUncancelled, uncancelled_rules, pure-IsUncancelled,
  raise-IsUncancelled, balanced_rules, raise-IsBalanced, pure-IsBalanced,
}
use n2vc.Libjuju.Destroy.{
  now, wait_removed, wait_machine, destroy_machine, pass, destroy_machines, forget, is_gone,
  not_gone, wait_destroyed, destroy_disconnected,
}

module _ (juju : Juju) where
  now-IsBalanced : IsBalanced (now juju)
  unfolding now
  now-IsBalanced = record { at = SameOpen-refl }

  wait_removed-IsBalanced :
      (fuel : ℕ) (machine_id : Text) (end : ℕ) (machines : List Text)
      → IsBalanced (wait_removed juju fuel machine_id end machines)
  unfolding wait_removed
  wait_removed-IsBalanced zero machine_id end machines = search (balanced_rules)
  wait_removed-IsBalanced (suc fuel) machine_id end machines =
      search (balanced_rules, now-IsBalanced, wait_removed-IsBalanced fuel) depth 16

  wait_machine-IsBalanced :
      (machine_id : Text) (total_timeout : Option ℕ)
      → IsBalanced (wait_machine juju machine_id total_timeout)
  unfolding wait_machine
  wait_machine-IsBalanced machine_id none = search (balanced_rules)
  wait_machine-IsBalanced machine_id (some t) =
      search (balanced_rules, now-IsBalanced, wait_removed-IsBalanced) depth 16

  destroy_machine-IsBalanced :
      (machine_id : Text) (total_timeout : Option ℕ)
      → IsBalanced (destroy_machine juju machine_id total_timeout)
  unfolding destroy_machine
  destroy_machine-IsBalanced machine_id total_timeout =
      search (balanced_rules, wait_machine-IsBalanced) depth 16

  pass-IsBalanced : (x : Exception) → IsBalanced (pass juju x)
  unfolding pass
  pass-IsBalanced Exception.cancelled = raise-IsBalanced _
  pass-IsBalanced x = pure-IsBalanced tt

  not_gone-IsBalanced : (x : Exception) → IsBalanced (not_gone juju x)
  unfolding not_gone
  not_gone-IsBalanced Exception.cancelled = raise-IsBalanced _
  not_gone-IsBalanced x = pure-IsBalanced false

  pub destroy_machines-IsBalanced :
      (machines : List Text) (total_timeout : Option ℕ)
      → IsBalanced (destroy_machines juju machines total_timeout)
  unfolding destroy_machines
  destroy_machines-IsBalanced [] total_timeout = search (balanced_rules)
  destroy_machines-IsBalanced (m ∷ ms) total_timeout =
      search
        (
          balanced_rules,
          destroy_machine-IsBalanced,
          pass-IsBalanced,
          destroy_machines-IsBalanced ms,
        )
        depth 16

  forget-IsBalanced : (model_name : Text) → IsBalanced (forget juju model_name)
  unfolding forget
  forget-IsBalanced model_name = record { at = λ s. record { controllers = refl; models = refl } }

  is_gone-IsBalanced : (model_name : Text) → IsBalanced (is_gone juju model_name)
  unfolding is_gone
  is_gone-IsBalanced model_name = search (balanced_rules)

  wait_destroyed-IsBalanced :
      (fuel : ℕ) (model_name : Text) (end : ℕ)
      → IsBalanced (wait_destroyed juju fuel model_name end)
  unfolding wait_destroyed
  wait_destroyed-IsBalanced zero model_name end = search (balanced_rules)
  wait_destroyed-IsBalanced (suc fuel) model_name end =
      search
        (
          balanced_rules,
          now-IsBalanced,
          is_gone-IsBalanced,
          not_gone-IsBalanced,
          wait_destroyed-IsBalanced fuel,
        )
        depth 16

  pub destroy_disconnected-IsBalanced :
      (model_name : Text) (total_timeout : Option ℕ)
      → IsBalanced (destroy_disconnected juju model_name total_timeout)
  unfolding destroy_disconnected
  destroy_disconnected-IsBalanced model_name total_timeout =
      search (balanced_rules, now-IsBalanced, forget-IsBalanced, wait_destroyed-IsBalanced) depth 16

  abbrev Calm : Type 0
  Calm = (h : List Event) (e : Event) → juju.fails h e ≢ some Exception.cancelled

  now-IsUncancelled : IsUncancelled (now juju)
  unfolding now
  now-IsUncancelled = record { at = λ s q. ground arith }

  module _ (calm : Calm) where
    wait_removed-IsUncancelled :
        (fuel : ℕ) (machine_id : Text) (end : ℕ) (machines : List Text)
        → IsUncancelled (wait_removed juju fuel machine_id end machines)
    unfolding wait_removed
    wait_removed-IsUncancelled zero machine_id end machines = pure-IsUncancelled tt
    wait_removed-IsUncancelled (suc fuel) machine_id end machines =
        search (uncancelled_rules, calm, now-IsUncancelled, wait_removed-IsUncancelled fuel) depth
          16

    wait_machine-IsUncancelled :
        (machine_id : Text) (total_timeout : Option ℕ)
        → IsUncancelled (wait_machine juju machine_id total_timeout)
    unfolding wait_machine
    wait_machine-IsUncancelled machine_id none = raise-IsUncancelled _ (λ e. ground arith)
    wait_machine-IsUncancelled machine_id (some t) =
        search (uncancelled_rules, calm, now-IsUncancelled, wait_removed-IsUncancelled) depth 16

    destroy_machine-IsUncancelled :
        (machine_id : Text) (total_timeout : Option ℕ)
        → IsUncancelled (destroy_machine juju machine_id total_timeout)
    unfolding destroy_machine
    destroy_machine-IsUncancelled machine_id total_timeout =
        search (uncancelled_rules, calm, wait_machine-IsUncancelled) depth 16

    pass-eq : (x : Exception) (s : World) → x ≢ Exception.cancelled → pass juju x s ≡ (ok tt, s)
    unfolding pass
    pass-eq Exception.cancelled s n = absurd (n refl)
    pass-eq x s n = refl

    -- Whatever becomes of the machines, the loop over them ends without an exception.
    pub destroy_machines-ok :
        (machines : List Text) (total_timeout : Option ℕ) (s : World)
        → (destroy_machines juju machines total_timeout s).0 ≡ ok tt
    unfolding destroy_machines
    destroy_machines-ok [] total_timeout s = refl
    destroy_machines-ok (m ∷ ms) total_timeout s =
        go (destroy_machine juju m total_timeout s)
          ((destroy_machine-IsUncancelled m total_timeout).at s)
          (destroy_machines-ok ms total_timeout)
      where
        go :
            (r : Result Exception (Unit {0}) × World)
            → r.0 ≢ err Exception.cancelled
            → ((t : World) → (destroy_machines juju ms total_timeout t).0 ≡ ok tt)
            → (continue (handled r (pass juju)) (λ _. destroy_machines juju ms total_timeout)).0
              ≡ ok tt
        go (ok a, t) n h = h t
        go (err x, t) n h = rw (pass-eq x t (λ e. n (ap err e))) (h t)
