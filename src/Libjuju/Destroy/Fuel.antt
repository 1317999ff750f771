-- ===== src/Libjuju/Destroy/Fuel.antt =====
-- The fuel of the loops that wait for a destruction is enough.
use n2vc.Prelude.{
  ℕ, zero, suc, ◌+◌, ◌≤◌, ◌<◌, ◌≡◌, refl, Bool, true, false, List, [], ◌∷◌, ◌++◌, none, some, ltb,
  arith, Bool-cases, inl, inr, if◌then◌else◌,
}
use n2vc.Prelude.Exec.{◌>>=◌, Result, ok, err, pure, continue, handled, ◌>>◌, ◌catch◌}
use n2vc.Exception.{Exception}
use n2vc.Text.{Text}
use n2vc.Libjuju.Connection.{Juju, World, Lib, Event, call, call_names, member, ends, recorded}
use n2vc.Libjuju.Destroy.{wait_removed, not, is_gone, not_gone, wait_destroyed, now}

-- The clock never goes back, and a sleep takes half a second at least.
pub record IsClock (juju : Juju) : Type 0 where
  pub forward : (h : List Event) (e : Event) → juju.clock h ≤ juju.clock (h ++ e ∷ [])
  pub sleeps : (h : List Event) → juju.clock h < juju.clock (h ++ Event.sleep ∷ [])

module _ (juju : Juju) (clocked : IsClock juju) where
  abbrev time : World → ℕ
  time s = juju.clock s.history

  -- The question whether the model is gone takes no time back.
  asked_later :
      (model_name : Text) (s : World)
      → time s ≤ time ((is_gone juju model_name catch not_gone juju) s).1
  unfolding is_gone call_names not_gone
  asked_later model_name s =
      elim (juju.fails s.history Event.list_models)
        as (λ o.
          time s
          ≤ time
              (handled
                (continue
                  (ends o (juju.names s.history Event.list_models), recorded Event.list_models s)
                  (λ models. pure (not (member model_name models))))
                (not_gone juju)).1) [
                  | none ↦ clocked.forward s.history Event.list_models
                  | some x ↦ later x
                ]
    where
      later : (x : Exception) → time s ≤ time (not_gone juju x (recorded Event.list_models s)).1
      later Exception.cancelled = clocked.forward s.history Event.list_models
      later x = clocked.forward s.history Event.list_models

  abbrev again : ℕ → Text → ℕ → Lib (Unit {0})
  again fuel model_name end = call juju Event.sleep >> wait_destroyed juju fuel model_name end

  abbrev round : ℕ → Text → ℕ → Bool → Lib (Unit {0})
  round fuel model_name end gone = if gone then pure tt else again fuel model_name end

  module _ (fuel fuel' : ℕ) (model_name : Text) (end : ℕ)
      (same : (u : World)
        → end ≤ time u + fuel
        → wait_destroyed juju fuel' model_name end u
          ≡ wait_destroyed juju fuel model_name end u) where
    slept-eq :
        (t : World)
        → end ≤ time t + suc fuel
        → again fuel' model_name end t ≡ again fuel model_name end t
    unfolding call
    slept-eq t enough =
        elim (juju.fails t.history Event.sleep)
          as (λ o.
            continue (ends o tt, recorded Event.sleep t)
              (λ _. wait_destroyed juju fuel' model_name end)
            ≡ continue (ends o tt, recorded Event.sleep t)
                (λ _. wait_destroyed juju fuel model_name end)) [
                  | none ↦ same (recorded Event.sleep t) (omega (arith, clocked.sleeps t.history))
                  | some x ↦ refl
                ]

    round-eq :
        (r : Result Exception Bool × World)
        → end ≤ time r.1 + suc fuel
        → continue r (round fuel' model_name end) ≡ continue r (round fuel model_name end)
    round-eq (ok true, t) enough = refl
    round-eq (ok false, t) enough = slept-eq t enough
    round-eq (err x, t) enough = refl

  -- The wait for a model to go ends: where the fuel covers the half seconds that are left, more fuel
  -- changes nothing, if the clock never goes back and a sleep takes half a second at least.
  pub wait_destroyed_fuel :
      (fuel fuel' : ℕ) (model_name : Text) (end : ℕ) (s : World)
      → fuel ≤ fuel'
      → end ≤ time s + fuel
      → wait_destroyed juju fuel' model_name end s ≡ wait_destroyed juju fuel model_name end s
  unfolding wait_destroyed now
  wait_destroyed_fuel zero zero model_name end s le enough = refl
  wait_destroyed_fuel zero (suc fuel') model_name end s le enough = ground arith
  wait_destroyed_fuel (suc fuel) zero model_name end s le enough = absurd (omega arith)
  wait_destroyed_fuel (suc fuel) (suc fuel') model_name end s le enough =
      elim (Bool-cases (ltb (time s) end)) [
        | inl early ↦ rw early (
            round-eq fuel fuel' model_name end
              (λ u. wait_destroyed_fuel fuel fuel' model_name end u (omega arith))
              ((is_gone juju model_name catch not_gone juju) s)
              (omega (arith, asked_later model_name s)))
        | inr late ↦ rw late
      ]

  abbrev looked : ℕ → Text → ℕ → Lib (Unit {0})
  looked fuel machine_id end = call_names juju Event.get_machines >>= λ machines.
      wait_removed juju fuel machine_id end machines

  module _ (fuel fuel' : ℕ) (machine_id : Text) (end : ℕ)
      (same : (machines : List Text) (u : World)
        → end ≤ time u + fuel
        → wait_removed juju fuel' machine_id end machines u
          ≡ wait_removed juju fuel machine_id end machines u) where
    looked-eq :
        (t : World)
        → end ≤ time t + fuel
        → looked fuel' machine_id end t ≡ looked fuel machine_id end t
    unfolding call_names
    looked-eq t enough =
        elim (juju.fails t.history Event.get_machines)
          as (λ o.
            continue
              (ends o (juju.names t.history Event.get_machines), recorded Event.get_machines t)
              (λ ms. wait_removed juju fuel' machine_id end ms)
            ≡ continue
                (ends o (juju.names t.history Event.get_machines), recorded Event.get_machines t)
                (λ ms. wait_removed juju fuel machine_id end ms)) [
                  | none ↦
                      same (juju.names t.history Event.get_machines) (recorded Event.get_machines t)
                        (omega (arith, clocked.forward t.history Event.get_machines))
                  | some x ↦ refl
                ]

    slept_looked-eq :
        (t : World)
        → end ≤ time t + suc fuel
        → (call juju Event.sleep >> looked fuel' machine_id end) t
          ≡ (call juju Event.sleep >> looked fuel machine_id end) t
    unfolding call
    slept_looked-eq t enough =
        elim (juju.fails t.history Event.sleep)
          as (λ o.
            continue (ends o tt, recorded Event.sleep t) (λ _. looked fuel' machine_id end)
            ≡ continue (ends o tt, recorded Event.sleep t) (λ _. looked fuel machine_id end)) [
              | none ↦ looked-eq (recorded Event.sleep t) (omega (arith, clocked.sleeps t.history))
              | some x ↦ refl
            ]

  -- The wait for a machine to go, likewise.
  wait_removed_fuel :
      (fuel fuel' : ℕ) (machine_id : Text) (end : ℕ) (machines : List Text) (s : World)
      → fuel ≤ fuel'
      → end ≤ time s + fuel
      → wait_removed juju fuel' machine_id end machines s
        ≡ wait_removed juju fuel machine_id end machines s
  unfolding wait_removed now
  wait_removed_fuel zero zero machine_id end machines s le enough = refl
  wait_removed_fuel zero (suc fuel') machine_id end machines s le enough =
      elim (Bool-cases (member machine_id machines)) [
        | inl there ↦ rw there (ground arith)
        | inr gone ↦ rw gone
      ]
  wait_removed_fuel (suc fuel) zero machine_id end machines s le enough = absurd (omega arith)
  wait_removed_fuel (suc fuel) (suc fuel') machine_id end machines s le enough =
      elim (Bool-cases (member machine_id machines)) [
        | inr gone ↦ rw gone
        | inl there ↦ elim (Bool-cases (ltb (time s) end)) [
          | inr late ↦ rw (there, late)
          | inl early ↦
              rw (there, early)
                (slept_looked-eq fuel fuel' machine_id end
                  (λ ms u. wait_removed_fuel fuel fuel' machine_id end ms u (omega arith)) s enough)
        ]
      ]
