-- ===== src/Observer/Wait/Returns.antt =====
-- When the wait for an entity returns, and what that says of the entity.
use mathlib.Core.Path.{subst}
use n2vc.Prelude.{
  suc, ◌+◌, ◌≤◌, min, ◌≡◌, refl, ◌≢◌, inl, inr, true, false, none, some, [], arith, eq_iff,
  Bool-cases, Option-cases, ℕ,
}
use n2vc.Status.{is_one_of}
use n2vc.Observer.Wait.{
  take, Option, All, get_elem?, String, ◌∷◌, List, Round, Outcome, wait_for_event_or_timeout,
  wait_loop, or_hour, wait_for_entity,
}

-- The time that rounds take in which the event is set.
unfoldable pub time_of : List Round → ℕ
time_of [] = 0
time_of (r ∷ rest) = elim r.signal [ none ↦ 0 | some d ↦ d ] + time_of rest

time_of-cons :
    (r : Round) (rest : List Round) (after : ℕ)
    → r.signal ≡ some after
    → time_of (r ∷ rest) ≡ after + time_of rest
unfolding time_of
time_of-cons r rest after h = rw h refl

module _ (final : List String) (t : ℕ) where
  -- A round that is waited through: its status is not final.
  abbrev pub NotFinal : Round → Type 0
  NotFinal r = is_one_of r.status final ≡ false

  -- A round in which the event is set in time.
  abbrev pub InTime : Round → Type 0
  InTime r = (d : ℕ) × (r.signal ≡ some d) × (d ≤ t)

  abbrev pub FinalAt : List Round → ℕ → Type 0
  FinalAt rounds n = (r : Round) × (get_elem? rounds n ≡ some r) × (is_one_of r.status final ≡ true)

  -- What a result of the loop says of the rounds.
  abbrev pub LoopReturns : List Round → ℕ → ℕ → Type 0
  LoopReturns rounds n spent =
      FinalAt rounds n
      × All (λ q. NotFinal q × InTime q) (take n rounds)
      × (spent ≡ time_of (take n rounds))

  wait_within :
      (o : Option ℕ) (after : ℕ)
      → wait_for_event_or_timeout o t ≡ some after
      → (o ≡ some after) × (after ≤ t)
  unfolding wait_for_event_or_timeout
  wait_within none after h = cc
  wait_within (some d) after h = ground arith

  wait_loop_step :
      (r : Round) (rest : List Round) (retries spent after : ℕ)
      → is_one_of r.status final ≡ false
      → wait_for_event_or_timeout r.signal t ≡ some after
      → wait_loop final t (r ∷ rest) retries spent
        ≡ wait_loop final t rest (retries + 1) (spent + after)
  unfolding wait_loop
  wait_loop_step r rest retries spent after more early = ground arith

  wait_loop_sound :
      (rounds : List Round) (retries spent n e : ℕ)
      → wait_loop final t rounds retries spent ≡ Outcome.returned n e
      → (k s : ℕ) × (n ≡ retries + k) × (e ≡ spent + s) × LoopReturns rounds k s
  wait_loop_sound [] retries spent n e h = unfold wait_loop in cc
  wait_loop_sound (r ∷ rest) retries spent n e h = elim (Bool-cases (is_one_of r.status final)) [
    | inl done ↦
        let eqs : (n ≡ retries) × (e ≡ spent) = unfold wait_loop in ground arith in
        (0, 0, omega arith, omega arith, ((r, refl, done), tt, unfold time_of in refl))
    | inr more ↦ elim (Option-cases (wait_for_event_or_timeout r.signal t)) [
      | inl late ↦ absurd (unfold wait_loop in ground arith)
      | inr (after, early) ↦ next after more (wait_within r.signal after early) (
          wait_loop_sound rest (retries + 1) (spent + after) n e
            (rw (wait_loop_step r rest retries spent after more early) at h))
    ]
  ]
    where
      next :
          (after : ℕ)
          → is_one_of r.status final ≡ false
          → (r.signal ≡ some after) × (after ≤ t)
          → (k s : ℕ) × (n ≡ retries + 1 + k) × (e ≡ spent + after + s) × LoopReturns rest k s
          → (k s : ℕ) × (n ≡ retries + k) × (e ≡ spent + s) × LoopReturns (r ∷ rest) k s
      next after more within (k, s, en, es, (at, before, fast)) = (
        suc k,
        after + s,
        omega arith,
        omega arith,
        (
          at,
          ((more, (after, within.0, within.1)), before),
          omega (arith, fast, time_of-cons r (take k rest) after within.0),
        ),
      )

  -- The loop raises the exception for progress only.
  pub wait_loop-ne-total :
      (rounds : List Round) (retries spent e : ℕ)
      → wait_loop final t rounds retries spent ≢ Outcome.raised "total" e
  unfolding wait_loop
  wait_loop-ne-total [] retries spent e h = ground arith
  wait_loop-ne-total (r ∷ rest) retries spent e h =
      elim (Option-cases (wait_for_event_or_timeout r.signal t)) [
        | inl late ↦ ground (arith, eq_iff "progress" "total")
        | inr (after, early) ↦
            ground (arith, wait_loop-ne-total rest (retries + 1) (spent + after) e)
      ]

-- Where the wait returns, the object was in a final state after that many retries and in none
-- before; in each retry the event was set within the smaller of the two timeouts; and the time spent
-- is that of these retries.
pub wait_for_entity_sound :
    (final : List String) (progress_timeout total_timeout : Option ℕ) (rounds : List Round)
    (n e : ℕ)
    → wait_for_entity final progress_timeout total_timeout rounds ≡ Outcome.returned n e
    → LoopReturns final (min (or_hour total_timeout) (or_hour progress_timeout)) rounds n e
wait_for_entity_sound final p t rounds n e h =
    let (k, s, en, es, r) =
      wait_loop_sound final (min (or_hour t) (or_hour p)) rounds 0 0 n e
        (unfold wait_for_entity in ground arith) in
    subst (λ n'. LoopReturns final (min (or_hour t) (or_hour p)) rounds n' e) (by_zero n k en)
      (subst (λ e'. LoopReturns final (min (or_hour t) (or_hour p)) rounds k e') (by_zero e s es) r)
  where
    by_zero : (a b : ℕ) → a ≡ 0 + b → b ≡ a
    by_zero a b h = omega arith
