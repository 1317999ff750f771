-- ===== src/Watcher/Writes.antt =====
-- What the watcher writes to a database that accepts every call.
use n2vc.Prelude.{
  ◌+◌, arith, refl, ap, ◌∙◌, inr, append_assoc, Bool-cases, ◌∷◌, append-nil, inl, ◌⊎◌, ◌++◌, false,
  [], ltb, ◌≡◌, List, String, ℕ,
}
use n2vc.Prelude.Exec.{Result, ok, err}
use n2vc.Exception
use n2vc.Database.{Call}
use n2vc.Text.{Text}
use n2vc.Watcher.{Change, Watch, watch, model_watcher}
use n2vc.Watcher.Spec.{accepting, Writes, writes_of, writes_of_changes, end_of, OnTime, OverAtLast}
use n2vc.Watcher.Steps.{watch_step}

-- How the watcher ends after some changes, and the calls that it has made.
abbrev pub Ends :
    Watch
    → ℕ
    → String × String × Text
    → List Change
    → List Change
    → List Call
    → Result Exception.Exception (Unit {0}) × List Call
    → Type 0
Ends w end t before after calls result =
    ((after ≡ []) × OnTime w end before × (result ≡ (ok tt, calls ++ writes_of_changes w t before)))
    ⊎ (OverAtLast w end before
        × (result ≡ (err Exception.timeout_error, calls ++ writes_of_changes w t before)))

over_later :
    (w : Watch) (c : Change) (before : List Change) (end : ℕ)
    → ltb (end_of w c.deltas end) c.checked ≡ false
    → OverAtLast w (end_of w c.deltas end) before
    → OverAtLast w end (c ∷ before)
unfolding OverAtLast
over_later w c [] end early over = absurd over
over_later w c (k ∷ before) end early over = (ground arith, over)

module _ (w : Watch) (t : String × String × Text) (to : Writes w t) where
  Ends-cons :
      (c : Change) (cs before after : List Change) (end : ℕ) (calls : List Call)
      → ltb (end_of w c.deltas end) c.checked ≡ false
      → Ends w
          (end_of w c.deltas end)
          t
          before
          after
          (calls ++ writes_of w t c.deltas)
          (watch accepting w cs (end_of w c.deltas end) (calls ++ writes_of w t c.deltas))
      → Ends w end t (c ∷ before) after calls (watch accepting w (c ∷ cs) end calls)
  unfolding writes_of_changes
  Ends-cons c cs before after end calls early (inl (done, on_time, e)) = inl (
    done,
    (unfold OnTime in (ground arith, on_time)),
    watch_step w t to c cs end calls ∙ rw early (e ∙ rw append_assoc),
  )
  Ends-cons c cs before after end calls early (inr (over, e)) = inr (
    over_later w c before end early over,
    watch_step w t to c cs end calls ∙ rw early (e ∙ rw append_assoc),
  )

  watch_writes :
      (cs : List Change) (end : ℕ) (calls : List Call)
      → (before after : List Change) × (cs ≡ before ++ after)
        × Ends w end t before after calls (watch accepting w cs end calls)
  watch_writes [] end calls = (
    [],
    [],
    refl,
    inl (refl, unfold OnTime in tt, unfold watch writes_of_changes in rw append-nil),
  )
  watch_writes (c ∷ cs) end calls = elim (Bool-cases (ltb (end_of w c.deltas end) c.checked)) [
    | inl late ↦ (
      c ∷ [],
      cs,
      refl,
      inr (
        (unfold OverAtLast in ground arith),
        watch_step w t to c cs end calls ∙ rw late (unfold writes_of_changes in rw append-nil),
      ),
    )
    | inr early ↦
        let (before, after, e, r) =
          watch_writes cs (end_of w c.deltas end) (calls ++ writes_of w t c.deltas) in
        (c ∷ before, after, ap (◌∷◌ c) e, Ends-cons c cs before after end calls early r)
  ]

  -- Against a database that accepts every call, the watcher ends when the stream of changes ends, each
  -- change having been checked before the timeout that its deltas set had passed; or by its timeout,
  -- after the first change that was checked later. Up to there it has written, in their order, exactly
  -- the deltas of its entity (for an application those of its units too), and nothing else.
  pub model_watcher_writes :
      (now : ℕ) (changes : List Change) (calls : List Call)
      → (before after : List Change) × (changes ≡ before ++ after)
        × Ends w
            (now + w.timeout)
            t
            before
            after
            calls
            (model_watcher accepting w now changes calls)
  unfolding model_watcher
  model_watcher_writes now changes calls = watch_writes changes (now + w.timeout) calls
