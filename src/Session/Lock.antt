-- ===== src/Session/Lock.antt =====
-- A Boolean flag as a lock: it is set while one task holds it.
use n2vc.Prelude.{
  ℕ, ◌≡◌, ◌≢◌, refl, sym, ◌∙◌, Bool, true, false, arith, ◌==◌, ==_iff, if◌then◌else◌, inl, inr,
  Bool-cases,
}

-- At most one task holds the lock, and the flag is set exactly while one does.
pub record IsLocked (flag : Bool) (holds : ℕ → Bool) : Type 0 where
  pub one : (i j : ℕ) → holds i ≡ true → holds j ≡ true → i ≡ j
  pub flagged : (i : ℕ) → holds i ≡ true → flag ≡ true
  pub held : flag ≡ true → (i : ℕ) × (holds i ≡ true)

-- What a step does to the lock: whether the task held it before and holds it after, and the flag
-- before and after.
pub data Moves (before after flag flag' : Bool) : Type 0 where
  same : after ≡ before → flag' ≡ flag → Moves before after flag flag'
  takes : after ≡ true → flag ≡ false → flag' ≡ true → Moves before after flag flag'
  releases : before ≡ true → after ≡ false → flag' ≡ false → Moves before after flag flag'

-- The holders after the step of one task.
abbrev pub updated : ℕ → Bool → (ℕ → Bool) → ℕ → Bool
updated i b holds j = if j == i then b else holds j

updated_self : (i : ℕ) (b : Bool) (holds : ℕ → Bool) → updated i b holds i ≡ b
updated_self i b holds = rw ((==_iff i i).1 refl)

pub IsLocked-updated :
    (flag flag' b : Bool) (holds : ℕ → Bool) (i : ℕ)
    → IsLocked flag holds
    → Moves (holds i) b flag flag'
    → IsLocked flag' (updated i b holds)
IsLocked-updated flag flag' b holds i h (same e e') = record {
  one = λ j k a c. h.one j k (back j a) (back k c);
  flagged = λ j a. e' ∙ h.flagged j (back j a);
  held = λ f. let (j, a) = h.held (sym e' ∙ f) in (j, ahead j a);
}
  where
    back : (j : ℕ) → updated i b holds j ≡ true → holds j ≡ true
    back j a = elim (Bool-cases (j == i)) [
      | inl q ↦ ground (arith, (==_iff j i).0 q, e)
      | inr q ↦ ground arith
    ]

    ahead : (j : ℕ) → holds j ≡ true → updated i b holds j ≡ true
    ahead j a = elim (Bool-cases (j == i)) [
      | inl q ↦ ground (arith, (==_iff j i).0 q, e)
      | inr q ↦ ground arith
    ]
IsLocked-updated flag flag' b holds i h (takes e f f') = record {
  one = λ j k a c. only j a ∙ sym (only k c);
  flagged = λ j a. f';
  held = λ g. (i, updated_self i b holds ∙ e);
}
  where
    only : (j : ℕ) → updated i b holds j ≡ true → j ≡ i
    only j a = elim (Bool-cases (j == i)) [
      | inl q ↦ (==_iff j i).0 q
      | inr q ↦ absurd (ground (arith, h.flagged j))
    ]
IsLocked-updated flag flag' b holds i h (releases d e f') = record {
  one = λ j k a c. absurd (none j a);
  flagged = λ j a. absurd (none j a);
  held = λ g. absurd (ground arith);
}
  where
    none : (j : ℕ) → updated i b holds j ≢ true
    none j a = elim (Bool-cases (j == i)) [
      | inl q ↦ ground arith
      | inr q ↦ ground (arith, h.one j i, (==_iff j i).1)
    ]

pub IsLocked-agree :
    (flag : Bool) (holds holds' : ℕ → Bool)
    → ((i : ℕ) → holds' i ≡ holds i)
    → IsLocked flag holds
    → IsLocked flag holds'
IsLocked-agree flag holds holds' e h = record {
  one = λ i j a c. h.one i j (sym (e i) ∙ a) (sym (e j) ∙ c);
  flagged = λ i a. h.flagged i (sym (e i) ∙ a);
  held = λ f. let (i, a) = h.held f in (i, e i ∙ a);
}

pub IsLocked-free : (holds : ℕ → Bool) → ((i : ℕ) → holds i ≡ false) → IsLocked false holds
IsLocked-free holds h = record {
  one = λ i j a c. ground (arith, h i);
  flagged = λ i a. ground (arith, h i);
  held = λ f. absurd (ground arith);
}
