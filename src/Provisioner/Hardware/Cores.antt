-- ===== src/Provisioner/Hardware/Cores.antt =====
-- Processors and memory as n2vc/provisioner.py reads them.
use n2vc.Prelude.{
  ◌≡◌, refl, ℕ, ◌+◌, ◌*◌, ◌≤◌, Bool, true, false, not, ◌&&◌, List, [], ◌∷◌, ◌++◌, if◌then◌else◌,
  arith,
}
use n2vc.Prelude.Exec.{Result, ok, err}
use n2vc.Exception.{Exception}
use n2vc.Text.{Text, codes, starts_with, Unicode}
use n2vc.Provisioner.Hardware.{bind, has_key, value_of, count_cores, round_1024}

-- The memory is off by half a megabyte at most.
pub round_1024_bounds :
    (kb : ℕ) → (round_1024 kb * 1024 ≤ kb + 512) × (kb ≤ round_1024 kb * 1024 + 512)
unfolding round_1024
round_1024_bounds kb = ground arith

module _ ⦃u : Unicode⦄ where
  abbrev value_or_nil : Result Exception Text → Text
  value_or_nil (ok v) = v
  value_or_nil (err x) = []

  -- What the first line on cores says.
  pub first_cores : List Text → Text
  first_cores [] = []
  first_cores (line ∷ lines) =
      let rest = first_cores lines in
      if not (starts_with (codes "physical id") line) && starts_with (codes "cpu cores") line
      then value_or_nil (value_of line)
      else rest

  abbrev pub Counts : Text → Result Exception Text → Type 0
  Counts expected (ok cores) = cores ≡ expected
  Counts expected (err x) = Unit

  -- Once a line was counted, no other is.
  counted_once :
      (lines : List Text) (cores : Text) → Counts cores (count_cores lines ([] ∷ []) cores)
  unfolding count_cores
  counted_once [] cores = refl
  counted_once (line ∷ lines) cores =
      go (starts_with (codes "physical id") line) (starts_with (codes "cpu cores") line)
        (value_of line) (counted_once lines cores)
    where
      rest : Result Exception Text
      rest = count_cores lines ([] ∷ []) cores

      go :
          (p c : Bool) (v : Result Exception Text)
          → Counts cores rest
          → Counts cores (
              if p
              then bind v (λ _. rest)
              else if c
              then bind v (λ value.
                if has_key [] ([] ∷ [])
                then rest
                else count_cores lines ([] ∷ [] ∷ []) (cores ++ value))
              else rest)
      go true c (ok v) k = k
      go true c (err x) k = tt
      go false true (ok v) k = k
      go false true (err x) k = tt
      go false false v k = k

  -- Of all the lines on cores only the first counts, however many processors there are: where the
  -- lines can be read, the number of cores is what it says, or empty if there is none.
  pub count_cores_first : (lines : List Text) → Counts (first_cores lines) (count_cores lines [] [])
  unfolding count_cores first_cores
  count_cores_first [] = refl
  count_cores_first (line ∷ lines) =
      go (starts_with (codes "physical id") line) (starts_with (codes "cpu cores") line)
        (value_of line) (count_cores_first lines)
    where
      rest : Result Exception Text
      rest = count_cores lines [] []

      go :
          (p c : Bool) (v : Result Exception Text)
          → Counts (first_cores lines) rest
          → Counts (if not p && c then value_or_nil v else first_cores lines) (
              if p
              then bind v (λ _. rest)
              else if c
              then bind v (λ value.
                if has_key [] [] then rest else count_cores lines ([] ∷ []) ([] ++ value))
              else rest)
      go true c (ok v) k = k
      go true c (err x) k = tt
      go false true (ok v) k = counted_once lines v
      go false true (err x) k = tt
      go false false v k = k
