-- ===== src/Provisioner/Hardware.antt =====
-- What n2vc/provisioner.py reads of a machine: `normalize_arch` and `_detect_hardware_and_os`.
pub mod Cores
use n2vc.Prelude.{
  ℕ, ◌+◌, ◌-◌, ◌*◌, Bool, true, false, ◌&&◌, ◌||◌, ◌==◌, leb, ltb, Option, none, some, List, [],
  ◌∷◌, ◌++◌, if◌then◌else◌,
}
use Prim.Native.Nat.{◌/◌, ◌%◌}
use n2vc.Prelude.Exec.{Result, ok, err}
use n2vc.Exception.{Exception, index_error, value_error}
use n2vc.Text.{Text, codes, starts_with, contains, text_eq, is_space, Unicode}
use n2vc.Text.Split.{split}
use n2vc.Helm.Output.{strip}

-- Regular expressions, matched at the start of a text.
abbrev is_x86 : Text → Bool
is_x86 (c ∷ s) = leb b'3' c && leb c b'9' && starts_with (codes "86") s
is_x86 [] = false

-- i?[3-9]86
abbrev is_i386 : Text → Bool
is_i386 [] = false
is_i386 (c ∷ s) = (c == b'i' && is_x86 s) || is_x86 (c ∷ s)

-- The first expression of `arches` that matches.
unfoldable pub normalize_arch : Text → Option Text
unfolding starts_with text_eq
normalize_arch raw =
    if starts_with (codes "amd64") raw || starts_with (codes "x86_64") raw
    then some (codes "amd64")
    else if is_i386 raw
    then some (codes "i386")
    else if text_eq raw (codes "arm") || starts_with (codes "armv") raw
    then some (codes "armhf")
    else if starts_with (codes "aarch64") raw
    then some (codes "arm64")
    else if starts_with (codes "ppc64") raw
    then some (codes "ppc64el")
    else if starts_with (codes "s390") raw
    then some (codes "s390x")
    else none

pub record Info : Type 0 where
  pub series : Text
  pub arch : Option Text
  pub cpu_cores : Text
  pub mem : ℕ

-- int(s) of a text of digits; signs and underscores, which /proc does not write, are no digits here.
unfoldable pub digits_from : ℕ → Text → Option ℕ
digits_from n [] = some n
digits_from n (c ∷ s) =
    if leb b'0' c && leb c b'9' then digits_from (n * 10 + (c - b'0')) s else none

unfoldable pub int_of : Text → Option ℕ
unfolding digits_from
int_of [] = none
int_of (c ∷ s) = digits_from 0 (c ∷ s)

-- round(kb / 1024): a half is rounded to an even number.
unfoldable pub round_1024 : ℕ → ℕ
round_1024 kb =
    if ltb 512 (kb % 1024)
    then kb / 1024 + 1
    else if kb % 1024 == 512
    then kb / 1024 + kb / 1024 % 2
    else kb / 1024

abbrev pub bind :
    {A B : Type 0} → Result Exception A → (A → Result Exception B) → Result Exception B
bind (ok a) f = f a
bind (err x) f = err x

abbrev pub or_error : {A : Type 0} → Exception → Option A → Result Exception A
or_error x none = err x
or_error x (some a) = ok a

-- parts[1]
abbrev pub second : List Text → Result Exception Text
second (g ∷ h ∷ gs) = ok h
second gs = err index_error

-- `physical_id not in recorded.keys()`
unfoldable pub has_key : Text → List Text → Bool
unfolding text_eq
has_key k [] = false
has_key k (j ∷ js) = text_eq j k || has_key k js

module _ ⦃u : Unicode⦄ where
  -- re.split(r"\s+", line)[1]: what stands between the first and the second spaces.
  unfoldable pub word_of : Text → Text
  word_of [] = []
  word_of (c ∷ s) = let rest = word_of s in if is_space c then [] else c ∷ rest

  unfoldable pub after_spaces : Text → Text
  unfolding word_of
  after_spaces [] = []
  after_spaces (c ∷ s) = let rest = after_spaces s in if is_space c then rest else word_of (c ∷ s)

  unfoldable pub second_word : Text → Result Exception Text
  unfolding after_spaces
  second_word [] = err index_error
  second_word (c ∷ s) = let rest = second_word s in if is_space c then ok (after_spaces s) else rest

  abbrev pub value_of : Text → Result Exception Text
  value_of line = bind (second (split b':' line)) (λ v. ok (strip v))

  -- The loop over the lines of /proc/cpuinfo, with the cores so far and the keys of `recorded`. Each
  -- line starts with an empty `physical_id`.
  unfoldable pub count_cores : List Text → List Text → Text → Result Exception Text
  unfolding starts_with split strip has_key
  count_cores [] recorded cores = ok cores
  count_cores (line ∷ lines) recorded cores =
      let physical_id : Text = [] in
      let skip = count_cores lines recorded cores in
      let count = λ (value : Text). count_cores lines (physical_id ∷ recorded) (cores ++ value) in
      if starts_with (codes "physical id") line
      then bind (value_of line) (λ _. skip)
      else if starts_with (codes "cpu cores") line
      then bind (value_of line)
          (λ value. if has_key physical_id recorded then skip else count value)
      else skip

  -- The series, the architecture, the memory and the processors, from the lines of the script.
  unfoldable pub hardware : List Text → Result Exception Info
  unfolding normalize_arch second_word int_of round_1024 count_cores strip
  hardware (series ∷ arch ∷ mem ∷ lines) = bind (second_word mem) (λ word.
      bind (or_error value_error (int_of word)) (λ kb. bind (count_cores lines [] []) (λ cores.
        ok (record {
          series = strip series;
          arch = normalize_arch (strip arch);
          cpu_cores = cores;
          mem = round_1024 kb;
        }))))
  hardware lines = err index_error

  -- SSHProvisioner: without a first line that complains about the name of the host.
  unfoldable pub resolved : List Text → List Text
  unfolding contains
  resolved [] = []
  resolved (line ∷ lines) =
      if contains (codes "unable to resolve host") line then lines else line ∷ lines

  unfoldable pub detect_hardware : Text → Result Exception Info
  unfolding hardware split
  detect_hardware stdout = hardware (split b'\n' stdout)

  unfoldable pub detect_resolved : Text → Result Exception Info
  unfolding hardware split resolved
  detect_resolved stdout = hardware (resolved (split b'\n' stdout))
