-- ===== src/Prelude/Exec.antt =====
-- Methods that read and change a state and may raise. What was done before a raise stays done, so
-- the state comes back beside the exception too. `Exc` is the type of exceptions.

pub data Result {ℓ} (Exc A : Type ℓ) : Type ℓ where
  ok : A → Result Exc A
  err : Exc → Result Exc A

abbrev pub Exec {ℓ} : Type ℓ → Type ℓ → Type ℓ → Type ℓ
Exec Exc S A = S → Result Exc A × S

module _ {ℓ} {Exc S A : Type ℓ} where
  abbrev pub pure : A → Exec Exc S A
  pure a s = (ok a, s)

  abbrev pub raise : Exc → Exec Exc S A
  raise e s = (err e, s)

module _ {ℓ} {Exc S A B : Type ℓ} where
  abbrev pub continue : Result Exc A × S → (A → Exec Exc S B) → Result Exc B × S
  continue (ok a, s) f = f a s
  continue (err e, s) f = (err e, s)

  infixl 10 ◌>>=◌ ◌>>◌
  abbrev pub ◌>>=◌ : Exec Exc S A → (A → Exec Exc S B) → Exec Exc S B
  ◌>>=◌ m f s = continue (m s) f

  abbrev pub ◌>>◌ : Exec Exc S A → Exec Exc S B → Exec Exc S B
  m >> k = m >>= λ _. k

module _ {ℓ} {Exc S A : Type ℓ} where
  abbrev pub handled : Result Exc A × S → (Exc → Exec Exc S A) → Result Exc A × S
  handled (ok a, s) h = (ok a, s)
  handled (err e, s) h = h e s

  infixl 10 ◌catch◌
  -- `try: m  except Exception as e: h(e)`
  abbrev pub ◌catch◌ : Exec Exc S A → (Exc → Exec Exc S A) → Exec Exc S A
  ◌catch◌ m h s = handled (m s) h

module _ {ℓ} {Exc S A B : Type ℓ} where
  -- An exception that the `finally` block raises replaces the result.
  abbrev pub ended : Result Exc A → Result Exc B × S → Result Exc A × S
  ended r (ok _, s) = (r, s)
  ended r (err e, s) = (err e, s)

  abbrev pub finished : Result Exc A × S → Exec Exc S B → Result Exc A × S
  finished (r, s) k = ended r (k s)

  infixl 10 ◌finally◌
  -- `try: m  finally: k`
  abbrev pub ◌finally◌ : Exec Exc S A → Exec Exc S B → Exec Exc S A
  ◌finally◌ m k s = finished (m s) k
