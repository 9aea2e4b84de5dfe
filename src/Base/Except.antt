-- ===== src/Base/Except.antt =====
-- What a Go function returns that has an error beside its value, with errors of any type.

pub data Except {ℓ} (Error : Type ℓ) (A : Type ℓ) : Type ℓ where
  raise : Error → Except Error A
  done : A → Except Error A

-- `if err != nil { return …, err }`
infixl 5 ◌>>=◌
abbrev pub ◌>>=◌ {ℓ} : {Error A B : Type ℓ} → Except Error A → (A → Except Error B) → Except Error B
raise e >>= next = raise e
done a >>= next = next a
