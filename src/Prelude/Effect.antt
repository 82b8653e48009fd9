-- ===== src/Prelude/Effect.antt =====
-- Methods that change a state and may raise; what one did before it raised stays done.
use one_m2m_dds_ipe.Prelude.Result.{Result, ok, err, Error}

abbrev pub Effect : Type 0 → Type 0 → Type 0
Effect S A = S → Result A × S

module _ {S : Type 0} where
  abbrev pub then_do : {A B : Type 0} → Result A → (A → Effect S B) → Effect S B
  then_do (ok a) f s = f a s
  then_do (err e) f s = (err e, s)

  infixl 5 ◌>>=◌ ◌>>◌
  abbrev pub ◌>>=◌ : {A B : Type 0} → Effect S A → (A → Effect S B) → Effect S B
  ◌>>=◌ m f s = let (a, s') = m s in then_do a f s'

  abbrev pub ◌>>◌ : {A B : Type 0} → Effect S A → Effect S B → Effect S B
  m >> k = m >>= λ _. k

  abbrev pub return : {A : Type 0} → A → Effect S A
  return a s = (ok a, s)

  abbrev pub raised : {A : Type 0} → Error → Effect S A
  raised e s = (err e, s)

  -- `try: m finally: last`, where the last part does not raise
  abbrev pub ensure : {A : Type 0} → (S → S) → Effect S A → Effect S A
  ensure last m s = let (a, s') = m s in (a, last s')
