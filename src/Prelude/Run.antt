-- ===== src/Prelude/Run.antt =====
-- The outcome of a piece of kernel code, and the monad of code that reads and writes a state `S`.

-- `fault` is an access through NULL or past the end of a buffer, `panic` a call of `kpanic` or
-- `kdeadlock`, and `out_of_fuel` a loop that has used up the rounds the model gives it.
pub data Run (S A : Type 0) : Type 0 where
  ok : A → S → Run S A
  fault : Run S A
  panic : Run S A
  out_of_fuel : Run S A

abbrev pub Cmd : Type 0 → Type 0 → Type 0
Cmd S A = S → Run S A

abbrev pub pure : {S A : Type 0} → A → Cmd S A
pure = ok

abbrev pub and_then : {S A B : Type 0} → Run S A → (A → Cmd S B) → Run S B
and_then (ok a s) k = k a s
and_then fault k = fault
and_then panic k = panic
and_then out_of_fuel k = out_of_fuel

infixl 5 ◌>>=◌ ◌>>◌
abbrev pub ◌>>=◌ : {S A B : Type 0} → Cmd S A → (A → Cmd S B) → Cmd S B
m >>= k = λ s. and_then (m s) k

abbrev pub ◌>>◌ : {S B : Type 0} → Cmd S (Unit {0}) → Cmd S B → Cmd S B
m >> k = m >>= λ _. k

-- The state, and a change of it.
abbrev pub gets : {S A : Type 0} → (S → A) → Cmd S A
gets f s = ok (f s) s

abbrev pub modify : {S : Type 0} → (S → S) → Cmd S (Unit {0})
modify f s = ok tt (f s)

abbrev pub return : {S : Type 0} → Cmd S (Unit {0})
return s = ok tt s
