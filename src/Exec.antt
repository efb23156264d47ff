-- ===== src/Exec.antt =====
-- Code that changes a state: it ends with a value, with an exception that leaves the state as it was
-- when it was thrown, or in a behaviour that the language leaves open.
use concurrent_banking_syste.Run.{Run, ok, throws, fault, Exception, Fault}

pub data Outcome (S A : Type 0) : Type 0 where
  done : A → S → Outcome S A
  thrown : Exception → S → Outcome S A
  stuck : Fault → Outcome S A

abbrev pub Action : Type 0 → Type 0 → Type 0
Action S A = S → Outcome S A

abbrev pub continue : {S A B : Type 0} → (A → Action S B) → Outcome S A → Outcome S B
continue f (done a s) = f a s
continue f (thrown e s) = thrown e s
continue f (stuck u) = stuck u

infixl 5 ◌>>=◌ ◌>>◌
abbrev pub ◌>>=◌ : {S A B : Type 0} → Action S A → (A → Action S B) → Action S B
(m >>= f) s = continue f (m s)

abbrev pub ◌>>◌ : {S B : Type 0} → Action S (Unit {0}) → Action S B → Action S B
m >> k = m >>= λ _. k

abbrev pub give : {S A : Type 0} → A → Action S A
give a s = done a s

-- A computation that only reads the state.
abbrev pub lift : {S A : Type 0} → Run A → Action S A
lift (ok a) s = done a s
lift (throws e) s = thrown e s
lift (fault u) s = stuck u

abbrev pub reading : {S A : Type 0} → (S → Run A) → Action S A
reading f s = lift (f s) s

abbrev pub modify : {S : Type 0} → (S → S) → Action S (Unit {0})
modify f s = done tt (f s)

-- `try { m } catch (const std::exception &e) { handler }`.
abbrev pub handled : {S A : Type 0} → (Exception → Action S A) → Outcome S A → Outcome S A
handled handler (done a s) = done a s
handled handler (thrown e s) = handler e s
handled handler (stuck u) = stuck u

abbrev pub try_catch : {S A : Type 0} → Action S A → (Exception → Action S A) → Action S A
try_catch m handler s = handled handler (m s)
