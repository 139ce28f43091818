-- ===== src/Machine.antt =====
-- How a C function ends, and the state it leaves: the process keeps what it wrote before it died,
-- so the state comes back on every outcome.
pub mod Keeps
use live_streamer.Common.{Option, none, some, ⊤, ℕ, ◌≡◌}

pub data Outcome {ℓ} (A : Type ℓ) : Type ℓ where
  -- It returns.
  ok : A → Outcome A
  -- A NULL pointer is dereferenced or handed to a function that does so.
  fault : Outcome A
  -- `exit(status)`
  exited : ℕ → Outcome A
  -- It blocks for input that never comes.
  waiting : Outcome A

-- A C function over the program's state.
abbrev pub M {ℓ} : Type ℓ → Type ℓ → Type ℓ
M S A = S → Outcome A × S

module _ {ℓ} {S A : Type ℓ} where
  abbrev pub pure : A → M S A
  pure a s = (ok a, s)

  -- Stops with an outcome that is no return.
  abbrev pub crash : M S A
  crash s = (fault, s)

  abbrev pub exit : ℕ → M S A
  exit n s = (exited n, s)

  abbrev pub wait : M S A
  wait s = (waiting, s)

  abbrev pub gets : (S → A) → M S A
  gets f s = (ok (f s), s)

  -- Reads through a pointer.
  abbrev pub deref : Option A → M S A
  deref none = crash
  deref (some a) = pure a

abbrev pub modify : {S : Type 0} → (S → S) → M S ⊤
modify f s = (ok tt, f s)

module _ {ℓ} {S A B : Type ℓ} where
  -- The rest of a function, once a call in it has ended.
  abbrev pub next : (A → M S B) → Outcome A → S → Outcome B × S
  next f (ok a) s = f a s
  next f fault s = (fault, s)
  next f (exited n) s = (exited n, s)
  next f waiting s = (waiting, s)

infixl 5 ◌>>=◌ ◌>>◌
abbrev pub ◌>>=◌ {ℓ} : {S A B : Type ℓ} → M S A → (A → M S B) → M S B
◌>>=◌ m f s = next f (m s).0 (m s).1

abbrev pub ◌>>◌ {ℓ} : {S A B : Type ℓ} → M S A → M S B → M S B
m >> k = m >>= λ _. k

-- A call that returns, inside a larger function.
pub >>=-ok {ℓ} :
    {S A B : Type ℓ} (m : M S A) (f : A → M S B) {s s' : S} {a : A}
    → m s ≡ (ok a, s')
    → (m >>= f) s ≡ f a s'
>>=-ok m f e = rw e
