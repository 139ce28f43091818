-- ===== src/Machine/Keeps.antt =====
-- Functions that keep an invariant of the state, however they end, with what is known of a result
-- that they return.
use live_streamer.Common.{
  ℕ, subst, ◌≡◌, refl, Bool, true, false, Option, none, some, ⊤, if◌then◌else◌,
}
use live_streamer.Machine.{
  M, Outcome, ok, fault, exited, waiting, next, pure, crash, exit, gets, modify, deref, ◌>>=◌,
}

pub record Keeps {S A : Type 0} (I : S → Type 0) (m : M S A) (Q : A → Type 0) : Type 0 where
  pub after : (s : S) → I s → I (m s).1
  pub returns : (s : S) → I s → (a : A) → (m s).0 ≡ ok a → Q a

-- Nothing is said of the result.
abbrev pub Any : {A : Type 0} → A → Type 0
Any a = ⊤

module _ {S A B : Type 0} {I : S → Type 0} {Q : A → Type 0} {R : B → Type 0} (f : A → M S B)
    (rest : (a : A) → Q a → Keeps I (f a) R) where
  next-after : (r : Outcome A) (s : S) → I s → ((a : A) → r ≡ ok a → Q a) → I (next f r s).1
  next-after (ok a) s h q = (rest a (q a refl)).after s h
  next-after fault s h q = h
  next-after (exited n) s h q = h
  next-after waiting s h q = h

  next-returns :
      (r : Outcome A) (s : S)
      → I s
      → ((a : A) → r ≡ ok a → Q a)
      → (b : B) → (next f r s).0 ≡ ok b
      → R b
  next-returns (ok a) s h q b e = (rest a (q a refl)).returns s h b e
  next-returns fault s h q b e = absurd cc
  next-returns (exited n) s h q b e = absurd cc
  next-returns waiting s h q b e = absurd cc

  Keeps-bind : {m : M S A} → Keeps I m Q → Keeps I (m >>= f) R
  Keeps-bind {m} k = record {
    after = λ s h. next-after (m s).0 (m s).1 (k.after s h) (k.returns s h);
    returns = λ s h. next-returns (m s).0 (m s).1 (k.after s h) (k.returns s h);
  }

-- The rule for a call in a `do` block, written in the order of the code.
infixr 5 ◌▸◌
pub ◌▸◌ :
    {S A B : Type 0} {I : S → Type 0} {Q : A → Type 0} {R : B → Type 0} {m : M S A} {f : A → M S B}
    → Keeps I m Q
    → ((a : A) → Q a → Keeps I (f a) R)
    → Keeps I (m >>= f) R
◌▸◌ {f = f} k rest = Keeps-bind f rest k

module _ {S A : Type 0} {I : S → Type 0} {Q : A → Type 0} where
  pub Keeps-pure : (a : A) → Q a → Keeps I (pure a) Q
  Keeps-pure a q = record { after = λ s h. h; returns = λ s h b e. subst Q (cc) q }

  pub Keeps-crash : Keeps I (crash {S = S} {A = A}) Q
  Keeps-crash = record { after = λ s h. h; returns = λ s h b e. absurd cc }

  pub Keeps-exit : (n : ℕ) → Keeps I (exit {S = S} {A = A} n) Q
  Keeps-exit n = record { after = λ s h. h; returns = λ s h b e. absurd cc }

  pub Keeps-if :
      (b : Bool) {m k : M S A} → Keeps I m Q → Keeps I k Q → Keeps I (if b then m else k) Q
  Keeps-if true h k = h
  Keeps-if false h k = k

module _ {S A : Type 0} {I : S → Type 0} {Q R : A → Type 0} where
  pub Keeps-weaken : {m : M S A} → ((a : A) → Q a → R a) → Keeps I m Q → Keeps I m R
  Keeps-weaken w k = record { after = k.after; returns = λ s h a e. w a (k.returns s h a e) }

module _ {S A : Type 0} {I : S → Type 0} where
  pub Keeps-gets : (f : S → A) → Keeps I (gets f) Any
  Keeps-gets f = record { after = λ s h. h; returns = λ s h a e. tt }

  pub Keeps-deref : (x : Option A) → Keeps I (deref {S = S} x) (λ a. x ≡ some a)
  Keeps-deref none = Keeps-crash
  Keeps-deref (some a) = Keeps-pure a refl

pub Keeps-modify :
    {S : Type 0} {I : S → Type 0} (f : S → S) → ((s : S) → I s → I (f s)) → Keeps I (modify f) Any
Keeps-modify f h = record { after = h; returns = λ s k a e. tt }
