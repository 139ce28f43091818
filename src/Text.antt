-- ===== src/Text.antt =====
-- C strings: the bytes before the terminating NUL, and `strcmp` of <string.h>.
use Prim.Native.Char.{code}
use live_streamer.Common.{
  ℕ, ◌≡◌, ◌≢◌, refl, ◌↔◌, Bool, true, false, ◌&&◌, List, [], ◌∷◌, ◌++◌, String, arith, ◌==◌,
  if◌then◌else◌, ⊤, length, ◌≤◌,
}

abbrev pub Text : Type 0
Text = List ℕ

-- The bytes of a literal. It is shut, so that a literal stays one name in a statement.
unfoldable pub codes : String → Text
codes String.[] = []
codes (String.◌∷◌ c s) = code c ∷ codes s

-- `strcmp(s, t) == 0`
unfoldable pub text_eq : Text → Text → Bool
text_eq [] [] = true
text_eq [] (d ∷ t) = false
text_eq (c ∷ s) [] = false
text_eq (c ∷ s) (d ∷ t) = (c == d) && text_eq s t

pub text_eq_refl : (s : Text) → text_eq s s ≡ true
unfolding text_eq
text_eq_refl [] = refl
text_eq_refl (c ∷ s) = ground (arith, text_eq_refl s)

pub eq_of_text_eq : (s t : Text) → text_eq s t ≡ true → s ≡ t
unfolding text_eq
eq_of_text_eq [] [] h = refl
eq_of_text_eq [] (d ∷ t) h = cc
eq_of_text_eq (c ∷ s) [] h = cc
eq_of_text_eq (c ∷ s) (d ∷ t) h = ground (arith, eq_of_text_eq s t)

pub text_eq_iff : (s t : Text) → (text_eq s t ≡ true) ↔ (s ≡ t)
text_eq_iff s t = (eq_of_text_eq s t, λ e. ground (arith, text_eq_refl s))

pub text_eq_ne : (s t : Text) → s ≢ t → text_eq s t ≡ false
text_eq_ne s t h = ground (arith, eq_of_text_eq s t)

-- The bytes of an array up to the first NUL: what a `char *` into it denotes.
unfoldable pub c_string : List ℕ → Text
c_string [] = []
c_string (c ∷ s) = if c == 0 then [] else c ∷ c_string s

-- No byte is NUL.
abbrev pub IsCString : Text → Type 0
IsCString [] = ⊤
IsCString (c ∷ s) = (c ≢ 0) × IsCString s

pub c_string_terminated : (s r : List ℕ) → IsCString s → c_string (s ++ 0 ∷ r) ≡ s
unfolding c_string
c_string_terminated [] r h = refl
c_string_terminated (c ∷ s) r h = ground (arith, c_string_terminated s r h.1)

pub IsCString-append : (s t : Text) → IsCString s → IsCString t → IsCString (s ++ t)
IsCString-append [] t hs ht = ht
IsCString-append (c ∷ s) t hs ht = (hs.0, IsCString-append s t hs.1 ht)

pub length-c_string : (s : List ℕ) → length (c_string s) ≤ length s
unfolding c_string
length-c_string [] = omega arith
length-c_string (c ∷ s) = ground (arith, length-c_string s)
