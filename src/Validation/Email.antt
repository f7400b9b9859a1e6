-- ===== src/Validation/Email.antt =====
-- The rule of internal/app/validation/app_validation.go for email addresses. Its expression is read by
-- the matcher below; package regexp, which matches it in the code, searches the same language.
pub mod Grammar
use Prim.Native.Char.{code}
use kenshu_elaris_project_st.Base.{ℕ, String, Bool, true, false, not, ◌&&◌, ◌||◌, ◌==◌, leb}
use kenshu_elaris_project_st.Validation.{Validator, add_step, violation}

-- The classes `[A-Za-z]`, `[a-zA-Z0-9.\-]` and `[a-zA-Z0-9._%+\-]`.
unfoldable pub letter : ℕ → Bool
letter c = (leb 65 c && leb c 90) || (leb 97 c && leb c 122)

unfoldable pub domain_char : ℕ → Bool
unfolding letter
domain_char c = letter c || (leb 48 c && leb c 57) || c == 46 || c == 45

unfoldable pub local_char : ℕ → Bool
unfolding domain_char
local_char c = domain_char c || c == 95 || c == 37 || c == 43

-- Characters of a class, and none but those: `p*`.
abbrev pub all_of : (ℕ → Bool) → String → Bool
all_of p String.[] = true
all_of p (String.◌∷◌ c s) = p (code c) && all_of p s

-- `p{2,}`.
abbrev pub two_or_more : (ℕ → Bool) → String → Bool
two_or_more p String.[] = false
two_or_more p (String.◌∷◌ c String.[]) = false
two_or_more p (String.◌∷◌ c (String.◌∷◌ d s)) = p (code c) && (p (code d) && all_of p s)

-- `p*`, the character `stop`, and what `inner` matches.
abbrev pub any_then : (p : ℕ → Bool) (stop : ℕ) (inner : String → Bool) → String → Bool
any_then p stop inner String.[] = false
any_then p stop inner (String.◌∷◌ c s) =
    (code c == stop && inner s) || (p (code c) && any_then p stop inner s)

-- With `p+` in front.
abbrev pub some_then : (p : ℕ → Bool) (stop : ℕ) (inner : String → Bool) → String → Bool
some_then p stop inner String.[] = false
some_then p stop inner (String.◌∷◌ c s) = p (code c) && any_then p stop inner s

unfoldable pub email_matches : String → Bool
unfolding local_char domain_char letter
email_matches = some_then local_char 64 (some_then domain_char 46 (two_or_more letter))

unfoldable pub email_format : String → Validator → Validator
unfolding email_matches
email_format email v =
    add_step v λ _. violation (not (email_matches email)) "email" "email not valid"
