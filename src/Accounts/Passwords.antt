-- ===== src/Accounts/Passwords.antt =====
-- `validate_password_strength` of server/src/routes/auth.rs.
use Prim.Native.Char.{code}
use Prim.Native.String.{[] as ε, ◌∷◌ as ◌▸◌, len}
use legal_genie_agent.Prelude.{
  ℕ, String, ◌=s◌, Bool, false, not, ◌&&◌, ◌||◌, List, [], ◌∷◌, any, leb, ltb, if◌then◌else◌,
  to_ascii_lowercase,
}
use legal_genie_agent.Errors.{AppError}
use legal_genie_agent.Errors.Make
use legal_genie_agent.Sql.{Result, ok, err}

-- `p.chars().any(…)`, with a test of the character's code
unfoldable pub any_char : (ℕ → Bool) → String → Bool
any_char test ε = false
any_char test (c ▸ s) = test (code c) || any_char test s

unfoldable pub is_ascii_uppercase : ℕ → Bool
is_ascii_uppercase c = leb 65 c && leb c 90

unfoldable pub is_ascii_lowercase : ℕ → Bool
is_ascii_lowercase c = leb 97 c && leb c 122

unfoldable pub is_ascii_digit : ℕ → Bool
is_ascii_digit c = leb 48 c && leb c 57

abbrev pub weak : List String
weak = "123456" ∷ "password" ∷ "12345678" ∷ "qwerty" ∷ []

unfoldable pub is_weak : String → Bool
is_weak p = let lower = to_ascii_lowercase p in any (λ w. w =s lower) weak

abbrev pub too_weak : String → Result AppError (Unit {0})
too_weak message = err (Make.bad_request_code 400105 message)

-- `validate_password_strength`; `len` counts bytes.
unfoldable pub validate_password_strength : String → Result AppError (Unit {0})
validate_password_strength p =
    if ltb (len p) 8
    then too_weak "password too short (min 8 chars)"
    else if not (any_char is_ascii_uppercase p)
    then too_weak "password too weak (must include uppercase letter)"
    else if not (any_char is_ascii_lowercase p)
    then too_weak "password too weak (must include lowercase letter)"
    else if not (any_char is_ascii_digit p)
    then too_weak "password too weak (must include a digit)"
    else if is_weak p
    then too_weak "password too weak"
    else ok tt
