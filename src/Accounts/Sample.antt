-- ===== src/Accounts/Sample.antt =====
-- A signer that can be run: a token is the text of the secret and of the claims, in which a digit
-- says before each part whether there is more.
use Prim.Native.Char.{Char, code}
use Prim.Native.String.{[] as ε, ◌∷◌ as ◌▸◌}
use legal_genie_agent.Prelude.{
  ℕ, zero, suc, ◌+◌, ◌≤◌, String, ◌=s◌, ◌≡◌, refl, subst, Bool, true, Option, none, some, List, [],
  ◌∷◌, length, leb, ◌==◌, le→leb, if◌then◌else◌, eq_refl,
}
use legal_genie_agent.Sql.{ok}
use legal_genie_agent.Sql.Rules.{ok_inj}
use legal_genie_agent.Accounts.{TokenType, Claims, Jwt}
use legal_genie_agent.Accounts.Entered.{IsJwt}

abbrev more : String → String
more s = "1" ▸ s

abbrev no_more : String → String
no_more s = "0" ▸ s

unfoldable pub write_text : String → String → String
write_text ε rest = no_more rest
write_text (c ▸ s) rest = more (c ▸ write_text s rest)

unfoldable pub write_number : ℕ → String → String
write_number zero rest = no_more rest
write_number (suc n) rest = more (write_number n rest)

unfoldable pub write_texts : List String → String → String
write_texts [] rest = rest
write_texts (s ∷ ss) rest = write_text s (write_texts ss rest)

-- A reader: what it has read, and the rest.
abbrev Reader : Type 0 → Type 0
Reader A = String → Option (A × String)

abbrev is_end : Char → Bool
is_end m = code m == 48

unfoldable pub read_text : Reader String
read_text ε = none
read_text (m ▸ ε) = if is_end m then some (ε, ε) else none
read_text (m ▸ c ▸ s) = if is_end m then some (ε, c ▸ s) else longer c (read_text s)
  where
    longer : Char → Option (String × String) → Option (String × String)
    longer c none = none
    longer c (some (t, rest)) = some (c ▸ t, rest)

unfoldable pub read_number : Reader ℕ
read_number ε = none
read_number (m ▸ s) = if is_end m then some (0, s) else larger (read_number s)
  where
    larger : Option (ℕ × String) → Option (ℕ × String)
    larger none = none
    larger (some (n, rest)) = some (suc n, rest)

read-write_text : (s rest : String) → read_text (write_text s rest) ≡ some (s, rest)
unfolding read_text write_text
read-write_text ε ε = refl
read-write_text ε (c ▸ rest) = refl
read-write_text (c ▸ s) rest = rw (read-write_text s rest) refl

read-write_number : (n : ℕ) (rest : String) → read_number (write_number n rest) ≡ some (n, rest)
unfolding read_number write_number
read-write_number zero rest = refl
read-write_number (suc n) rest = rw (read-write_number n rest) refl

abbrev then_read : {A B : Type 0} → Option (A × String) → (A → Reader B) → Option (B × String)
then_read none f = none
then_read (some (a, rest)) f = f a rest

unfoldable pub read_texts : ℕ → Reader (List String)
read_texts zero rest = some ([], rest)
read_texts (suc n) s =
    then_read (read_text s) λ t r. then_read (read_texts n r) λ ts q. some (t ∷ ts, q)

read-write_texts :
    (ss : List String) (rest : String)
    → read_texts (length ss) (write_texts ss rest) ≡ some (ss, rest)
unfolding read_texts write_texts
read-write_texts [] rest = refl
read-write_texts (s ∷ ss) rest =
    rw (read-write_text s (write_texts ss rest), read-write_texts ss rest) refl

abbrev number_of : TokenType → ℕ
number_of TokenType.access = 0
number_of TokenType.refresh = 1

abbrev type_of : ℕ → TokenType
type_of zero = TokenType.access
type_of (suc n) = TokenType.refresh

abbrev version_number : Option ℕ → ℕ
version_number none = 0
version_number (some n) = suc n

abbrev version_of : ℕ → Option ℕ
version_of zero = none
version_of (suc n) = some n

unfoldable pub write_claims : Claims → String
write_claims c = write_text c.sub (
    write_text c.username (
      write_number (length c.roles) (
        write_texts c.roles (
          write_number (number_of c.token_type) (
            write_number (version_number c.refresh_token_version)
              (write_number c.exp (write_number c.iat "")))))))

unfoldable pub read_claims : Reader Claims
read_claims s = then_read (read_text s) λ sub r1. then_read (read_text r1) λ username r2.
    then_read (read_number r2) λ n r3. then_read (read_texts n r3) λ roles r4.
      then_read (read_number r4) λ kind r5. then_read (read_number r5) λ version r6.
        then_read (read_number r6) λ exp r7. then_read (read_number r7) λ iat r8. some (
          record {
            sub = sub;
            username = username;
            roles = roles;
            token_type = type_of kind;
            refresh_token_version = version_of version;
            exp = exp;
            iat = iat;
          },
          r8,
        )

type_back : (t : TokenType) → type_of (number_of t) ≡ t
type_back TokenType.access = refl
type_back TokenType.refresh = refl

version_back : (o : Option ℕ) → version_of (version_number o) ≡ o
version_back none = refl
version_back (some n) = refl

read-write_claims : (c : Claims) → read_claims (write_claims c) ≡ some (c, "")
unfolding read_claims write_claims
read-write_claims c =
    rw
      (
        read-write_text c.sub _,
        read-write_text c.username _,
        read-write_number (length c.roles) _,
        read-write_texts c.roles _,
        read-write_number (number_of c.token_type) _,
        read-write_number (version_number c.refresh_token_version) _,
        read-write_number c.exp _,
        read-write_number c.iat _,
        type_back c.token_type,
        version_back c.refresh_token_version,
      )
      refl

abbrev fresh : ℕ → Option (Claims × String) → Option Claims
fresh now none = none
fresh now (some (c, rest)) = if leb now (c.exp + 60) then some c else none

unfoldable pub open_token : ℕ → String → Option (String × String) → Option Claims
open_token now secret none = none
open_token now secret (some (s, rest)) = if s =s secret then fresh now (read_claims rest) else none

unfoldable pub sample : Jwt
sample = record {
  encode = λ secret c. ok (write_text secret (write_claims c));
  decode = λ now secret token. open_token now secret (read_text token);
}

opened :
    (secret token : String) (c : Claims) (now : ℕ)
    → sample.encode secret c ≡ ok token
    → now ≤ c.exp + 60
    → sample.decode now secret token ≡ some c
unfolding open_token sample
opened secret token c now made early =
    let written : write_text secret (write_claims c) ≡ token = ok_inj _ _ made in
    let in_time : leb now (c.exp + 60) ≡ true = le→leb _ _ early in
    subst (λ t. sample.decode now secret t ≡ some c) written
      (rw (read-write_text secret (write_claims c), eq_refl secret, read-write_claims c, in_time)
        refl)

pub sample-IsJwt : IsJwt sample
unfolding open_token sample
sample-IsJwt = record {
  encodes = λ secret c. (write_text secret (write_claims c), refl);
  decodes = λ secret token c now made early. opened secret token c now made early;
}
