-- ===== src/Accounts/Strength.antt =====
-- Which passwords are strong enough.
use Prim.Native.Char.{Char, code}
use Prim.Native.String.{[] as ε, ◌∷◌ as ◌▸◌, len}
use legal_genie_agent.Prelude.{
  ℕ, ◌≤◌, String, ◌=s◌, ◌≡◌, ◌↔◌, refl, sym, subst, Bool, true, false, ltb, arith, eq_iff,
  Bool-cases, inl, inr, lower, to_ascii_lowercase,
}
use legal_genie_agent.Sql.{ok}
use legal_genie_agent.Accounts.Passwords.{
  any_char, is_ascii_uppercase, is_ascii_lowercase, is_ascii_digit, is_weak,
  validate_password_strength,
}

-- What is asked of a password: eight bytes, and a letter of both cases and a digit.
pub record IsStrong (p : String) : Type 0 where
  pub long : 8 ≤ len p
  pub upper : any_char is_ascii_uppercase p ≡ true
  pub lower' : any_char is_ascii_lowercase p ≡ true
  pub digit : any_char is_ascii_digit p ≡ true

-- A test that no capital letter passes finds in a text in small letters what it found before.
module _ (test : ℕ → Bool) (spares : (c : Char) → test (code c) ≡ true → lower c ≡ c) where
  any_char-to_ascii_lowercase :
      (p : String) → any_char test p ≡ true → any_char test (to_ascii_lowercase p) ≡ true
  unfolding any_char to_ascii_lowercase
  any_char-to_ascii_lowercase ε h = absurd (cc h)
  any_char-to_ascii_lowercase (c ▸ s) h = elim (Bool-cases (test (code c))) [
    | inl fits ↦ rw (spares c fits, fits) refl
    | inr fails ↦ let later = any_char-to_ascii_lowercase s (rw fails at h) in ground (arith, later)
  ]

lowercase_spared : (c : Char) → is_ascii_lowercase (code c) ≡ true → lower c ≡ c
unfolding is_ascii_lowercase lower
lowercase_spared c h = ground arith

digit_spared : (c : Char) → is_ascii_digit (code c) ≡ true → lower c ≡ c
unfolding is_ascii_digit lower
digit_spared c h = ground arith

not_word :
    (test : ℕ → Bool) (w p : String)
    → any_char test p ≡ true
    → any_char test w ≡ false
    → (w =s p) ≡ false
not_word test w p has lacks = elim (Bool-cases (w =s p)) [
  | inl same ↦
      let e : w ≡ p = (eq_iff w p).0 same in
      let has' = subst (λ q. any_char test q ≡ true) (sym e) has in absurd (cc (has', lacks))
  | inr other ↦ other
]

-- The list of weak passwords never decides.
strong_not_weak : (p : String) → IsStrong p → is_weak p ≡ false
unfolding is_weak any_char is_ascii_lowercase is_ascii_digit
strong_not_weak p k =
    let low = to_ascii_lowercase p in
    let small = any_char-to_ascii_lowercase is_ascii_lowercase lowercase_spared p k.lower' in
    let number = any_char-to_ascii_lowercase is_ascii_digit digit_spared p k.digit in
    rw
      (
        not_word is_ascii_lowercase "123456" low small refl,
        not_word is_ascii_digit "password" low number refl,
        not_word is_ascii_lowercase "12345678" low small refl,
        not_word is_ascii_digit "qwerty" low number refl,
      )
      refl

-- A password is accepted exactly where it has eight bytes or more, among them a letter of either
-- case and a digit: the list of weak passwords refuses none that has passed the other tests.
pub validate_password_strength_iff :
    (p : String) → (validate_password_strength p ≡ ok tt) ↔ IsStrong p
unfolding validate_password_strength
validate_password_strength_iff p = (
  λ h. elim (Bool-cases (ltb (len p) 8)) [
    | inl short ↦ absurd (ground arith)
    | inr long ↦ elim (Bool-cases (any_char is_ascii_uppercase p)) [
      | inr none' ↦ absurd (ground arith)
      | inl upper ↦ elim (Bool-cases (any_char is_ascii_lowercase p)) [
        | inr none' ↦ absurd (ground arith)
        | inl small ↦ elim (Bool-cases (any_char is_ascii_digit p)) [
          | inr none' ↦ absurd (ground arith)
          | inl digit ↦ record { long = ground arith; upper = upper; lower' = small; digit = digit }
        ]
      ]
    ]
  ],
  λ k.
      let long : ltb (len p) 8 ≡ false = at_least k.long in
      rw (long, k.upper, k.lower', k.digit, strong_not_weak p k) refl,
)
  where
    at_least : 8 ≤ len p → ltb (len p) 8 ≡ false
    at_least h = ground arith
