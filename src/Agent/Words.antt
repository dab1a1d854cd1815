-- ===== src/Agent/Words.antt =====
-- The functions on texts that server/src/agent/engine.rs uses to read a message, and its
-- `extract_title` and `extract_date`.
use Prim.Native.Char.{code}
use Prim.Native.String.{[], ◌∷◌, len, slice}
use text.Mathlib.Text.{starts_with, find?}
use legal_genie_agent.Prelude.{
  ℕ, zero, suc, ◌+◌, ◌-◌, String, ◌<>◌, Bool, true, false, ◌&&◌, Option, none, some, leb, ◌==◌,
  if◌then◌else◌, is_whitespace, is_empty, trim,
}

abbrev pub is_some : {A : Type 0} → Option A → Bool
is_some none = false
is_some (some a) = true

unfoldable pub contains : String → String → Bool
contains s token = is_some (find? s token)

abbrev chars : String → ℕ
chars [] = 0
chars (c ∷ s) = suc (chars s)

-- `s.replace(token, "")`, with the number of characters of an occurrence still to leave out.
unfoldable pub without : ℕ → String → String → String
without n [] token = []
without zero (c ∷ s) token =
    let rest = without zero s token in
    let gone = without (chars token - 1) s token in
    if starts_with (c ∷ s) token then gone else c ∷ rest
without (suc n) (c ∷ s) token = without n s token

unfoldable pub remove : String → String → String
remove s token = without zero s token

-- `split_whitespace().next().unwrap_or("")`, of a text without white space in front.
unfoldable pub first_word : String → String
first_word [] = []
first_word (c ∷ s) = let rest = first_word s in if is_whitespace (code c) then [] else c ∷ rest

-- `trim_start_matches('/')`
unfoldable pub without_slashes : String → String
without_slashes [] = []
without_slashes (c ∷ s) = let rest = without_slashes s in if code c == 47 then rest else c ∷ s

-- `splitn(2, ' ').nth(1).unwrap_or("")`
unfoldable pub after_space : String → String
after_space [] = []
after_space (c ∷ s) = let rest = after_space s in if code c == 32 then s else rest

-- One pair of quotation marks of `extract_title`.
unfoldable pub quoted : String → String → String → Option String
quoted text open' close = elim (find? text open') [
  | none ↦ none
  | some start ↦
      let rest = slice text (start + len open') (len text) in
      elim (find? rest close) [
        | none ↦ none
        | some end ↦ let t = trim (slice rest 0 end) in if is_empty t then none else some t
      ]
]

abbrev or_next : Option String → Option String → Option String
or_next none o = o
or_next (some s) o = some s

-- `extract_title`
unfoldable pub extract_title : String → Option String
extract_title text =
    or_next (quoted text "「" "」") (or_next (quoted text "“" "”") (quoted text "\"" "\""))

unfoldable pub ascii_digits : String → String
ascii_digits [] = []
ascii_digits (c ∷ s) =
    let rest = ascii_digits s in if leb 48 (code c) && leb (code c) 57 then c ∷ rest else rest

-- `extract_date`
unfoldable pub extract_date : String → String → Option String
extract_date current_year text =
    let digits = ascii_digits text in
    if leb 8 (len digits)
    then some (slice digits 0 4 <> "-" <> slice digits 4 6 <> "-" <> slice digits 6 8)
    else if leb 4 (len digits)
    then some (current_year <> "-" <> slice digits 0 2 <> "-" <> slice digits 2 4)
    else none
