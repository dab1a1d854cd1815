-- ===== src/Upload.antt =====
-- server/src/file_security.rs: which files may be uploaded. The tables of the crates mime_guess and
-- infer are parameters: the type of an extension, and the type that the first bytes of a file show.
pub mod Laws
mod Tests
use text.Mathlib.Text.{starts_with}
use legal_genie_agent.Prelude.{
  ℕ, String, ◌=s◌, Bool, true, false, not, ◌&&◌, ◌||◌, Option, none, some, List, [], ◌∷◌, any,
  if◌then◌else◌, is_empty, trim, to_ascii_lowercase,
}
use legal_genie_agent.Errors.{AppError}
use legal_genie_agent.Errors.Make
use legal_genie_agent.Sql.{Result, ok, err}
use legal_genie_agent.Paths.{extension}

-- `SUPPORTED_MIME_TYPES`
abbrev pub supported_mime_types : List String
supported_mime_types =
    "application/pdf" ∷ "application/msword"
    ∷ "application/vnd.openxmlformats-officedocument.wordprocessingml.document"
    ∷ "application/vnd.ms-excel"
    ∷ "application/vnd.openxmlformats-officedocument.spreadsheetml.sheet" ∷ "image/jpeg"
    ∷ "image/png" ∷ "audio/mpeg" ∷ "audio/wav" ∷ "text/plain" ∷ "application/json" ∷ []

-- `is_text_like`
unfoldable pub is_text_like : String → Bool
is_text_like mime = starts_with mime "text/" || mime =s "application/json"

-- `is_ooxml`
unfoldable pub is_ooxml : String → Bool
is_ooxml mime =
    mime =s "application/vnd.openxmlformats-officedocument.wordprocessingml.document"
    || mime =s "application/vnd.openxmlformats-officedocument.spreadsheetml.sheet"

-- `is_legacy_office`
unfoldable pub is_legacy_office : String → Bool
is_legacy_office mime = mime =s "application/msword" || mime =s "application/vnd.ms-excel"

-- `mime_compatible`
unfoldable pub mime_compatible : String → String → Bool
mime_compatible guessed detected =
    if guessed =s detected
    then true
    else if is_text_like guessed
    then is_text_like detected || detected =s "application/octet-stream"
    else if is_ooxml guessed && detected =s "application/zip"
    then true
    else if is_legacy_office guessed && detected =s "application/octet-stream"
    then true
    else false

abbrev pub is_nil : List String → Bool
is_nil [] = true
is_nil (s ∷ ss) = false

abbrev pub or_text : Option String → String → String
or_text none s = s
or_text (some t) s = t

unfoldable pub listed : String → List String → Bool
listed s ss = any (λ t. t =s s) ss

-- The extension that decides.
unfoldable pub extension_of : String → String
extension_of filename = to_ascii_lowercase (trim (or_text (extension filename) ""))

abbrev pub refused : String → Result AppError String
refused message = err (Make.bad_request_code 420103 message)

module _ (from_ext : String → Option String) (infer : List ℕ → Option String) where
  -- `validate_upload`, once the type of the extension is known.
  unfoldable pub check_type : List ℕ → String → Result AppError String
  check_type header_bytes guessed =
      if not (listed guessed supported_mime_types)
      then refused "unsupported file type"
      else if not
          (mime_compatible guessed (or_text (infer header_bytes) "application/octet-stream"))
      then refused "file type mismatch"
      else ok guessed

  abbrev pub check_guess : List ℕ → Option String → Result AppError String
  check_guess header_bytes none = refused "unknown file type"
  check_guess header_bytes (some guessed) = check_type header_bytes guessed

  -- `validate_upload`
  unfoldable pub validate_upload : List ℕ → String → List String → Result AppError String
  validate_upload header_bytes filename allowed_file_types =
      let ext = extension_of filename in
      if is_empty ext
      then refused "invalid file extension"
      else if not (is_nil allowed_file_types) && not (listed ext allowed_file_types)
      then refused "unsupported file type"
      else check_guess header_bytes (from_ext ext)
