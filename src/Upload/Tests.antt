-- ===== src/Upload/Tests.antt =====
-- Uploads of a contract, with some rows of the tables of mime_guess and infer.
use legal_genie_agent.Prelude.{
  ℕ, String, ◌=s◌, ◌≡◌, ◌↔◌, refl, inl, Option, none, some, List, [], ◌∷◌, if◌then◌else◌, ◌==◌,
}
use legal_genie_agent.Errors.Make
use legal_genie_agent.Sql.{ok, err}
use legal_genie_agent.Upload.{validate_upload}
use legal_genie_agent.Upload.Laws.{IsAcceptable, validate_upload_iff}

abbrev guess : String → Option String
guess ext =
    if ext =s "pdf"
    then some "application/pdf"
    else if ext =s "exe"
    then some "application/x-msdownload"
    else none

-- %PDF, or nothing known
abbrev magic : List ℕ → Option String
magic [] = none
magic (b ∷ bs) = if b == 37 then some "application/pdf" else none

abbrev pdf : List ℕ
pdf = 37 ∷ 80 ∷ 68 ∷ 70 ∷ []

validate_upload_iff_example :
    (validate_upload guess magic pdf "contract.v2.PDF" [] ≡ ok "application/pdf")
    ↔ IsAcceptable guess magic pdf "contract.v2.PDF" [] "application/pdf"
validate_upload_iff_example =
    validate_upload_iff guess magic pdf "contract.v2.PDF" [] "application/pdf"

accepted : validate_upload guess magic pdf "contract.v2.PDF" [] ≡ ok "application/pdf"
unfolding validate_upload legal_genie_agent.Upload.extension_of
    legal_genie_agent.Prelude.to_ascii_lowercase legal_genie_agent.Prelude.trim
    legal_genie_agent.Paths.extension legal_genie_agent.Paths.file_name
    legal_genie_agent.Paths.last_name legal_genie_agent.Paths.components
    legal_genie_agent.Paths.segments legal_genie_agent.Paths.later_components
    legal_genie_agent.Paths.last_dot legal_genie_agent.Upload.check_type
    legal_genie_agent.Upload.listed legal_genie_agent.Upload.mime_compatible
accepted = refl

disguised :
    validate_upload guess magic (77 ∷ 90 ∷ []) "contract.pdf" []
    ≡ err (Make.bad_request_code 420103 "file type mismatch")
unfolding validate_upload legal_genie_agent.Upload.extension_of
    legal_genie_agent.Prelude.to_ascii_lowercase legal_genie_agent.Prelude.trim
    legal_genie_agent.Paths.extension legal_genie_agent.Paths.file_name
    legal_genie_agent.Paths.last_name legal_genie_agent.Paths.components
    legal_genie_agent.Paths.segments legal_genie_agent.Paths.later_components
    legal_genie_agent.Paths.last_dot legal_genie_agent.Upload.check_type
    legal_genie_agent.Upload.listed legal_genie_agent.Upload.mime_compatible
    legal_genie_agent.Upload.is_text_like legal_genie_agent.Upload.is_ooxml
    legal_genie_agent.Upload.is_legacy_office
disguised = refl
