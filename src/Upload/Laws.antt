-- ===== src/Upload/Laws.antt =====
-- Exactly which uploads are let through.
use mathlib.Core.List.{Memᴰ}
use text.Mathlib.Text.{starts_with}
use legal_genie_agent.Prelude.{
  ℕ, String, ◌=s◌, ◌≡◌, ◌⊎◌, ◌↔◌, refl, sym, ap, subst, ◌∙◌, inl, inr, Bool, true, false, not, ◌&&◌,
  ◌||◌, Option, some, List, [], ◌∷◌, is_empty, arith, eq_iff, Bool-cases, Option-cases,
}
use legal_genie_agent.Errors.{AppError}
use legal_genie_agent.Sql.{Result, ok}
use legal_genie_agent.Upload.{
  supported_mime_types, is_text_like, is_ooxml, is_legacy_office, mime_compatible, is_nil, or_text,
  listed, extension_of, check_type, validate_upload,
}

pub listed_iff : (s : String) (ss : List String) → (listed s ss ≡ true) ↔ Memᴰ s ss
unfolding listed
listed_iff s [] = (λ h. absurd (cc h), λ m. elim m [ ])
listed_iff s (t ∷ ts) = (
  λ h. elim (Bool-cases (t =s s)) [
    | inl here ↦ Memᴰ.head (sym ((eq_iff t s).0 here))
    | inr there ↦ Memᴰ.tail ((listed_iff s ts).0 (rw there at h))
  ],
  λ m. elim m [
    | Memᴰ.head e ↦ ground (arith, (eq_iff t s).1 (sym e))
    | Memᴰ.tail n ↦ ground (arith, (listed_iff s ts).1 n)
  ],
)

-- A text type: `text/…`, or JSON.
abbrev pub IsText : String → Type 0
IsText mime = (starts_with mime "text/" ≡ true) ⊎ (mime ≡ "application/json")

-- What the bytes of a file of a type may look like: the type itself; for a text, any text or
-- nothing known; for a new Office document, a zip archive; for an old one, nothing known.
abbrev pub Agrees : String → String → Type 0
Agrees guessed detected =
    (guessed ≡ detected)
    ⊎ ((IsText guessed × (IsText detected ⊎ (detected ≡ "application/octet-stream")))
        ⊎ (((guessed ≡ "application/vnd.openxmlformats-officedocument.wordprocessingml.document")
              ⊎ (guessed ≡ "application/vnd.openxmlformats-officedocument.spreadsheetml.sheet"))
            × (detected ≡ "application/zip"))
        ⊎ (((guessed ≡ "application/msword") ⊎ (guessed ≡ "application/vnd.ms-excel"))
            × (detected ≡ "application/octet-stream")))

pub is_text_like_iff : (mime : String) → (is_text_like mime ≡ true) ↔ IsText mime
unfolding is_text_like
is_text_like_iff mime = (
  λ h. elim (Bool-cases (starts_with mime "text/")) [
    | inl text ↦ inl text
    | inr other ↦ inr ((eq_iff mime "application/json").0 (rw other at h))
  ],
  λ t. elim t [ inl text ↦ rw text refl | inr json ↦ rw json refl ],
)

both : (a b : Bool) → (a && b) ≡ true → (a ≡ true) × (b ≡ true)
both true b h = (refl, h)
both false b h = absurd (cc h)

either : (a b : Bool) → (a || b) ≡ true → (a ≡ true) ⊎ (b ≡ true)
either true b h = inl refl
either false b h = inr h

pub mime_compatible_complete :
    (guessed detected : String) → Agrees guessed detected → mime_compatible guessed detected ≡ true
unfolding mime_compatible is_ooxml is_legacy_office is_text_like
mime_compatible_complete guessed detected (inl e) = rw ((eq_iff guessed detected).1 e) refl
mime_compatible_complete guessed detected (inr (inl (text, inl like))) =
    rw ((is_text_like_iff guessed).1 text, (is_text_like_iff detected).1 like) (ground arith)
mime_compatible_complete guessed detected (inr (inl (text, inr none'))) =
    rw ((is_text_like_iff guessed).1 text, none') (ground arith)
mime_compatible_complete guessed detected (inr (inr (inl (inl e, zip)))) = rw (e, zip) refl
mime_compatible_complete guessed detected (inr (inr (inl (inr e, zip)))) = rw (e, zip) refl
mime_compatible_complete guessed detected (inr (inr (inr (inl e, none')))) = rw (e, none') refl
mime_compatible_complete guessed detected (inr (inr (inr (inr e, none')))) = rw (e, none') refl

abbrev octet_stream : String
octet_stream = "application/octet-stream"

ooxml_names :
    (mime : String)
    → is_ooxml mime ≡ true
    → (mime ≡ "application/vnd.openxmlformats-officedocument.wordprocessingml.document")
      ⊎ (mime ≡ "application/vnd.openxmlformats-officedocument.spreadsheetml.sheet")
unfolding is_ooxml
ooxml_names mime h = elim (either _ _ h) [
  | inl document ↦ inl ((eq_iff mime _).0 document)
  | inr sheet ↦ inr ((eq_iff mime _).0 sheet)
]

legacy_names :
    (mime : String)
    → is_legacy_office mime ≡ true
    → (mime ≡ "application/msword") ⊎ (mime ≡ "application/vnd.ms-excel")
unfolding is_legacy_office
legacy_names mime h = elim (either _ _ h) [
  | inl word ↦ inl ((eq_iff mime _).0 word)
  | inr excel ↦ inr ((eq_iff mime _).0 excel)
]

pub mime_compatible_sound :
    (guessed detected : String) → mime_compatible guessed detected ≡ true → Agrees guessed detected
unfolding mime_compatible
mime_compatible_sound guessed detected h = elim (Bool-cases (guessed =s detected)) [
  | inl equal ↦ inl ((eq_iff guessed detected).0 equal)
  | inr differ ↦ elim (Bool-cases (is_text_like guessed)) [
    | inl text ↦
        let rest : (is_text_like detected || detected =s octet_stream) ≡ true =
          rw (differ, text) at h in
        inr (
          inl (
            (is_text_like_iff guessed).0 text,
            elim (either _ _ rest) [
              | inl like ↦ inl ((is_text_like_iff detected).0 like)
              | inr unknown ↦ inr ((eq_iff detected octet_stream).0 unknown)
            ],
          ))
    | inr binary ↦ elim (Bool-cases (is_ooxml guessed && detected =s "application/zip")) [
      | inl new ↦
          let (office, zip) = both _ _ new in
          inr (inr (inl (ooxml_names guessed office, (eq_iff detected "application/zip").0 zip)))
      | inr other ↦
          let old : (is_legacy_office guessed && detected =s octet_stream) ≡ true = ground arith in
          let (office, unknown) = both _ _ old in
          inr (inr (inr (legacy_names guessed office, (eq_iff detected octet_stream).0 unknown)))
    ]
  ]
]

is_nil_iff : (ss : List String) → (is_nil ss ≡ true) ↔ (ss ≡ [])
is_nil_iff [] = (λ h. refl, λ h. refl)
is_nil_iff (s ∷ ss) = (λ h. absurd (cc h), λ h. absurd (cc h))

module _ (from_ext : String → Option String) (infer : List ℕ → Option String) where
  -- What `validate_upload` asks of a file.
  pub record IsAcceptable (header_bytes : List ℕ) (filename : String) (allowed : List String)
      (mime : String) : Type 0 where
    pub has_extension : is_empty (extension_of filename) ≡ false
    pub allowed_type : (allowed ≡ []) ⊎ Memᴰ (extension_of filename) allowed
    pub guessed : from_ext (extension_of filename) ≡ some mime
    pub supported : Memᴰ mime supported_mime_types
    pub agrees : Agrees mime (or_text (infer header_bytes) octet_stream)

  check_type_iff :
      (header_bytes : List ℕ) (guessed mime : String)
      → (check_type from_ext infer header_bytes guessed ≡ ok mime) ↔ (
          (guessed ≡ mime)
          × Memᴰ guessed supported_mime_types
          × Agrees guessed (or_text (infer header_bytes) octet_stream))
  unfolding check_type
  check_type_iff header_bytes guessed mime = (
    λ h. elim (Bool-cases (listed guessed supported_mime_types)) [
      | inr unlisted ↦ absurd (ground arith)
      | inl known ↦ elim (Bool-cases (mime_compatible guessed detected)) [
        | inr unlike ↦ absurd (ground arith)
        | inl alike ↦
            let done : Path (Result AppError String) (ok guessed) (ok mime) =
              rw (known, alike) at h in
            (
              cc done,
              (listed_iff guessed supported_mime_types).0 known,
              mime_compatible_sound guessed detected alike,
            )
      ]
    ],
    λ k.
        let (e, known, alike) = k in
        rw
          (
            (listed_iff guessed supported_mime_types).1 known,
            mime_compatible_complete guessed detected alike,
          )
          (ap ok e),
  )
    where
      detected : String
      detected = or_text (infer header_bytes) octet_stream

  -- An upload is accepted, as a file of a MIME type, exactly where its name has an extension that the
  -- configuration allows and that stands for this type, the type is supported, and the first bytes
  -- show that type or one that such a file may be taken for.
  pub validate_upload_iff :
      (header_bytes : List ℕ) (filename : String) (allowed : List String) (mime : String)
      → (validate_upload from_ext infer header_bytes filename allowed ≡ ok mime)
        ↔ IsAcceptable header_bytes filename allowed mime
  unfolding validate_upload
  validate_upload_iff header_bytes filename allowed mime = (
    λ h. elim (Bool-cases (is_empty (extension_of filename))) [
      | inl missing ↦ absurd (ground arith)
      | inr present ↦
          elim (Bool-cases (not (is_nil allowed) && not (listed (extension_of filename) allowed))) [
            | inl unlisted ↦ absurd (ground arith)
            | inr permitted ↦ elim (Option-cases (from_ext (extension_of filename))) [
              | inl unknown ↦ absurd (ground arith)
              | inr (guess, found) ↦
                  let rest : check_type from_ext infer header_bytes guess ≡ ok mime =
                    rw (present, permitted, found) at h in
                  let (e, known, alike) = (check_type_iff header_bytes guess mime).0 rest in
                  record {
                    has_extension = present;
                    allowed_type = permits permitted;
                    guessed = found ∙ ap some e;
                    supported = subst (λ m. Memᴰ m supported_mime_types) e known;
                    agrees =
                        subst (λ m. Agrees m (or_text (infer header_bytes) octet_stream)) e alike;
                  }
            ]
          ]
    ],
    λ k.
        rw (k.has_extension, permitted_by k.allowed_type, k.guessed)
          ((check_type_iff header_bytes mime mime).1 (refl, k.supported, k.agrees)),
  )
    where
      permits :
          (not (is_nil allowed) && not (listed (extension_of filename) allowed)) ≡ false
          → (allowed ≡ []) ⊎ Memᴰ (extension_of filename) allowed
      permits h = elim (Bool-cases (is_nil allowed)) [
        | inl all' ↦ inl ((is_nil_iff allowed).0 all')
        | inr some' ↦ inr ((listed_iff (extension_of filename) allowed).0 (ground arith))
      ]

      permitted_by :
          (allowed ≡ []) ⊎ Memᴰ (extension_of filename) allowed
          → (not (is_nil allowed) && not (listed (extension_of filename) allowed)) ≡ false
      permitted_by (inl all') = rw ((is_nil_iff allowed).1 all') refl
      permitted_by (inr m) =
          let known = (listed_iff (extension_of filename) allowed).1 m in ground arith
