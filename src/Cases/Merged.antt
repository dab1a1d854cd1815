-- ===== src/Cases/Merged.antt =====
-- What the request to update a case asks for, and that `merged` is it.
use legal_genie_agent.Prelude.{
  ℕ, String, ◌≡◌, ◌⊎◌, refl, Option, none, some, List, inl, inr, is_empty, trim, true, false,
  Bool-cases,
}
use legal_genie_agent.Sql.{ok}
use legal_genie_agent.Schema.{Case}
use legal_genie_agent.Cases.{UpdateCaseRequest, Codec, merged, or_keep, or_else, new_name}

-- The columns that a request asks for, where `old` is the row that was read and `new` the one that
-- is written: what the request leaves out stays, and so does the name if it asks for a blank one.
pub record Merges (codec : Codec) (now : ℕ) (req : UpdateCaseRequest) (old new : Case)
    : Type 0 where
  pub name :
      ((raw : String) × (req.name ≡ some raw)
        × (is_empty (trim raw) ≡ false)
        × (new.name ≡ trim raw))
      ⊎ ((req.name ≡ none) × (new.name ≡ old.name))
      ⊎ ((raw : String) × (req.name ≡ some raw)
          × (is_empty (trim raw) ≡ true)
          × (new.name ≡ old.name))
  pub description :
      ((s : String) × (req.description ≡ some s) × (new.description ≡ some s))
      ⊎ ((req.description ≡ none) × (new.description ≡ old.description))
  pub tags :
      ((ts : List String) × (s : String) × (req.tags ≡ some ts)
        × (codec.to_string ts ≡ ok s)
        × (new.tags ≡ some s))
      ⊎ ((req.tags ≡ none) × (new.tags ≡ old.tags))
  pub status :
      ((s : String) × (req.status ≡ some s) × (new.status ≡ s))
      ⊎ ((req.status ≡ none) × (new.status ≡ old.status))
  pub updated : new.updated_at ≡ now

-- What the database keeps of a row.
abbrev pub IsSameRow : Case → Case → Type 0
IsSameRow c d = (d.id ≡ c.id) × (d.owner_id ≡ c.owner_id) × (d.created_at ≡ c.created_at)

-- The text of the tags that are written.
abbrev pub Encoded : Codec → Option (List String) → Option String → Option String → Type 0
Encoded codec tags old json =
    ((ts : List String) × (s : String) × (tags ≡ some ts)
      × (codec.to_string ts ≡ ok s)
      × (json ≡ some s))
    ⊎ ((tags ≡ none) × (json ≡ old))

pub merged-Merges :
    (codec : Codec) (now : ℕ) (req : UpdateCaseRequest) (old c : Case) (json : Option String)
    → Encoded codec req.tags old.tags json
    → Merges codec now req old (merged now req old json c)
unfolding merged new_name
merged-Merges codec now req old c json tags = record {
  name = named req.name refl;
  description = described req.description refl;
  tags = tags;
  status = set req.status refl;
  updated = refl;
}
  where
    named :
        (o : Option String)
        → req.name ≡ o
        → ((raw : String) × (req.name ≡ some raw)
            × (is_empty (trim raw) ≡ false)
            × (or_keep (new_name o) old.name ≡ trim raw))
          ⊎ ((req.name ≡ none) × (or_keep (new_name o) old.name ≡ old.name))
          ⊎ ((raw : String) × (req.name ≡ some raw)
              × (is_empty (trim raw) ≡ true)
              × (or_keep (new_name o) old.name ≡ old.name))
    named none same = inr (inl (same, refl))
    named (some raw) same = elim (Bool-cases (is_empty (trim raw))) [
      | inl blank ↦ inr (inr (raw, same, blank, rw blank refl))
      | inr full ↦ inl (raw, same, full, rw full refl)
    ]

    described :
        (o : Option String)
        → req.description ≡ o
        → ((s : String) × (req.description ≡ some s) × (or_else o old.description ≡ some s))
          ⊎ ((req.description ≡ none) × (or_else o old.description ≡ old.description))
    described none same = inr (same, refl)
    described (some s) same = inl (s, same, refl)

    set :
        (o : Option String)
        → req.status ≡ o
        → ((s : String) × (req.status ≡ some s) × (or_keep o old.status ≡ s))
          ⊎ ((req.status ≡ none) × (or_keep o old.status ≡ old.status))
    set none same = inr (same, refl)
    set (some s) same = inl (s, same, refl)
