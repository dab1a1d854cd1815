-- ===== src/Context.antt =====
-- server/src/context.rs: what a handler knows of the request it answers. A header is the text that
-- the request has for it, or none where it is missing or not a text; `split(',')` has a first part
-- even of the empty text.
use Prim.Native.Char.{code}
use Prim.Native.String.{[], ◌∷◌}
use legal_genie_agent.Prelude.{
  String, Bool, Option, none, some, ◌==◌, if◌then◌else◌, is_empty, trim,
}

-- The parts of a request that the extractor reads.
pub record Parts : Type 0 where
  pub user_agent : Option String
  pub x_forwarded_for : Option String
  pub x_real_ip : Option String
  pub connect_info : Option String

-- `RequestMeta`
pub record RequestMeta : Type 0 where
  pub request_id : String
  pub ip_address : Option String
  pub user_agent : Option String

-- `raw.split(',').next()`
unfoldable pub first_part : String → String
first_part [] = []
first_part (c ∷ s) = let rest = first_part s in if code c == 44 then [] else c ∷ rest

abbrev pub nonempty : String → Option String
nonempty s = if is_empty s then none else some s

-- `extract_forwarded_for`
unfoldable pub extract_forwarded_for : Parts → Option String
extract_forwarded_for parts = elim parts.x_forwarded_for [
  | none ↦ none
  | some raw ↦ nonempty (trim (first_part raw))
]

-- `extract_real_ip`
unfoldable pub extract_real_ip : Parts → Option String
extract_real_ip parts = elim parts.x_real_ip [ none ↦ none | some raw ↦ nonempty (trim raw) ]

-- `extract_connect_ip`
abbrev pub extract_connect_ip : Parts → Option String
extract_connect_ip parts = parts.connect_info

abbrev pub or_else : Option String → Option String → Option String
or_else (some s) later = some s
or_else none later = later

-- `from_request_parts`; `request_id` is the fresh identifier.
unfoldable pub from_request_parts : Bool → String → Parts → RequestMeta
from_request_parts trust_proxy_headers request_id parts = record {
  request_id = request_id;
  ip_address =
      if trust_proxy_headers
      then or_else (extract_forwarded_for parts)
          (or_else (extract_real_ip parts) (extract_connect_ip parts))
      else extract_connect_ip parts;
  user_agent = parts.user_agent;
}
