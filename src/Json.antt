-- ===== src/Json.antt =====
-- The values of `serde_json` that the handlers compare and record. An object is a list of fields
-- with different keys, in the order of the keys; a number is its text.
pub mod Laws
use legal_genie_agent.Prelude.{
  String, ◌=s◌, Bool, true, false, ◌&&◌, Option, none, some, List, [], ◌∷◌, if◌then◌else◌,
}

mutual
  -- `serde_json::Value`
  pub data Json : Type 0 where
    null : Json
    bool : Bool → Json
    number : String → Json
    string : String → Json
    array : Items → Json
    object : Fields → Json

  pub data Items : Type 0 where
    end : Items
    item : Json → Items → Items

  pub data Fields : Type 0 where
    empty : Fields
    field : String → Json → Fields → Fields

abbrev pub same_bool : Bool → Bool → Bool
same_bool true b = b
same_bool false true = false
same_bool false false = true

unfoldable mutual
  -- `==` of two values
  pub same : Json → Json → Bool
  same null null = true
  same (bool a) (bool b) = same_bool a b
  same (number s) (number t) = s =s t
  same (string s) (string t) = s =s t
  same (array xs) (array ys) = same_items xs ys
  same (object xs) (object ys) = same_fields xs ys
  same _ _ = false

  pub same_items : Items → Items → Bool
  same_items end end = true
  same_items (item v xs) (item w ys) = same v w && same_items xs ys
  same_items _ _ = false

  pub same_fields : Fields → Fields → Bool
  same_fields empty empty = true
  same_fields (field k v xs) (field l w ys) = k =s l && (same v w && same_fields xs ys)
  same_fields _ _ = false

-- `Map::get`
unfoldable pub get : String → Fields → Option Json
get key empty = none
get key (field k v rest) = if k =s key then some v else get key rest

-- `Map::keys`
unfoldable pub keys : Fields → List String
keys empty = []
keys (field k v rest) = k ∷ keys rest

-- `json!` of a list of texts, and of what may be missing
unfoldable pub texts : List String → Items
texts [] = end
texts (s ∷ ss) = item (string s) (texts ss)

abbrev pub or_null : Option Json → Json
or_null none = null
or_null (some v) = v
