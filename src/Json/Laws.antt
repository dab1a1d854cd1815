-- ===== src/Json/Laws.antt =====
-- The comparison of two JSON values decides their equality.
use mathlib.Core.List.{Memᴰ}
use legal_genie_agent.Prelude.{
  String, ◌=s◌, ◌≡◌, ◌≢◌, refl, ap, Bool, true, false, none, arith, eq_iff, eq_refl, Bool-cases,
  inl, inr,
}
use legal_genie_agent.Json.{
  Json, Items, Fields, null, bool, number, string, array, object, end, item, empty, field,
  same_bool, same, same_items, same_fields, get, keys,
}

same_bool_sound : (a b : Bool) → same_bool a b ≡ true → a ≡ b
same_bool_sound true true h = refl
same_bool_sound true false h = ground arith
same_bool_sound false true h = ground arith
same_bool_sound false false h = refl

same_bool_refl : (a : Bool) → same_bool a a ≡ true
same_bool_refl true = refl
same_bool_refl false = refl

mutual
  unfolding same same_items same_fields

  pub same_sound : (a b : Json) → same a b ≡ true → a ≡ b
  same_sound null null h = refl
  same_sound (bool a) (bool b) h = ap bool (same_bool_sound a b h)
  same_sound (number s) (number t) h = ap number ((eq_iff s t).0 h)
  same_sound (string s) (string t) h = ap string ((eq_iff s t).0 h)
  same_sound (array xs) (array ys) h = ap array (items_sound xs ys h)
  same_sound (object xs) (object ys) h = ap object (fields_sound xs ys h)
  same_sound _ _ h = absurd (cc h)

  items_sound : (xs ys : Items) → same_items xs ys ≡ true → xs ≡ ys
  items_sound end end h = refl
  items_sound (item v xs) (item w ys) h =
      let head : same v w ≡ true = ground arith in
      let tail : same_items xs ys ≡ true = ground arith in
      let e = same_sound v w head in let f = items_sound xs ys tail in cc (e, f)
  items_sound _ _ h = absurd (cc h)

  fields_sound : (xs ys : Fields) → same_fields xs ys ≡ true → xs ≡ ys
  fields_sound empty empty h = refl
  fields_sound (field k v xs) (field l w ys) h =
      let key : (k =s l) ≡ true = ground arith in
      let head : same v w ≡ true = ground arith in
      let tail : same_fields xs ys ≡ true = ground arith in
      let d = (eq_iff k l).0 key in
      let e = same_sound v w head in let f = fields_sound xs ys tail in cc (d, e, f)
  fields_sound _ _ h = absurd (cc h)

mutual
  unfolding same same_items same_fields

  pub same_refl : (a : Json) → same a a ≡ true
  same_refl null = refl
  same_refl (bool a) = same_bool_refl a
  same_refl (number s) = eq_refl s
  same_refl (string s) = eq_refl s
  same_refl (array xs) = items_refl xs
  same_refl (object xs) = fields_refl xs

  items_refl : (xs : Items) → same_items xs xs ≡ true
  items_refl end = refl
  items_refl (item v xs) = ground (arith, same_refl v, items_refl xs)

  fields_refl : (xs : Fields) → same_fields xs xs ≡ true
  fields_refl empty = refl
  fields_refl (field k v xs) = ground (arith, eq_refl k, same_refl v, fields_refl xs)

-- A key that is not among the keys is not in the object.
pub get-ne-none : (key : String) (fs : Fields) → get key fs ≢ none → Memᴰ key (keys fs)
unfolding get keys
get-ne-none key empty h = absurd (h refl)
get-ne-none key (field k v rest) h = elim (Bool-cases (k =s key)) [
  | inl here ↦ Memᴰ.head (ground (arith, eq_iff k key))
  | inr there ↦ Memᴰ.tail (get-ne-none key rest (rw there at h))
]
