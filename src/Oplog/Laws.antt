-- ===== src/Oplog/Laws.antt =====
-- What the operation log says of a change, and how long its texts are.
use mathlib.Core.List.{Memᴰ}
use legal_genie_agent.Prelude.{
  String, ◌=s◌, ◌≡◌, ◌≢◌, ◌↔◌, refl, sym, ap, ◌∙◌, subst, Bool, true, false, not, Option, none,
  some, List, [], ◌∷◌, ◌++◌, arith, eq_iff, Bool-cases, Option-cases, inl, inr, ◌⊎◌, if◌then◌else◌,
}
use legal_genie_agent.Sql.Rows.{select_where_sound, select_where_complete}
use legal_genie_agent.Json.{Json, Fields, object, same, get, keys}
use legal_genie_agent.Json.Laws.{same_sound, same_refl, get-ne-none}
use legal_genie_agent.Oplog.{
  insert, sort, dedup, joined, same_value, changed_keys, extract_changed_fields,
}

mem-append_left : {A : Type 0} {x : A} (xs ys : List A) → Memᴰ x xs → Memᴰ x (xs ++ ys)
mem-append_left [] ys m = elim m [ ]
mem-append_left (x ∷ xs) ys (Memᴰ.head e) = Memᴰ.head e
mem-append_left (x ∷ xs) ys (Memᴰ.tail m) = Memᴰ.tail (mem-append_left xs ys m)

mem-append_right : {A : Type 0} {x : A} (xs ys : List A) → Memᴰ x ys → Memᴰ x (xs ++ ys)
mem-append_right [] ys m = m
mem-append_right (x ∷ xs) ys m = Memᴰ.tail (mem-append_right xs ys m)

mem-if :
    {A : Type 0} {x : A} (b : Bool) (xs ys : List A)
    → Memᴰ x xs
    → Memᴰ x ys
    → Memᴰ x (if b then xs else ys)
mem-if true xs ys m n = m
mem-if false xs ys m n = n

mem-insert :
    (k : String) (xs : List String) {x : String} → (x ≡ k) ⊎ Memᴰ x xs → Memᴰ x (insert k xs)
unfolding insert
mem-insert k [] (inl e) = Memᴰ.head e
mem-insert k [] (inr m) = elim m [ ]
mem-insert k (y ∷ ys) (inl e) = mem-if _ _ _ (Memᴰ.head e) (Memᴰ.tail (mem-insert k ys (inl e)))
mem-insert k (y ∷ ys) (inr (Memᴰ.head e)) = mem-if _ _ _ (Memᴰ.tail (Memᴰ.head e)) (Memᴰ.head e)
mem-insert k (y ∷ ys) (inr (Memᴰ.tail m)) =
    mem-if _ _ _ (Memᴰ.tail (Memᴰ.tail m)) (Memᴰ.tail (mem-insert k ys (inr m)))

mem-sort : (ks : List String) {x : String} → Memᴰ x ks → Memᴰ x (sort ks)
unfolding sort
mem-sort [] m = elim m [ ]
mem-sort (k ∷ ks) (Memᴰ.head e) = mem-insert k (sort ks) (inl e)
mem-sort (k ∷ ks) (Memᴰ.tail m) = mem-insert k (sort ks) (inr (mem-sort ks m))

mem-dedup : (ks : List String) {x : String} → Memᴰ x ks → Memᴰ x (dedup ks)
unfolding dedup
mem-dedup [] m = m
mem-dedup (k ∷ []) m = m
mem-dedup (k ∷ l ∷ ks) (Memᴰ.head e) = elim (Bool-cases (k =s l)) [
  | inl same' ↦ rw same' (mem-dedup (l ∷ ks) (Memᴰ.head (cc (e, (eq_iff k l).0 same'))))
  | inr other ↦ rw other (Memᴰ.head e)
]
mem-dedup (k ∷ l ∷ ks) (Memᴰ.tail m) =
    mem-if _ _ _ (mem-dedup (l ∷ ks) m) (Memᴰ.tail (mem-dedup (l ∷ ks) m))

same_value_iff : (v w : Option Json) → (same_value v w ≡ true) ↔ (v ≡ w)
same_value_iff none none = (λ h. refl, λ h. refl)
same_value_iff none (some w) = (λ h. absurd (cc h), λ h. absurd (cc h))
same_value_iff (some v) none = (λ h. absurd (cc h), λ h. absurd (cc h))
same_value_iff (some v) (some w) = (
  λ h. ap some (same_sound v w h),
  λ h. let e : v ≡ w = cc h in subst (λ u. same v u ≡ true) e (same_refl v),
)

in_neither :
    (old new : Fields) (key : String)
    → get key old ≢ get key new
    → (get key old ≢ none) ⊎ (get key new ≢ none)
in_neither old new key differ = elim (Option-cases (get key old)) [
  | inl absent ↦ inr (λ also. differ (absent ∙ sym also))
  | inr (v, present) ↦ inl (λ h. absurd (cc (h, present)))
]

-- The keys that are kept are those whose values differ.
pub changed_keys_iff :
    (old new : Fields) (key : String)
    → Memᴰ key (changed_keys old new) ↔ (get key old ≢ get key new)
unfolding changed_keys
changed_keys_iff old new key = (
  λ m e.
      let (n, test) = select_where_sound differ (dedup (sort (keys old ++ keys new))) m in
      ground (arith, test, (same_value_iff (get key old) (get key new)).1 e),
  λ d.
      select_where_complete differ (dedup (sort (keys old ++ keys new)))
        (mem-dedup _ (mem-sort _ (listed d)))
        (elim (Bool-cases (same_value (get key old) (get key new))) [
          | inl alike ↦ absurd (d ((same_value_iff (get key old) (get key new)).0 alike))
          | inr other ↦ rw other refl
        ]),
)
  where
    differ : String → Bool
    differ k = not (same_value (get k old) (get k new))

    listed : get key old ≢ get key new → Memᴰ key (keys old ++ keys new)
    listed d = elim (in_neither old new key d) [
      | inl here ↦ mem-append_left (keys old) (keys new) (get-ne-none key old here)
      | inr there ↦ mem-append_right (keys old) (keys new) (get-ne-none key new there)
    ]

joined-none : (ks : List String) → (joined ks ≡ none) ↔ (ks ≡ [])
joined-none [] = (λ h. refl, λ h. refl)
joined-none (k ∷ ks) = (λ h. absurd (cc h), λ h. absurd (cc h))

no_members : (ks : List String) → ((k : String) → ¬ Memᴰ k ks) → ks ≡ []
no_members [] h = refl
no_members (k ∷ ks) h = absurd (h k (Memᴰ.head refl))

get-eq_of_no_changes :
    (old new : Fields) (key : String) → changed_keys old new ≡ [] → get key old ≡ get key new
get-eq_of_no_changes old new key unchanged =
    elim (Bool-cases (same_value (get key old) (get key new))) [
      | inl alike ↦ (same_value_iff (get key old) (get key new)).0 alike
      | inr other ↦ absurd (
          none_left (
            subst (λ ks. Memᴰ key ks) unchanged
              ((changed_keys_iff old new key).1
                (λ e. absurd (cc (other, (same_value_iff (get key old) (get key new)).1 e))))))
    ]
  where
    none_left : Memᴰ key [] → ⊥
    none_left m = elim m [ ]

-- A change of two objects is logged without changed fields exactly where they have the same value
-- under every key.
pub no_change_iff :
    (old new : Fields)
    → (extract_changed_fields (some (object old)) (some (object new)) ≡ none)
      ↔ ((key : String) → get key old ≡ get key new)
unfolding extract_changed_fields
no_change_iff old new = (
  λ h key. get-eq_of_no_changes old new key ((joined-none (changed_keys old new)).0 h),
  λ h.
      (joined-none (changed_keys old new)).1
        (no_members (changed_keys old new) (λ k m. (changed_keys_iff old new k).0 m (h k))),
)
