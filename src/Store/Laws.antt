-- ===== src/Store/Laws.antt =====
-- No path leads out of the root, and what a disk holds under a path.
use legal_genie_agent.Prelude.{
  String, ◌=s◌, ◌≡◌, ◌≢◌, ◌↔◌, refl, sym, ◌∙◌, true, false, Option, none, some, List, [], ◌∷◌, ◌++◌,
  All, arith, eq_iff, Bool-cases, inl, inr,
}
use legal_genie_agent.Sql.Rows.{first_where, update_where, delete_where}
use legal_genie_agent.Paths.{Component, root_dir, cur_dir, parent_dir, normal, components}
use legal_genie_agent.Store.{Bytes, File, clean, resolve, same_names, at}

-- A component that leads nowhere but down.
abbrev pub Descends : Component → Type 0
Descends c = (c ≢ root_dir) × (c ≢ parent_dir)

clean-Descends : (cs : List Component) → All Descends (clean cs)
unfolding clean
clean-Descends [] = tt
clean-Descends (root_dir ∷ cs) = clean-Descends cs
clean-Descends (cur_dir ∷ cs) = ((λ h. absurd (cc h), λ h. absurd (cc h)), clean-Descends cs)
clean-Descends (parent_dir ∷ cs) = clean-Descends cs
clean-Descends (normal s ∷ cs) = ((λ h. absurd (cc h), λ h. absurd (cc h)), clean-Descends cs)

-- Whatever path a caller gives, the place that the store uses for it is reached from the store's
-- root by going down alone: no `..` and no leading slash leads out of it.
pub resolve-Descends :
    (root : List Component) (rel_path : String)
    → (below : List Component) × (resolve root rel_path ≡ root ++ below) × All Descends below
unfolding resolve
resolve-Descends root rel_path =
    (clean (components rel_path), refl, clean-Descends (components rel_path))

pub same_names_iff : (ss ts : List String) → (same_names ss ts ≡ true) ↔ (ss ≡ ts)
unfolding same_names
same_names_iff [] [] = (λ h. refl, λ h. refl)
same_names_iff [] (t ∷ ts) = (λ h. absurd (cc h), λ h. absurd (cc h))
same_names_iff (s ∷ ss) [] = (λ h. absurd (cc h), λ h. absurd (cc h))
same_names_iff (s ∷ ss) (t ∷ ts) = (
  λ h.
      let head : (s =s t) ≡ true = ground arith in
      let tail : same_names ss ts ≡ true = ground arith in
      let e = (eq_iff s t).0 head in let f = (same_names_iff ss ts).0 tail in cc (e, f),
  λ h.
      let e : s ≡ t = cc h in
      let f : ss ≡ ts = cc h in ground (arith, (eq_iff s t).1 e, (same_names_iff ss ts).1 f),
)

abbrev pub mapped : (Bytes → Bytes) → Option Bytes → Option Bytes
mapped g none = none
mapped g (some b) = some (g b)

abbrev pub bytes_of : Option File → Option Bytes
bytes_of none = none
bytes_of (some f) = some f.bytes

-- The object under a path's names.
unfoldable pub contents : List File → List String → Option Bytes
contents fs names = bytes_of (first_where (at names) fs)

module _ (names : List String) (g : Bytes → Bytes) where
  abbrev changed : File → File
  changed f = record f { bytes = g f.bytes }

  pub contents-changed :
      (fs : List File)
      → contents (update_where (at names) changed fs) names ≡ mapped g (contents fs names)
  unfolding contents first_where update_where at
  contents-changed [] = refl
  contents-changed (f ∷ fs) = elim (Bool-cases (same_names f.names names)) [
    | inl here ↦ rw (here, here) refl
    | inr there ↦ rw (there, there) (contents-changed fs)
  ]

  pub contents_unchanged :
      (fs : List File) (k : List String)
      → k ≢ names
      → contents (update_where (at names) changed fs) k ≡ contents fs k
  unfolding contents first_where update_where at
  contents_unchanged [] k other = refl
  contents_unchanged (f ∷ fs) k other = elim (Bool-cases (same_names f.names names)) [
    | inl here ↦
        let elsewhere : same_names f.names k ≡ false = apart f here in
        rw (here, elsewhere) (contents_unchanged fs k other)
    | inr there ↦ elim (Bool-cases (same_names f.names k)) [
      | inl found ↦ rw (there, found) refl
      | inr missing ↦ rw (there, missing) (contents_unchanged fs k other)
    ]
  ]
    where
      apart : (f : File) → same_names f.names names ≡ true → same_names f.names k ≡ false
      apart f here = elim (Bool-cases (same_names f.names k)) [
        | inl both ↦ absurd (
            other (sym ((same_names_iff f.names k).0 both) ∙ (same_names_iff f.names names).0 here))
        | inr other' ↦ other'
      ]

module _ (names : List String) where
  pub contents_added :
      (fs : List File) (b : Bytes)
      → contents fs names ≡ none
      → contents (fs ++ record { names = names; bytes = b } ∷ []) names ≡ some b
  unfolding contents first_where at
  contents_added [] b absent = rw ((same_names_iff names names).1 refl) refl
  contents_added (f ∷ fs) b absent = elim (Bool-cases (same_names f.names names)) [
    | inl here ↦ absurd (ground arith)
    | inr there ↦ rw there (contents_added fs b (rw there at absent))
  ]

  pub contents_beside :
      (fs : List File) (b : Bytes) (k : List String)
      → k ≢ names
      → contents (fs ++ record { names = names; bytes = b } ∷ []) k ≡ contents fs k
  unfolding contents first_where at
  contents_beside [] b k other = elim (Bool-cases (same_names names k)) [
    | inl found ↦ absurd (other (sym ((same_names_iff names k).0 found)))
    | inr missing ↦ rw missing refl
  ]
  contents_beside (f ∷ fs) b k other = elim (Bool-cases (same_names f.names k)) [
    | inl here ↦ rw here refl
    | inr there ↦ rw there (contents_beside fs b k other)
  ]

  pub contents_deleted : (fs : List File) → contents (delete_where (at names) fs) names ≡ none
  unfolding contents first_where delete_where at
  contents_deleted [] = refl
  contents_deleted (f ∷ fs) = elim (Bool-cases (same_names f.names names)) [
    | inl here ↦ rw here (contents_deleted fs)
    | inr there ↦ rw (there, there) (contents_deleted fs)
  ]

  pub contents_spared :
      (fs : List File) (k : List String)
      → k ≢ names
      → contents (delete_where (at names) fs) k ≡ contents fs k
  unfolding contents first_where delete_where at
  contents_spared [] k other = refl
  contents_spared (f ∷ fs) k other = elim (Bool-cases (same_names f.names names)) [
    | inl here ↦ elim (Bool-cases (same_names f.names k)) [
      | inl both ↦
          absurd (
            other (sym ((same_names_iff f.names k).0 both) ∙ (same_names_iff f.names names).0 here))
      | inr apart ↦ rw (here, apart) (contents_spared fs k other)
    ]
    | inr there ↦ elim (Bool-cases (same_names f.names k)) [
      | inl found ↦ rw (there, found) refl
      | inr missing ↦ rw (there, missing) (contents_spared fs k other)
    ]
  ]
