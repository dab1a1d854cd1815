-- ===== src/Store/Writes.antt =====
-- What the steps of `put_bytes` leave on the disk.
use mathlib.Core.List.{append-nil, append_assoc}
use legal_genie_agent.Prelude.{
  ℕ, String, ◌≡◌, ◌≢◌, ◌⊎◌, refl, sym, ap, ◌∙◌, subst, Option, none, some, List, [], ◌∷◌, ◌++◌, any,
  arith, Bool-cases, Option-cases, inl, inr,
}
use legal_genie_agent.Sql.{World, Result, ok, err, continue, execute, statement, ◌>>◌}
use legal_genie_agent.Sql.Rules.{execute_cases, statement_cases}
use legal_genie_agent.Sql.Rows.{first_where, update_where}
use legal_genie_agent.Store.{
  Bytes, File, Disk, location, at, find_file, is_file, is_directory, leading, io, create_parents,
  create_file, append_byte, write_all, put_bytes,
}
use legal_genie_agent.Store.Laws.{
  contents, mapped, contents-changed, contents_unchanged, contents_added, contents_beside,
}

-- What became of a disk: `names` holds `v`, and every other place what it held before.
pub record Holds (names : List String) (v : Option Bytes) (before after : List File) : Type 0 where
  pub here : contents after names ≡ v
  pub elsewhere : (k : List String) → k ≢ names → contents after k ≡ contents before k

module _ (names : List String) where
  Holds-trans :
      {v u : Option Bytes} {a b c : List File}
      → Holds names v a b
      → Holds names u b c
      → Holds names u a c
  Holds-trans first second = record {
    here = second.here;
    elsewhere = λ k other. second.elsewhere k other ∙ first.elsewhere k other;
  }

  -- What `write_all` leaves: some of the bytes, all of them where it returns.
  abbrev Written : Bytes → Bytes → World Disk → World Disk → Result String (Unit {0}) → Type 0
  Written base bytes before after r =
      (done : Bytes) × (left : Bytes) × (bytes ≡ done ++ left)
      × Holds names (some (base ++ done)) before.tables.files after.tables.files
      × ((r ≡ ok tt) → left ≡ [])

  abbrev Leaves : Bytes → Type 0
  Leaves bytes =
      (base : Bytes) (w : World Disk)
      → contents w.tables.files names ≡ some base
      → Written base bytes w (write_all names bytes w).1 (write_all names bytes w).0

  one_more :
      (b : ℕ) (bs base : Bytes) (w : World Disk)
      → contents w.tables.files names ≡ some base
      → Leaves bs
      → (r : Result String (Unit {0})) (w' : World Disk)
      → ((e : String) × (r ≡ err e) × (w'.tables ≡ w.tables))
        ⊎ ((r ≡ ok tt) × (w'.tables ≡ (append_byte names b w.tables).1))
      → Written base
          (b ∷ bs)
          w
          (continue (λ _. write_all names bs) r w').1
          (continue (λ _. write_all names bs) r w').0
  unfolding append_byte
  one_more b bs base w h rest (err e) w' (inl (x, failed, kept)) = (
    [],
    b ∷ bs,
    refl,
    record {
      here = ap (λ d. contents d.files names) kept ∙ h ∙ ap some (sym (append-nil base));
      elsewhere = λ k other. ap (λ d. contents d.files k) kept;
    },
    λ same. absurd (cc same),
  )
  one_more b bs base w h rest (err e) w' (inr (done, after)) = absurd (cc done)
  one_more b bs base w h rest (ok tt) w' (inl (x, failed, kept)) = absurd (cc failed)
  one_more b bs base w h rest (ok tt) w' (inr (same, after)) =
      let first : Holds names (some (base ++ b ∷ [])) w.tables.files w'.tables.files = record {
        here =
            ap (λ d. contents d.files names) after
            ∙ contents-changed names (λ a. a ++ b ∷ []) w.tables.files
            ∙ ap (mapped (λ a. a ++ b ∷ [])) h;
        elsewhere = λ k other.
            ap (λ d. contents d.files k) after
            ∙ contents_unchanged names (λ a. a ++ b ∷ []) w.tables.files k other;
      } in
      let (done, left, split, later, complete) = rest (base ++ b ∷ []) w' first.here in
      (
        b ∷ done,
        left,
        ap (λ l. b ∷ l) split,
        Holds-trans first (
            subst (λ l. Holds names (some l) w'.tables.files (write_all names bs w').1.tables.files)
              (append_assoc base (b ∷ []) done) later),
        complete,
      )

  write_all-Leaves : (bytes : Bytes) → Leaves bytes
  unfolding write_all
  write_all-Leaves [] base w h = (
    [],
    [],
    refl,
    record { here = h ∙ ap some (sym (append-nil base)); elsewhere = λ k other. refl },
    λ e. refl,
  )
  write_all-Leaves (b ∷ bs) base w h =
      one_more b bs base w h (write_all-Leaves bs) (execute io (append_byte names b) w).0
        (execute io (append_byte names b) w).1 (execute_cases io (append_byte names b) w)

  none_there : (d : Disk) → first_where (at names) d.files ≡ none → contents d.files names ≡ none
  unfolding contents
  none_there d absent = rw absent refl

  some_there :
      (d : Disk) (f : File)
      → first_where (at names) d.files ≡ some f
      → contents d.files names ≡ some f.bytes
  unfolding contents
  some_there d f present = rw present refl

  -- An emptied or new file.
  created :
      (d d' : Disk) → create_file names d ≡ ok (tt, d') → Holds names (some []) d.files d'.files
  unfolding create_file is_file find_file
  created d d' h = elim (Bool-cases (is_directory d names)) [
    | inl directory ↦ absurd (ground arith)
    | inr place ↦ elim (Option-cases (first_where (at names) d.files)) [
      | inl absent ↦
          let e : Path (Result String (Unit {0} × Disk))
              (ok (tt, record d { files = added d.files })) (ok (tt, d')) =
            rw (place, absent) at h in
          let same : record d { files = added d.files } ≡ d' = cc e in
          subst (λ (x : Disk). Holds names (some []) d.files x.files) same
            (record {
              here = contents_added names d.files [] (none_there d absent);
              elsewhere = λ k other. contents_beside names d.files [] k other;
            })
      | inr (f, present) ↦
          let e : Path (Result String (Unit {0} × Disk))
              (ok (tt, record d { files = emptied d.files })) (ok (tt, d')) =
            rw (place, present) at h in
          let same : record d { files = emptied d.files } ≡ d' = cc e in
          subst (λ (x : Disk). Holds names (some []) d.files x.files) same
            (record {
              here =
                  contents-changed names (λ b. []) d.files
                  ∙ ap (mapped (λ b. [])) (some_there d f present);
              elsewhere = λ k other. contents_unchanged names (λ b. []) d.files k other;
            })
    ]
  ]
    where
      added : List File → List File
      added fs = fs ++ record { names = names; bytes = [] } ∷ []

      emptied : List File → List File
      emptied fs = update_where (at names) (λ f. record f { bytes = [] }) fs

parents_keep :
    (names : List String) (d d' : Disk) → create_parents names d ≡ ok (tt, d') → d'.files ≡ d.files
unfolding create_parents
parents_keep names d d' h = elim (Bool-cases (any (is_file d) (leading names))) [
  | inl file ↦ absurd (ground arith)
  | inr clear ↦
      let e : Path (Result String (Unit {0} × Disk))
          (ok (tt, record d { directories = d.directories ++ leading names })) (ok (tt, d')) =
        rw clear at h in
      let same : record d { directories = d.directories ++ leading names } ≡ d' = cc e in
      ap (λ x. x.files) (sym same)
]

module _ (names : List String) (bytes : Bytes) where
  -- What the steps of `put_bytes` leave of the files, and whether all is done.
  abbrev Part : World Disk → World Disk → Result String (Unit {0}) → Type 0
  Part w w' r =
      ((w'.tables.files ≡ w.tables.files) × (r ≢ ok tt))
      ⊎ ((done : Bytes) × (left : Bytes) × (bytes ≡ done ++ left)
          × Holds names (some done) w.tables.files w'.tables.files
          × ((r ≡ ok tt) → left ≡ []))

  abbrev Ran :
      (Disk → Result String (Unit {0} × Disk))
      → World Disk
      → World Disk
      → Result String (Unit {0})
      → Type 0
  Ran run w w' r =
      ((e : String) × (r ≡ err e) × (w'.tables ≡ w.tables))
      ⊎ ((a : Unit {0}) × (s : Disk) × (run w.tables ≡ ok (a, s)) × (r ≡ ok a) × (w'.tables ≡ s))

  then_write :
      (w w1 : World Disk)
      → w1.tables.files ≡ w.tables.files
      → (r : Result String (Unit {0})) (w2 : World Disk) → Ran (create_file names) w1 w2 r
      → Part w
          (continue (λ _. write_all names bytes) r w2).1
          (continue (λ _. write_all names bytes) r w2).0
  then_write w w1 kept (err e) w2 (inl (x, failed, same)) =
      inl (ap (λ d. d.files) same ∙ kept, λ h. absurd (cc h))
  then_write w w1 kept (err e) w2 (inr (a, s, run, done, after)) = absurd (cc done)
  then_write w w1 kept (ok u) w2 (inl (x, failed, same)) = absurd (cc failed)
  then_write w w1 kept (ok u) w2 (inr (a, s, run, done, after)) =
      let made = created names w1.tables s run in
      let here = ap (λ d. contents d.files names) after ∙ made.here in
      let (part, left, split, written, complete) = write_all-Leaves names bytes [] w2 here in
      let emptied : Holds names (some []) w.tables.files w2.tables.files = record {
        here = here;
        elsewhere = λ k other.
            ap (λ d. contents d.files k) after
            ∙ made.elsewhere k other
            ∙ ap (λ fs. contents fs k) kept;
      } in
      inr (part, left, split, Holds-trans names emptied written, complete)

  then_create :
      (w : World Disk) (r : Result String (Unit {0})) (w1 : World Disk)
      → Ran (create_parents names) w w1 r
      → Part w
          (continue (λ _. statement io (create_file names) >> write_all names bytes) r w1).1
          (continue (λ _. statement io (create_file names) >> write_all names bytes) r w1).0
  then_create w (err e) w1 (inl (x, failed, same)) =
      inl (ap (λ d. d.files) same, λ h. absurd (cc h))
  then_create w (err e) w1 (inr (a, s, run, done, after)) = absurd (cc done)
  then_create w (ok u) w1 (inl (x, failed, same)) = absurd (cc failed)
  then_create w (ok u) w1 (inr (a, s, run, done, after)) =
      then_write w w1 (ap (λ d. d.files) after ∙ parents_keep names w.tables s run)
        (statement io (create_file names) w1).0 (statement io (create_file names) w1).1
        (statement_cases io (create_file names) w1)

pub put_leaves :
    (rel_path : String) (bytes : Bytes) (w : World Disk)
    → Part (location rel_path) bytes w (put_bytes rel_path bytes w).1 (put_bytes rel_path bytes w).0
unfolding put_bytes
put_leaves rel_path bytes w =
    let names = location rel_path in
    then_create names bytes w (statement io (create_parents names) w).0
      (statement io (create_parents names) w).1 (statement_cases io (create_parents names) w)

pub put_done :
    (rel_path : String) (bytes : Bytes) (w : World Disk)
    → (put_bytes rel_path bytes w).0 ≡ ok tt
    → Holds
        (location rel_path)
        (some bytes)
        w.tables.files
        (put_bytes rel_path bytes w).1.tables.files
put_done rel_path bytes w h = elim (put_leaves rel_path bytes w) [
  | inl (same, failed) ↦ absurd (failed h)
  | inr (done, left, split, holds, complete) ↦
      let whole : bytes ≡ done = split ∙ ap (λ l. done ++ l) (complete h) ∙ append-nil done in
      subst
        (λ b.
          Holds (location rel_path) (some b) w.tables.files
            (put_bytes rel_path bytes w).1.tables.files)
        (sym whole) holds
]
