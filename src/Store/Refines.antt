-- ===== src/Store/Refines.antt =====
-- The store as what its callers take it for: a map from names to bytes.
use legal_genie_agent.Prelude.{
  String, ◌≡◌, ◌⊎◌, ap, ◌∙◌, Option, some, List, ◌++◌, arith, Bool-cases, Option-cases, inl, inr,
}
use legal_genie_agent.Sql.{World, healthy, ok}
use legal_genie_agent.Sql.Rows.{first_where}
use legal_genie_agent.Store.{
  Bytes, File, Disk, location, same_names, at, find_file, put_bytes, read_bytes,
}
use legal_genie_agent.Store.Writes.{Holds, put_leaves, put_done}
use legal_genie_agent.Store.Contract.{stored}
use legal_genie_agent.Store.Laws.{contents, same_names_iff}

stored-Holds :
    (names k : List String) (v : Option Bytes) (before after : List File)
    → Holds names v before after
    → contents after k ≡ stored names v (contents before) k
stored-Holds names k v before after h = elim (Bool-cases (same_names k names)) [
  | inl same ↦ rw same (ap (λ n. contents after n) ((same_names_iff k names).0 same) ∙ h.here)
  | inr other ↦ rw other (h.elsewhere k (λ e. absurd (cc (other, (same_names_iff k names).1 e))))
]

-- Whatever fails during `put_bytes`, every object is afterwards what it was before, except that the
-- one under the path may be a first part of the bytes.
pub put_leaves_prefix :
    (rel_path : String) (bytes : Bytes) (w : World Disk) (k : List String)
    → (contents (put_bytes rel_path bytes w).1.tables.files k ≡ contents w.tables.files k)
      ⊎ ((part : Bytes) × (left : Bytes) × (bytes ≡ part ++ left)
          × (contents (put_bytes rel_path bytes w).1.tables.files k
              ≡ stored (location rel_path) (some part) (contents w.tables.files) k))
put_leaves_prefix rel_path bytes w k = elim (put_leaves rel_path bytes w) [
  | inl (same, failed) ↦ inl (ap (λ fs. contents fs k) same)
  | inr (part, left, split, holds, complete) ↦
      inr (part, left, split, stored-Holds (location rel_path) k (some part) w.tables.files _ holds)
]

reads :
    (rel_path : String) (d : Disk) (b : Bytes)
    → contents d.files (location rel_path) ≡ some b
    → (read_bytes rel_path (healthy d)).0 ≡ ok b
unfolding read_bytes find_file contents
reads rel_path d b h = elim (Option-cases (first_where (at (location rel_path)) d.files)) [
  | inl absent ↦ absurd (ground arith)
  | inr (f, present) ↦
      let same : Path (Option Bytes) (some f.bytes) (some b) = rw present at h in
      rw present (ap ok (cc same))
]

-- What is put is read: after a `put_bytes` that returns, whatever failed on the way, a read of the
-- path over a disk that works returns the bytes.
pub read_bytes-put_bytes :
    (rel_path : String) (bytes : Bytes) (w : World Disk)
    → (put_bytes rel_path bytes w).0 ≡ ok tt
    → (read_bytes rel_path (healthy (put_bytes rel_path bytes w).1.tables)).0 ≡ ok bytes
read_bytes-put_bytes rel_path bytes w h =
    reads rel_path (put_bytes rel_path bytes w).1.tables bytes (put_done rel_path bytes w h).here
