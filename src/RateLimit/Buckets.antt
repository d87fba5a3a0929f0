-- ===== src/RateLimit/Buckets.antt =====
-- What a bucket reads as after a write, in sliding-window.ts.
use crabbykit.Prelude.{
  ℕ, String, ◌≡◌, refl, Bool, true, false, ◌&&◌, none, some, List, [], ◌∷◌, ◌++◌, map, arith, ◌==◌,
  if◌then◌else◌, is_some, string_eq, ◌↔◌, inl, inr, Bool-cases, Option-cases,
}
use mathlib.Core.Bool.{and-eq-true_iff}
use text.Mathlib.TextEquality.{eq_iff}
use crabbykit.RateLimit.{
  WindowKind, minute, hour, same_kind, Row, row_matches, read_bucket, update_row, write_bucket,
}

abbrev pub fresh_row : String → WindowKind → ℕ → ℕ → Row
fresh_row key kind start n = record {
  bucket_key = key;
  window_kind = kind;
  window_start = start;
  count = n;
}

-- Whether two names are of one bucket.
unfoldable pub same_bucket : String → WindowKind → String → WindowKind → Bool
same_bucket key kind key' kind' = key == key' && same_kind kind kind'

same_kind_iff : (k k' : WindowKind) → (same_kind k k' ≡ true) ↔ (k ≡ k')
same_kind_iff minute minute = ground arith
same_kind_iff minute hour = ground arith
same_kind_iff hour minute = ground arith
same_kind_iff hour hour = ground arith

module _ (key key' : String) (kind kind' : WindowKind) where
  pub same_bucket-eq : same_bucket key kind key' kind' ≡ true → (key ≡ key') × (kind ≡ kind')
  unfolding same_bucket
  same_bucket-eq h = ground (arith, eq_iff key key', same_kind_iff kind kind')

  -- A row that one bucket names is in the other exactly if the two are one.
  matches-matches :
      (r : Row)
      → row_matches key kind r ≡ true
      → row_matches key' kind' r ≡ same_bucket key kind key' kind'
  unfolding row_matches same_bucket
  matches-matches r h =
      let (same_key, same_k) = (and-eq-true_iff _ _).0 h in
      rw ((eq_iff r.bucket_key key).0 same_key, (same_kind_iff r.window_kind kind).0 same_k)

  matches_of_same :
      (r : Row)
      → same_bucket key kind key' kind' ≡ true
      → row_matches key' kind' r ≡ row_matches key kind r
  unfolding row_matches same_bucket
  matches_of_same r h =
      let (same_key, same_k) = (and-eq-true_iff _ _).0 h in
      rw ((eq_iff key key').0 same_key, (same_kind_iff kind kind').0 same_k)

  module _ (start n : ℕ) where
    matches-fresh_row :
        row_matches key' kind' (fresh_row key kind start n) ≡ same_bucket key kind key' kind'
    unfolding row_matches same_bucket
    matches-fresh_row = refl

    -- An update that leaves the row's own bucket alone writes the whole row.
    update-eq-fresh_row :
        (r : Row)
        → row_matches key kind r ≡ true
        → update_row key kind start n r ≡ fresh_row key kind start n
    unfolding row_matches update_row
    update-eq-fresh_row r h =
        ground (arith, eq_iff r.bucket_key key, same_kind_iff r.window_kind kind)

    update-eq_self : (r : Row) → row_matches key kind r ≡ false → update_row key kind start n r ≡ r
    unfolding update_row
    update-eq_self r h = rw h

    read-update_other :
        (t : List Row)
        → same_bucket key kind key' kind' ≡ false
        → read_bucket (map (update_row key kind start n) t) key' kind' ≡ read_bucket t key' kind'
    unfolding read_bucket
    read-update_other [] h = refl
    read-update_other (r ∷ t) h = ground (
      arith,
      update-eq-fresh_row r,
      update-eq_self r,
      matches-matches r,
      matches-fresh_row,
      read-update_other t h,
    )

    read-append :
        (t : List Row)
        → read_bucket t key kind ≡ none
        → read_bucket (t ++ fresh_row key kind start n ∷ []) key' kind' ≡ (
            if same_bucket key kind key' kind'
            then some (fresh_row key kind start n)
            else read_bucket t key' kind')
    unfolding read_bucket
    read-append [] h = ground (arith, matches-fresh_row)
    read-append (r ∷ t) h =
        ground (arith, matches-matches r, matches_of_same r, matches-fresh_row, read-append t)

    read-update_self :
        (t : List Row) (r : Row)
        → read_bucket t key kind ≡ some r
        → same_bucket key kind key' kind' ≡ true
        → read_bucket (map (update_row key kind start n) t) key' kind'
          ≡ some (fresh_row key kind start n)
    unfolding read_bucket
    read-update_self [] r h same = cc
    read-update_self (x ∷ t) r h same = ground (
      arith,
      update-eq-fresh_row x,
      update-eq_self x,
      matches-matches x,
      matches_of_same x,
      matches-fresh_row,
      read-update_self t r,
    )

    -- A write to a bucket is what that bucket reads as, and no other bucket changes.
    pub read-write_bucket :
        (t : List Row)
        → read_bucket
            (write_bucket t key kind (is_some (read_bucket t key kind)) start n)
            key'
            kind'
          ≡ (if same_bucket key kind key' kind'
              then some (fresh_row key kind start n)
              else read_bucket t key' kind')
    unfolding write_bucket
    read-write_bucket t = elim (Option-cases (read_bucket t key kind)) [
      | inl missing ↦ rw missing (read-append t missing)
      | inr (r, found) ↦ elim (Bool-cases (same_bucket key kind key' kind')) [
        | inl same ↦ rw (found, same) (read-update_self t r found same)
        | inr other ↦ rw (found, other) (read-update_other t other)
      ]
    ]

pub same_bucket_self : (key : String) (kind : WindowKind) → same_bucket key kind key kind ≡ true
unfolding same_bucket
same_bucket_self key kind = ground (arith, eq_iff key key, same_kind_iff kind kind)
