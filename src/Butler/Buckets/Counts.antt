-- ===== src/Butler/Buckets/Counts.antt =====
-- What an increment and a decrement do to the count of every bucket, and the bound on the counts.
use vibeshkoder.Base.{
  ℕ, ◌+◌, ◌-◌, ◌≤◌, ◌<◌, ◌≡◌, ◌↔◌, Bool, true, false, ◌&&◌, List, [], ◌∷◌, find, update_where,
  if◌then◌else◌, arith, eq_iff,
}
use vibeshkoder.Butler.Model.{Bucket, BucketKind, BucketKey, tool_hour, day}
use vibeshkoder.Butler.Buckets.{
  BucketId, is_bucket, same_id, id_of, kind_eq, key_eq, upsert, has_room, drop_one,
}

kind_eq_iff : (a b : BucketKind) → (kind_eq a b ≡ true) ↔ (a ≡ b)
kind_eq_iff (tool_hour x) (tool_hour y) = ground (arith, eq_iff x y)
kind_eq_iff _ _ = ground arith

key_eq_iff : (a b : BucketKey) → (key_eq a b ≡ true) ↔ (a ≡ b)
key_eq_iff (day x) _ = ground arith
key_eq_iff _ _ = ground arith

pub same_id_iff : (i j : BucketId) → (same_id i j ≡ true) ↔ (i ≡ j)
unfolding same_id
same_id_iff i j =
    ground (arith, kind_eq_iff i.bucket_kind j.bucket_kind, key_eq_iff i.bucket_key j.bucket_key)

-- the count of a bucket, 0 where there is no row
abbrev pub count_in : BucketId → List Bucket → ℕ
count_in i [] = 0
count_in i (b ∷ l) = if is_bucket i b then b.count else count_in i l

abbrev pub one_if : Bool → ℕ
one_if true = 1
one_if false = 0

-- The upsert of a rate counter adds one to the count of that counter if it has room (no row, or a count
-- below the ceiling of its row), and changes the count of no other counter.
pub count_in-upsert :
    (i j : BucketId) (window : ℕ × ℕ) (ceiling : ℕ) (l : List Bucket)
    → count_in j (upsert i window ceiling l)
      ≡ count_in j l + one_if (same_id i j && has_room (find (is_bucket i) l))
count_in-upsert i j window ceiling [] = ground arith
count_in-upsert i j window ceiling (b ∷ l) = ground (
  arith,
  same_id_iff (id_of b) i,
  same_id_iff (id_of b) j,
  same_id_iff i j,
  count_in-upsert i j window ceiling l,
)

-- A decrement takes one off the count of that counter, down to 0, and changes the count of no other.
pub count_in-decrement :
    (i j : BucketId) (l : List Bucket)
    → count_in j (update_where (is_bucket i) drop_one l) ≡ count_in j l - one_if (same_id i j)
count_in-decrement i j [] = ground arith
count_in-decrement i j (b ∷ l) = ground (
  arith,
  same_id_iff (id_of b) i,
  same_id_iff (id_of b) j,
  same_id_iff i j,
  count_in-decrement i j l,
)

-- No counter is above its own ceiling.
abbrev pub AreBounded : List Bucket → Type 0
AreBounded [] = Unit
AreBounded (b ∷ l) = (b.count ≤ b.ceiling) × AreBounded l

-- With a positive ceiling, an upsert keeps every counter at or below its own ceiling.
pub upsert-AreBounded :
    (i : BucketId) (window : ℕ × ℕ) (ceiling : ℕ) (l : List Bucket)
    → 0 < ceiling
    → AreBounded l
    → AreBounded (upsert i window ceiling l)
upsert-AreBounded i window ceiling [] h k = ground arith
upsert-AreBounded i window ceiling (b ∷ l) h k =
    ground (arith, upsert-AreBounded i window ceiling l h k.1)

-- A decrement keeps every counter at or below its own ceiling.
pub decrement-AreBounded :
    (i : BucketId) (l : List Bucket)
    → AreBounded l
    → AreBounded (update_where (is_bucket i) drop_one l)
decrement-AreBounded i [] k = tt
decrement-AreBounded i (b ∷ l) k = ground (arith, decrement-AreBounded i l k.1)
