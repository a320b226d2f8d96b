-- ===== src/Butler/Buckets.antt =====
-- bot/db/repos/butler_rate_bucket.py, with the CHECK constraints of `ButlerRateBucket`
pub mod Counts
use vibeshkoder.Base.{
  ℕ, suc, ◌+◌, ◌-◌, Bool, true, false, Option, none, some, List, [], ◌∷◌, ◌++◌, ◌&&◌, ◌==◌, ltb,
  find, update_where, if◌then◌else◌, str_eq,
}
use vibeshkoder.Base.Exec.{Result, ok, err}
use vibeshkoder.Butler.Model.{
  Bucket, BucketKind, user_plans_day, user_execs_day, chat_actions_day, tool_hour, BucketKey, day,
  hour, Error, World, Method,
}

abbrev pub kind_eq : BucketKind → BucketKind → Bool
kind_eq user_plans_day user_plans_day = true
kind_eq user_execs_day user_execs_day = true
kind_eq chat_actions_day chat_actions_day = true
kind_eq (tool_hour a) (tool_hour b) = str_eq a b
kind_eq _ _ = false

abbrev pub key_eq : BucketKey → BucketKey → Bool
key_eq (day a) (day b) = a == b
key_eq (hour a) (hour b) = a == b
key_eq _ _ = false

-- the columns of the UNIQUE constraint, on which the upsert conflicts
pub record BucketId : Type 0 where
  pub bucket_kind : BucketKind
  pub scope_id : ℕ
  pub bucket_key : BucketKey

unfoldable pub same_id : BucketId → BucketId → Bool
same_id i j =
    kind_eq i.bucket_kind j.bucket_kind
    && (i.scope_id == j.scope_id && key_eq i.bucket_key j.bucket_key)

abbrev pub id_of : Bucket → BucketId
id_of b = record { bucket_kind = b.bucket_kind; scope_id = b.scope_id; bucket_key = b.bucket_key }

abbrev pub is_bucket : BucketId → Bucket → Bool
is_bucket i b = same_id (id_of b) i

-- the row of a first increment
abbrev pub fresh_bucket : BucketId → ℕ × ℕ → ℕ → Bucket
fresh_bucket i (start, end) ceiling = record {
  bucket_kind = i.bucket_kind;
  scope_id = i.scope_id;
  bucket_key = i.bucket_key;
  window_start = start;
  window_end = end;
  count = 1;
  ceiling = ceiling;
}

-- DO UPDATE SET count = count + 1 WHERE count < ceiling
abbrev pub bump : Bucket → Bucket
bump b = if ltb b.count b.ceiling then record b { count = b.count + 1 } else b

abbrev pub upsert : BucketId → ℕ × ℕ → ℕ → List Bucket → List Bucket
upsert i window ceiling [] = fresh_bucket i window ceiling ∷ []
upsert i window ceiling (b ∷ l) =
    if is_bucket i b then bump b ∷ l else b ∷ upsert i window ceiling l

-- whether RETURNING has a row
abbrev pub has_room : Option Bucket → Bool
has_room none = true
has_room (some b) = ltb b.count b.ceiling

-- The row to be inserted must meet `ceiling > 0` also where the statement then updates.
unfoldable pub try_increment : BucketId → ℕ × ℕ → ℕ → Method Bool
try_increment i window ceiling w = if ceiling == 0 then (err Error.integrity_error, w) else (
  ok (has_room (find (is_bucket i) w.buckets)),
  record w { buckets = upsert i window ceiling w.buckets },
)

-- GREATEST(0, count - 1): subtraction on ℕ stops at 0 as well
abbrev pub drop_one : Bucket → Bucket
drop_one b = record b { count = b.count - 1 }

unfoldable pub decrement : BucketId → World → World
decrement i w = record w { buckets = update_where (is_bucket i) drop_one w.buckets }
