-- ===== src/Butler/Windows/Laws.antt =====
-- The windows against the bucket keys.
use vibeshkoder.Base.{ℕ, ◌+◌, ◌≤◌, ◌<◌, ◌≡◌, ◌↔◌, arith}
use vibeshkoder.Butler.Windows.{
  hour_us, day_us, msk_day_bucket_key, msk_day_window, msk_hour_bucket_key, msk_hour_window,
}

-- The window of a day starts at or before its instant, ends after it and is 24 hours long, and
-- another instant lies in it exactly if both have the same bucket key. (From the second MSK day
-- of the calendar on: before, the start would not be a date.)
pub msk_day_window-key :
    (t u : ℕ)
    → day_us ≤ t
    → let (start, end) = msk_day_window t in
      (start ≤ t)
      × (t < end)
      × (end ≡ start + day_us)
      × (((start ≤ u) × (u < end)) ↔ (msk_day_bucket_key u ≡ msk_day_bucket_key t))
unfolding msk_day_window msk_day_bucket_key
msk_day_window-key t u h = ground arith

-- The same of the window of an hour, which is one hour long.
pub msk_hour_window-key :
    (t u : ℕ)
    → day_us ≤ t
    → let (start, end) = msk_hour_window t in
      (start ≤ t)
      × (t < end)
      × (end ≡ start + hour_us)
      × (((start ≤ u) × (u < end)) ↔ (msk_hour_bucket_key u ≡ msk_hour_bucket_key t))
unfolding msk_hour_window msk_hour_bucket_key
msk_hour_window-key t u h = ground arith
