-- ===== src/Butler/Windows.antt =====
-- The MSK calendar windows of bot/services/butler.py. MSK is UTC+3, with no changes of the clock.
-- A bucket key is the number of the calendar day or hour that its text spells.
pub mod Laws
use vibeshkoder.Base.{ℕ, ◌+◌, ◌-◌, ◌*◌, ◌/◌, ◌%◌}
use vibeshkoder.Butler.Model.{BucketKey, day, hour}

abbrev pub hour_us : ℕ
hour_us = 3_600_000_000

abbrev pub day_us : ℕ
day_us = 24 * hour_us

-- dt + timedelta(hours=3)
abbrev pub msk : ℕ → ℕ
msk dt = dt + 3 * hour_us

unfoldable pub msk_day_bucket_key : ℕ → BucketKey
msk_day_bucket_key dt = day (msk dt / day_us)

unfoldable pub msk_day_window : ℕ → ℕ × ℕ
msk_day_window dt =
    let msk_start = msk dt - msk dt % day_us in
    let msk_end = msk_start + day_us in (msk_start - 3 * hour_us, msk_end - 3 * hour_us)

unfoldable pub msk_hour_bucket_key : ℕ → BucketKey
msk_hour_bucket_key dt = hour (msk dt / hour_us)

unfoldable pub msk_hour_window : ℕ → ℕ × ℕ
msk_hour_window dt =
    let msk_start = msk dt - msk dt % hour_us in
    let msk_end = msk_start + hour_us in (msk_start - 3 * hour_us, msk_end - 3 * hour_us)
