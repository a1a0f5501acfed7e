-- ===== src/Cart/Mbc3/Clock.antt =====
-- `Mbc3::AdvanceRtc` of carbon-pc/src/gb/Cartridge.cpp: the clock counts seconds.
use open_carbon.Base.{
  ℕ, ◌+◌, ◌-◌, ◌*◌, ◌/◌, ◌%◌, ◌^◌, ◌≤◌, ◌<◌, ◌≡◌, arith, leb, if◌then◌else◌, bit, u32,
}
use open_carbon.State.{Rtc}
use open_carbon.Cart.Mbc3.{
  carry_days, carry_hours, carry_minutes, carry_seconds, advance_rtc, elapsed,
}

pub record IsClock (r : Rtc) : Type 0 where
  pub seconds : r.seconds < 60
  pub minutes : r.minutes < 60
  pub hours : r.hours < 24
  pub day_low : r.day_low < 2 ^ 8
  pub day_high : r.day_high < 2 ^ 8

-- The time since day 0, in each unit. The day has nine bits.
abbrev pub days : Rtc → ℕ
days r = r.day_low + r.day_high % 2 * 2 ^ 8

abbrev pub total_hours : Rtc → ℕ
total_hours r = days r * 24 + r.hours

abbrev pub total_minutes : Rtc → ℕ
total_minutes r = total_hours r * 60 + r.minutes

abbrev pub total_seconds : Rtc → ℕ
total_seconds r = total_minutes r * 60 + r.seconds

-- The carry bit, set where the count passed `limit` days, and otherwise as it was.
abbrev carry_bit : Rtc → ℕ → ℕ → ℕ
carry_bit r count limit = if leb limit count then 1 else bit r.day_high 7

-- What a stage leaves, from the hours up; `v` is its count of hours.
record CountsHours (r r' : Rtc) (v : ℕ) : Type 0 where
  valid : IsClock r'
  total : total_hours r' ≡ (days r * 24 + v) % (512 * 24)
  carry : bit r'.day_high 7 ≡ carry_bit r (days r * 24 + v) (512 * 24)
  halt : bit r'.day_high 6 ≡ bit r.day_high 6
  seconds_same : r'.seconds ≡ r.seconds
  minutes_same : r'.minutes ≡ r.minutes
  last_same : r'.last_time ≡ r.last_time

carry_days-CountsHours : (r : Rtc) (v : ℕ) → IsClock r → CountsHours r (carry_days r v) v
unfolding carry_days
carry_days-CountsHours r v ok = ground arith

carry_hours-CountsHours : (r : Rtc) (v : ℕ) → IsClock r → CountsHours r (carry_hours r v) v
unfolding carry_hours
carry_hours-CountsHours r v ok = ground (arith, carry_days-CountsHours r v ok)

record CountsMinutes (r r' : Rtc) (v : ℕ) : Type 0 where
  valid : IsClock r'
  total : total_minutes r' ≡ (total_hours r * 60 + v) % (512 * 24 * 60)
  carry : bit r'.day_high 7 ≡ carry_bit r (total_hours r * 60 + v) (512 * 24 * 60)
  halt : bit r'.day_high 6 ≡ bit r.day_high 6
  seconds_same : r'.seconds ≡ r.seconds
  last_same : r'.last_time ≡ r.last_time

carry_minutes-CountsMinutes : (r : Rtc) (v : ℕ) → IsClock r → CountsMinutes r (carry_minutes r v) v
unfolding carry_minutes
carry_minutes-CountsMinutes r v ok =
    let r' = record r { minutes = v % 60 } in
    ground (arith, carry_hours-CountsHours r' (v / 60 + r.hours) (ground arith))

-- What a stage leaves, from the seconds up.
record CountsSeconds (r r' : Rtc) (v : ℕ) : Type 0 where
  valid : IsClock r'
  total : total_seconds r' ≡ (total_minutes r * 60 + v) % (512 * 86400)
  carry : bit r'.day_high 7 ≡ carry_bit r (total_minutes r * 60 + v) (512 * 86400)
  halt : bit r'.day_high 6 ≡ bit r.day_high 6
  last_same : r'.last_time ≡ r.last_time

carry_seconds-CountsSeconds : (r : Rtc) (v : ℕ) → IsClock r → CountsSeconds r (carry_seconds r v) v
unfolding carry_seconds
carry_seconds-CountsSeconds r v ok =
    let r' = record r { seconds = v % 60 } in
    ground (arith, carry_minutes-CountsMinutes r' (v / 60 + r.minutes) (ground arith))

-- A running clock, with its registers in their ranges and less than 2 ^ 32 - 59 seconds after the last
-- reading, advances by the seconds since then, over 512 days; passing the last
-- day sets the carry bit, which otherwise stays, as the halt bit does. The registers stay in their
-- ranges, and the reading becomes the last one.
pub advance_rtc_running :
    (r : Rtc) (now : ℕ)
    → IsClock r
    → bit r.day_high 6 ≡ 0
    → r.last_time ≤ now
    → now - r.last_time + 60 ≤ 2 ^ 32
    → let r' = advance_rtc r now in
      let count = total_seconds r + (now - r.last_time) in
      IsClock r'
      × (total_seconds r' ≡ count % (512 * 86400))
      × (bit r'.day_high 7 ≡ (if leb (512 * 86400) count then 1 else bit r.day_high 7))
      × (bit r'.day_high 6 ≡ 0)
      × (r'.last_time ≡ now)
unfolding advance_rtc
advance_rtc_running r now ok running later near =
    let r' = record r { last_time = now } in
    ground (
      arith,
      carry_seconds-CountsSeconds r' (u32 (r.seconds + elapsed r.last_time now)) (ground arith),
    )
