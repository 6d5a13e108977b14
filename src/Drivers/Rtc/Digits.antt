-- ===== src/Drivers/Rtc/Digits.antt =====
-- What the clock's readings mean.
use ares_os.Prelude.{
  ℕ, ◌+◌, ◌*◌, ◌/◌, ◌%◌, ◌<◌, ◌≡◌, ◌≢◌, refl, ◌∙◌, ap, Bool, true, false, not, arith, ◌==◌, bit_and,
  sweep, sweep-holds,
}
use ares_os.Drivers.Rtc.{Cmos, bcd_to_bin, rtc_read_hour}

-- The byte whose two decimal digits are `t` and `u`.
abbrev pub bcd : ℕ → ℕ → ℕ
bcd t u = 16 * t + u

is_converted : ℕ → Bool
is_converted v = bcd_to_bin v == (v / 16 * 10 + v % 16) % 256

all_converted : sweep 256 is_converted ≡ true
unfolding sweep is_converted bcd_to_bin
all_converted = refl

bcd_to_bin_byte : (v : ℕ) → v < 256 → bcd_to_bin v ≡ (v / 16 * 10 + v % 16) % 256
unfolding is_converted
bcd_to_bin_byte v h = let t = sweep-holds 256 is_converted all_converted v h in ground arith

-- `bcd_to_bin` reads a byte of two decimal digits as their number.
pub bcd_to_bin-bcd : (t u : ℕ) → t < 10 → u < 10 → bcd_to_bin (bcd t u) ≡ 10 * t + u
bcd_to_bin-bcd t u h k = omega (arith, bcd_to_bin_byte (bcd t u) (omega arith))

is_low : ℕ → Bool
is_low v = bit_and v 0x7F == v % 128

all_low : sweep 256 is_low ≡ true
unfolding sweep is_low
all_low = refl

low_bits : (v : ℕ) → v < 256 → bit_and v 0x7F ≡ v % 128
unfolding is_low
low_bits v h = let t = sweep-holds 256 is_low all_low v h in ground arith

has_high : ℕ → Bool
has_high v = not (bit_and (128 + v) 0x80 == 0)

all_high : sweep 128 has_high ≡ true
unfolding sweep has_high
all_high = refl

high_bit : (v : ℕ) → v < 128 → (bit_and (128 + v) 0x80 == 0) ≡ false
unfolding has_high
high_bit v h = let t = sweep-holds 128 has_high all_high v h in ground arith

pm_hour :
    (cmos : Cmos) (k : ℕ)
    → (bit_and (cmos (k + 1) 0x0B) 0x02 == 0) ≡ true
    → (bit_and (cmos k 0x04) 0x80 == 0) ≡ false
    → (rtc_read_hour cmos k).0 ≡ (bit_and (bcd_to_bin (cmos k 0x04)) 0x7F + 12) % 256
unfolding rtc_read_hour
pm_hour cmos k m p = rw (m, p)

-- In the 12-hour mode with the PM bit set, an hour with the digits `t` and `u` is not read as that
-- hour of the afternoon: the bit is taken for a part of the tens, and the result is 92 more.
pub rtc_read_hour_pm :
    (cmos : Cmos) (k t u : ℕ)
    → t < 2
    → u < 10
    → cmos k 0x04 ≡ 128 + bcd t u
    → bit_and (cmos (k + 1) 0x0B) 0x02 ≡ 0
    → (rtc_read_hour cmos k).0 ≡ 92 + (10 * t + u)
rtc_read_hour_pm cmos k t u a b e m =
    let high : (bit_and (cmos k 0x04) 0x80 == 0) ≡ false =
      ap (λ v. bit_and v 0x80 == 0) e ∙ high_bit (bcd t u) (omega arith) in
    let number : bcd_to_bin (cmos k 0x04) ≡ 80 + (10 * t + u) =
      ap bcd_to_bin e ∙ bcd_to_bin_byte (128 + bcd t u) (omega arith) ∙ omega arith in
    let low : bit_and (bcd_to_bin (cmos k 0x04)) 0x7F ≡ 80 + (10 * t + u) =
      ap (λ v. bit_and v 0x7F) number ∙ low_bits (80 + (10 * t + u)) (omega arith) ∙ omega arith in
    pm_hour cmos k (ground arith) high ∙ omega (arith, low)

-- A time of the day and a date; the year without its century.
pub record Moment : Type 0 where
  pub hour : ℕ
  pub minute : ℕ
  pub second : ℕ
  pub day : ℕ
  pub month : ℕ
  pub year : ℕ

-- The byte has the two digits of the number.
abbrev pub Reads : ℕ → ℕ → Type 0
Reads byte number = (number < 100) × (byte ≡ bcd (number / 10) (number % 10))

-- The reads from the `k`th on show that moment, in the 24-hour mode.
pub record IsShown (cmos : Cmos) (k : ℕ) (m : Moment) : Type 0 where
  pub hour : Reads (cmos k 0x04) m.hour
  pub mode : bit_and (cmos (k + 1) 0x0B) 0x02 ≢ 0
  pub minute : Reads (cmos (k + 2) 0x02) m.minute
  pub second : Reads (cmos (k + 2 + 1) 0x00) m.second
  pub day : Reads (cmos (k + 2 + 1 + 1) 0x07) m.day
  pub month : Reads (cmos (k + 2 + 1 + 1 + 1) 0x08) m.month
  pub year : Reads (cmos (k + 2 + 1 + 1 + 1 + 1) 0x09) m.year

pub bcd_to_bin-Reads : (byte number : ℕ) → Reads byte number → bcd_to_bin byte ≡ number
bcd_to_bin-Reads byte number (l, e) =
    ap bcd_to_bin e
    ∙ bcd_to_bin-bcd (number / 10) (number % 10) (omega arith) (omega arith)
    ∙ omega arith

pub rtc_read_hour_24 :
    (cmos : Cmos) (k : ℕ)
    → (bit_and (cmos (k + 1) 0x0B) 0x02 == 0) ≡ false
    → (rtc_read_hour cmos k).0 ≡ bcd_to_bin (cmos k 0x04)
unfolding rtc_read_hour
rtc_read_hour_24 cmos k m = rw m
