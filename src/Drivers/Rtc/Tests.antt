-- ===== src/Drivers/Rtc/Tests.antt =====
-- The theorems on the clock at concrete readings.
use ares_os.Prelude.{◌≡◌, refl, [], ◌∷◌, arith, ◌==◌, if◌then◌else◌, replicate, take}
use ares_os.Drivers.Rtc.{Cmos, bcd_to_bin, rtc_read_hour, rtc_format_time}
use ares_os.Drivers.Rtc.Digits.{bcd_to_bin-bcd, rtc_read_hour_pm, Moment, IsShown}
use ares_os.Drivers.Rtc.Format.{rtc_format_time-text_of}

bcd_to_bin-bcd_example : bcd_to_bin 0x59 ≡ 59
bcd_to_bin-bcd_example = bcd_to_bin-bcd 5 9 (omega arith) (omega arith)

-- 11 in the evening, in the 12-hour mode
abbrev evening : Cmos
evening k reg = if reg == 0x0B then 0 else 0x91

rtc_read_hour_pm_example : (rtc_read_hour evening 0).0 ≡ 103
rtc_read_hour_pm_example = rtc_read_hour_pm evening 0 1 1 (omega arith) (omega arith) refl refl

-- 2024-11-25 20:31:59, in the 24-hour mode
abbrev clock : Cmos
clock k reg =
    if reg == 0
    then 0x59
    else if reg == 2
    then 0x31
    else if reg == 4
    then 0x20
    else if reg == 7
    then 0x25
    else if reg == 8
    then 0x11
    else if reg == 9
    then 0x24
    else 2

abbrev moment : Moment
moment = record { hour = 20; minute = 31; second = 59; day = 25; month = 11; year = 24 }

clock-IsShown : IsShown clock 0 moment
clock-IsShown = record {
  hour = (omega arith, refl);
  mode = omega arith;
  minute = (omega arith, refl);
  second = (omega arith, refl);
  day = (omega arith, refl);
  month = (omega arith, refl);
  year = (omega arith, refl);
}

rtc_format_time-text_of_example :
    take 20 (rtc_format_time clock 0 (replicate 24 0) 24)
    ≡ 50 ∷ 48 ∷ 50 ∷ 52 ∷ 45 ∷ 49 ∷ 49 ∷ 45 ∷ 50 ∷ 53 ∷ 32 ∷ 50 ∷ 48 ∷ 58 ∷ 51 ∷ 49 ∷ 58 ∷ 53 ∷ 57
      ∷ 0 ∷ []
rtc_format_time-text_of_example =
    rtc_format_time-text_of clock 0 (replicate 24 0) moment (omega arith) clock-IsShown
