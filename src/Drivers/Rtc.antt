-- ===== src/Drivers/Rtc.antt =====
-- drivers/rtc.c: the real-time clock. The CMOS is a parameter: `cmos k reg` is the byte that the `k`th
-- read gives for register `reg`, and each function takes the number of reads so far and returns it
-- with its result. Writes that select a register or enable interrupts are left out.
pub mod Digits
pub mod Format
mod Tests
use ares_os.Prelude.{
  ℕ, zero, suc, ◌+◌, ◌-◌, ◌*◌, ◌/◌, ◌%◌, Bool, List, [], ◌∷◌, set, ◌==◌, leb, ltb, if◌then◌else◌,
  bit_and,
}

abbrev pub Cmos : Type 0
Cmos = ℕ → ℕ → ℕ

pub bcd_to_bin : ℕ → ℕ
bcd_to_bin bcd = (bit_and (bcd / 16) 0x0F * 10 + bit_and bcd 0x0F) % 256

module _ (cmos : Cmos) where
  pub rtc_read_second : ℕ → ℕ × ℕ
  rtc_read_second k = (bcd_to_bin (cmos k 0x00), k + 1)

  pub rtc_read_minute : ℕ → ℕ × ℕ
  rtc_read_minute k = (bcd_to_bin (cmos k 0x02), k + 1)

  pub rtc_read_hour : ℕ → ℕ × ℕ
  rtc_read_hour k =
      let val = cmos k 0x04 in
      let status_b = cmos (k + 1) 0x0B in
      let hour = bcd_to_bin val in
      (
        if bit_and status_b 0x02 == 0
            then if bit_and val 0x80 == 0 then hour else (bit_and hour 0x7F + 12) % 256
            else hour,
        k + 2,
      )

  pub rtc_read_day : ℕ → ℕ × ℕ
  rtc_read_day k = (bcd_to_bin (cmos k 0x07), k + 1)

  pub rtc_read_month : ℕ → ℕ × ℕ
  rtc_read_month k = (bcd_to_bin (cmos k 0x08), k + 1)

  pub rtc_read_year : ℕ → ℕ × ℕ
  rtc_read_year k = (bcd_to_bin (cmos k 0x09), k + 1)

-- `"20  /  /     : : "`
abbrev pub template : List ℕ
template = 50 ∷ 48 ∷ 32 ∷ 32 ∷ 47 ∷ 32 ∷ 32 ∷ 47 ∷ 32 ∷ 32 ∷ 32 ∷ 32 ∷ 32 ∷ 58 ∷ 32 ∷ 58 ∷ 32 ∷ []

-- `for (p = src; *p && remain > 1; p++)`, with `buf[i]` for `*dst`
pub copy_template : List ℕ → ℕ → ℕ → List ℕ → List ℕ
copy_template [] i remain buf = buf
copy_template (c ∷ p) i remain buf =
    let rest = copy_template p (i + 1) (remain - 1) (set buf i c) in
    if ltb 1 remain then rest else buf

-- the characters of a number below 100
abbrev pub tens : ℕ → ℕ
tens v = (48 + v / 10) % 256

abbrev pub units : ℕ → ℕ
units v = (48 + v % 10) % 256

-- `buf[i] = ...; buf[i + 1] = ...`, for the characters of the list
pub write_all : ℕ → List ℕ → List ℕ → List ℕ
write_all i [] buf = buf
write_all i (c ∷ cs) buf = write_all (i + 1) cs (set buf i c)

abbrev pub stamp : (hh mm ss dd mo yy : ℕ) → List ℕ
stamp hh mm ss dd mo yy =
    50
    ∷ 48
    ∷ tens yy
    ∷ units yy
    ∷ 45
    ∷ tens mo
    ∷ units mo
    ∷ 45
    ∷ tens dd
    ∷ units dd
    ∷ 32
    ∷ tens hh
    ∷ units hh
    ∷ 58
    ∷ tens mm
    ∷ units mm
    ∷ 58
    ∷ tens ss
    ∷ units ss
    ∷ 0
    ∷ []

-- `buf` has `max_len` entries.
pub rtc_format_time : Cmos → ℕ → (buf : List ℕ) (max_len : ℕ) → List ℕ
rtc_format_time cmos k buf max_len =
    let (hh, k) = rtc_read_hour cmos k in
    let (mm, k) = rtc_read_minute cmos k in
    let (ss, k) = rtc_read_second cmos k in
    let (dd, k) = rtc_read_day cmos k in
    let (mo, k) = rtc_read_month cmos k in
    let (yy, k) = rtc_read_year cmos k in
    let buf = copy_template template 0 (if ltb 0 max_len then max_len else 1) buf in
    if leb 24 max_len
    then write_all 0 (stamp hh mm ss dd mo yy) buf
    else if ltb 0 max_len
    then set buf 0 0
    else buf
