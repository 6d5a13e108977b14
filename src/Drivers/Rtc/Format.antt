-- ===== src/Drivers/Rtc/Format.antt =====
-- The text that `rtc_format_time` writes.
use ares_os.Prelude.{
  ℕ, zero, suc, ◌+◌, ◌-◌, ◌/◌, ◌%◌, ◌≤◌, ◌<◌, ◌≡◌, refl, ◌∙◌, sym, ap, true, List, [], ◌∷◌, ◌++◌,
  append-nil, append_assoc, arith, leb, ltb, if◌then◌else◌, length, length-set, set, take,
}
use ares_os.Drivers.Rtc.{
  Cmos, rtc_read_hour, rtc_read_minute, rtc_read_second, rtc_read_day, rtc_read_month,
  rtc_read_year, template, copy_template, write_all, tens, units, stamp, rtc_format_time,
}
use ares_os.Drivers.Rtc.Digits.{Moment, IsShown, bcd_to_bin-Reads, rtc_read_hour_24}

take-set :
    (i : ℕ) (buf : List ℕ) (c : ℕ)
    → i < length buf
    → take (suc i) (set buf i c) ≡ take i buf ++ (c ∷ [])
take-set i [] c h = elim h [ ]
take-set zero (b ∷ buf) c h = refl
take-set (suc i) (b ∷ buf) c h = ap (λ t. b ∷ t) (take-set i buf c (omega arith))

take-write_all :
    (cs : List ℕ) (i : ℕ) (buf : List ℕ)
    → i + length cs ≤ length buf
    → take (i + length cs) (write_all i cs buf) ≡ take i buf ++ cs
unfolding write_all
take-write_all [] i buf h = ap (λ n. take n buf) (omega arith) ∙ sym (append-nil (take i buf))
take-write_all (c ∷ cs) i buf h =
    ap (λ n. take n (write_all (i + 1) cs (set buf i c)))
      (let e : i + suc (length cs) ≡ i + 1 + length cs = omega arith in e)
    ∙ take-write_all cs (i + 1) (set buf i c) (omega (arith, length-set buf i c))
    ∙ ap (λ t. t ++ cs)
        (ap (λ n. take n (set buf i c)) (let e : i + 1 ≡ suc i = omega arith in e)
          ∙ take-set i buf c (omega arith))
    ∙ append_assoc (take i buf) (c ∷ []) cs

length-copy_template :
    (p : List ℕ) (i remain : ℕ) (buf : List ℕ) → length (copy_template p i remain buf) ≡ length buf
unfolding copy_template
length-copy_template [] i remain buf = refl
length-copy_template (c ∷ p) i remain buf =
    let rest = length-copy_template p (i + 1) (remain - 1) (set buf i c) in
    ground (arith, length-set buf i c)

-- The digits of a number below 100, and the text `20YY-MM-DD HH:MM:SS`, which ends in a NUL.
abbrev pub two_digits : ℕ → List ℕ
two_digits n = (b'0' + n / 10) ∷ (b'0' + n % 10) ∷ []

abbrev pub date_text : Moment → List ℕ
date_text m =
    two_digits 20
    ++ (two_digits m.year ++ (b'-' ∷ (two_digits m.month ++ (b'-' ∷ two_digits m.day))))

abbrev pub time_text : Moment → List ℕ
time_text m = two_digits m.hour ++ (b':' ∷ (two_digits m.minute ++ (b':' ∷ two_digits m.second)))

abbrev pub text_of : Moment → List ℕ
text_of m = date_text m ++ (b' ' ∷ (time_text m ++ (0 ∷ [])))

tens-digit : (n : ℕ) → n < 100 → tens n ≡ b'0' + n / 10
tens-digit n h = omega arith

units-digit : (n : ℕ) → units n ≡ b'0' + n % 10
units-digit n = omega arith

write_stamp :
    (buf cs : List ℕ) → length cs ≡ 20 → 20 ≤ length buf → take 20 (write_all 0 cs buf) ≡ cs
write_stamp buf cs e h =
    ap (λ n. take n (write_all 0 cs buf)) (let e' : 20 ≡ 0 + length cs = omega (arith, e) in e')
    ∙ take-write_all cs 0 buf (omega arith)

stamp_congr :
    {a b c d e f a' b' c' d' e' f' : ℕ}
    → a ≡ a'
    → b ≡ b'
    → c ≡ c'
    → d ≡ d'
    → e ≡ e'
    → f ≡ f'
    → stamp a b c d e f ≡ stamp a' b' c' d' e' f'
stamp_congr p q r s t u i = stamp (p i) (q i) (r i) (s i) (t i) (u i)

stamp-text_of :
    (m : Moment)
    → m.hour < 100
    → m.minute < 100
    → m.second < 100
    → m.day < 100
    → m.month < 100
    → m.year < 100
    → stamp m.hour m.minute m.second m.day m.month m.year ≡ text_of m
stamp-text_of m a b c d e f =
    rw
      (
        tens-digit m.year f,
        units-digit m.year,
        tens-digit m.month e,
        units-digit m.month,
        tens-digit m.day d,
        units-digit m.day,
        tens-digit m.hour a,
        units-digit m.hour,
        tens-digit m.minute b,
        units-digit m.minute,
        tens-digit m.second c,
        units-digit m.second,
      )
      refl

-- With room for 24 characters `rtc_format_time` writes the moment that the clock shows, in the 24-hour
-- mode, as the text `20YY-MM-DD HH:MM:SS` with a final NUL: the year, the month, the day, the hour, the
-- minute and the second in two decimal digits each.
pub rtc_format_time-text_of :
    (cmos : Cmos) (k : ℕ) (buf : List ℕ) (m : Moment)
    → 24 ≤ length buf
    → IsShown cmos k m
    → take 20 (rtc_format_time cmos k buf (length buf)) ≡ text_of m
unfolding rtc_format_time rtc_read_minute rtc_read_second rtc_read_day rtc_read_month rtc_read_year
    rtc_read_hour
rtc_format_time-text_of cmos k buf m room v =
    let large : leb 24 (length buf) ≡ true = ground arith in
    let hour =
      rtc_read_hour_24 cmos k (ground (arith, v.mode))
      ∙ bcd_to_bin-Reads (cmos k 0x04) m.hour v.hour in
    let minute = bcd_to_bin-Reads (cmos (k + 2) 0x02) m.minute v.minute in
    let second = bcd_to_bin-Reads (cmos (k + 2 + 1) 0x00) m.second v.second in
    let day = bcd_to_bin-Reads (cmos (k + 2 + 1 + 1) 0x07) m.day v.day in
    let month = bcd_to_bin-Reads (cmos (k + 2 + 1 + 1 + 1) 0x08) m.month v.month in
    let year = bcd_to_bin-Reads (cmos (k + 2 + 1 + 1 + 1 + 1) 0x09) m.year v.year in
    rw large (
      write_stamp (copy_template template 0 (if ltb 0 (length buf) then length buf else 1) buf)
        (stamp (rtc_read_hour cmos k).0 _ _ _ _ _) refl
        (omega (
          arith,
          length-copy_template template 0 (if ltb 0 (length buf) then length buf else 1) buf,
        ))
      ∙ stamp_congr hour minute second day month year
      ∙ stamp-text_of m v.hour.0 v.minute.0 v.second.0 v.day.0 v.month.0 v.year.0)
