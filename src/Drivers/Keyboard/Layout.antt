-- ===== src/Drivers/Keyboard/Layout.antt =====
-- The keys of a US keyboard row by row, apart from the tables of drivers/keyboard.c, and that the tables
-- and the choice between them agree with it.
use ares_os.Prelude.{
  ℕ, ◌+◌, ◌-◌, ◌<◌, ◌≡◌, refl, ◌∙◌, Bool, true, false, not, ◌&&◌, ◌||◌, List, [], ◌∷◌, arith, ◌==◌,
  leb, ltb, get_or, if◌then◌else◌, sweep, sweep-holds, Bool-cases, inl, inr,
}
use ares_os.Prelude.Word.{bit}
use ares_os.Drivers.Keyboard.{Keyboard, modifier_for_scancode, is_shifted, key_of}

-- One of the two shift keys is held: bits 1 and 5 of the modifiers.
abbrev pub shift_held : ℕ → Bool
shift_held modifiers = bit modifiers 1 || bit modifiers 5

-- "1234567890-=", "qwertyuiop[]", "asdfghjkl;'`" and "\zxcvbnm,./", and with shift
-- "!@#$%^&*()_+", "QWERTYUIOP{}", "ASDFGHJKL:"" and a tilde, and "|ZXCVBNM<>?"
abbrev top_row : Bool → List ℕ
top_row false = 49 ∷ 50 ∷ 51 ∷ 52 ∷ 53 ∷ 54 ∷ 55 ∷ 56 ∷ 57 ∷ 48 ∷ 45 ∷ 61 ∷ []
top_row true = 33 ∷ 64 ∷ 35 ∷ 36 ∷ 37 ∷ 94 ∷ 38 ∷ 42 ∷ 40 ∷ 41 ∷ 95 ∷ 43 ∷ []

abbrev upper_row : Bool → List ℕ
upper_row false = 113 ∷ 119 ∷ 101 ∷ 114 ∷ 116 ∷ 121 ∷ 117 ∷ 105 ∷ 111 ∷ 112 ∷ 91 ∷ 93 ∷ []
upper_row true = 81 ∷ 87 ∷ 69 ∷ 82 ∷ 84 ∷ 89 ∷ 85 ∷ 73 ∷ 79 ∷ 80 ∷ 123 ∷ 125 ∷ []

abbrev home_row : Bool → List ℕ
home_row false = 97 ∷ 115 ∷ 100 ∷ 102 ∷ 103 ∷ 104 ∷ 106 ∷ 107 ∷ 108 ∷ 59 ∷ 39 ∷ 96 ∷ []
home_row true = 65 ∷ 83 ∷ 68 ∷ 70 ∷ 71 ∷ 72 ∷ 74 ∷ 75 ∷ 76 ∷ 58 ∷ 34 ∷ 126 ∷ []

abbrev lower_row : Bool → List ℕ
lower_row false = 92 ∷ 122 ∷ 120 ∷ 99 ∷ 118 ∷ 98 ∷ 110 ∷ 109 ∷ 44 ∷ 46 ∷ 47 ∷ []
lower_row true = 124 ∷ 90 ∷ 88 ∷ 67 ∷ 86 ∷ 66 ∷ 78 ∷ 77 ∷ 60 ∷ 62 ∷ 63 ∷ []

-- "789-456+1230."
abbrev keypad : List ℕ
keypad = 55 ∷ 56 ∷ 57 ∷ 45 ∷ 52 ∷ 53 ∷ 54 ∷ 43 ∷ 49 ∷ 50 ∷ 51 ∷ 48 ∷ 46 ∷ []

-- escape, backspace, tab, enter, `*`, space, caps lock, F1 to F10, num lock, scroll lock, F11 and F12
other_key : ℕ → ℕ
other_key c =
    if c == 0x01
    then 27
    else if c == 0x0E
    then 8
    else if c == 0x0F
    then 9
    else if c == 0x1C
    then 13
    else if c == 0x37
    then b'*'
    else if c == 0x39
    then b' '
    else if c == 0x3A
    then 150
    else if leb 0x3B c && ltb c 0x45
    then 138 + (c - 0x3B)
    else if c == 0x45
    then 151
    else if c == 0x46
    then 152
    else if c == 0x57
    then 148
    else if c == 0x58
    then 149
    else 0

-- The key of scancode `c`: none where it is 0.
unfoldable pub us_key : Bool → ℕ → ℕ
unfolding other_key
us_key shift c =
    if leb 0x02 c && ltb c 0x0E
    then get_or (top_row shift) (c - 0x02) 0
    else if leb 0x10 c && ltb c 0x1C
    then get_or (upper_row shift) (c - 0x10) 0
    else if leb 0x1E c && ltb c 0x2A
    then get_or (home_row shift) (c - 0x1E) 0
    else if leb 0x2B c && ltb c 0x36
    then get_or (lower_row shift) (c - 0x2B) 0
    else if leb 0x47 c && ltb c 0x54
    then get_or keypad (c - 0x47) 0
    else other_key c

-- A keyboard with those modifiers only.
abbrev held : ℕ → Keyboard
held m = record { modifiers = m; kbd_buffer = []; buf_head = 0; buf_tail = 0; extended = false }

-- The tables, at the scancodes that are no modifiers, with no shift key and with the left one.
agrees : ℕ → Bool → ℕ → Bool
agrees m shift c = ltb 0 (modifier_for_scancode c false) || (key_of c (held m) == us_key shift c)

plain_agrees : sweep 0x60 (agrees 0 false) ≡ true
unfolding sweep agrees us_key key_of modifier_for_scancode other_key
plain_agrees = refl

shift_agrees : sweep 0x60 (agrees 2 true) ≡ true
unfolding sweep agrees us_key key_of modifier_for_scancode other_key
shift_agrees = refl

is_tested : ℕ → Bool
is_tested m = if shift_held m then is_shifted (held m) else not (is_shifted (held m))

all_tested : sweep 256 is_tested ≡ true
unfolding sweep is_tested bit
all_tested = refl

module _ (s : Keyboard) (byte : s.modifiers < 256) where
  is_shifted-shift_held : is_shifted s ≡ shift_held s.modifiers
  unfolding is_tested
  is_shifted-shift_held =
      let t = sweep-holds 256 is_tested all_tested s.modifiers byte in
      elim (Bool-cases (shift_held s.modifiers)) [ inl y ↦ ground arith | inr n ↦ ground arith ]

  -- The table that the driver chooses, and the key that it has there.
  pub key_of-us_key :
      (c : ℕ)
      → c < 0x60
      → modifier_for_scancode c false ≡ 0
      → key_of c s ≡ us_key (shift_held s.modifiers) c
  unfolding key_of agrees
  key_of-us_key c h m = elim (Bool-cases (shift_held s.modifiers)) [
    | inl y ↦
        let chosen : is_shifted s ≡ true = is_shifted-shift_held ∙ y in
        let t = sweep-holds 0x60 (agrees 2 true) shift_agrees c h in rw (chosen, y) (ground arith)
    | inr n ↦
        let chosen : is_shifted s ≡ false = is_shifted-shift_held ∙ n in
        let t = sweep-holds 0x60 (agrees 0 false) plain_agrees c h in rw (chosen, n) (ground arith)
  ]
