-- ===== src/Drivers/Keyboard/Keymap.antt =====
-- drivers/keyboard.c, drivers/keyboard.h: the three tables. Letters stand as their codes. The C arrays
-- of 96 entries end in zeros, which are left out: a read of them finds `KEY_NONE` all the same.
use ares_os.Prelude.{ℕ, List, [], ◌∷◌}

abbrev pub key_none : ℕ
key_none = 0

abbrev pub key_lctrl : ℕ
key_lctrl = 0x99

abbrev pub key_lshift : ℕ
key_lshift = 0x9A

abbrev pub key_lalt : ℕ
key_lalt = 0x9B

abbrev pub key_rshift : ℕ
key_rshift = 0x9D

abbrev pub max_scan : ℕ
max_scan = 0x60

abbrev pub keymap_us : List ℕ
keymap_us =
    0 ∷ 27 ∷ 49 ∷ 50 ∷ 51 ∷ 52 ∷ 53 ∷ 54 ∷ 55 ∷ 56 ∷ 57 ∷ 48 ∷ 45 ∷ 61 ∷ 8 ∷ 9 ∷ 113 ∷ 119 ∷ 101
    ∷ 114 ∷ 116 ∷ 121 ∷ 117 ∷ 105 ∷ 111 ∷ 112 ∷ 91 ∷ 93 ∷ 13 ∷ 153 ∷ 97 ∷ 115 ∷ 100 ∷ 102 ∷ 103
    ∷ 104 ∷ 106 ∷ 107 ∷ 108 ∷ 59 ∷ 39 ∷ 96 ∷ 154 ∷ 92 ∷ 122 ∷ 120 ∷ 99 ∷ 118 ∷ 98 ∷ 110 ∷ 109 ∷ 44
    ∷ 46 ∷ 47 ∷ 157 ∷ 42 ∷ 155 ∷ 32 ∷ 150 ∷ 138 ∷ 139 ∷ 140 ∷ 141 ∷ 142 ∷ 143 ∷ 144 ∷ 145 ∷ 146
    ∷ 147 ∷ 151 ∷ 152 ∷ 55 ∷ 56 ∷ 57 ∷ 45 ∷ 52 ∷ 53 ∷ 54 ∷ 43 ∷ 49 ∷ 50 ∷ 51 ∷ 48 ∷ 46 ∷ 0 ∷ 0 ∷ 0
    ∷ 148 ∷ 149 ∷ []

abbrev pub keymap_us_shift : List ℕ
keymap_us_shift =
    0 ∷ 27 ∷ 33 ∷ 64 ∷ 35 ∷ 36 ∷ 37 ∷ 94 ∷ 38 ∷ 42 ∷ 40 ∷ 41 ∷ 95 ∷ 43 ∷ 8 ∷ 9 ∷ 81 ∷ 87 ∷ 69 ∷ 82
    ∷ 84 ∷ 89 ∷ 85 ∷ 73 ∷ 79 ∷ 80 ∷ 123 ∷ 125 ∷ 13 ∷ 153 ∷ 65 ∷ 83 ∷ 68 ∷ 70 ∷ 71 ∷ 72 ∷ 74 ∷ 75
    ∷ 76 ∷ 58 ∷ 34 ∷ 126 ∷ 154 ∷ 124 ∷ 90 ∷ 88 ∷ 67 ∷ 86 ∷ 66 ∷ 78 ∷ 77 ∷ 60 ∷ 62 ∷ 63 ∷ 157 ∷ 42
    ∷ 155 ∷ 32 ∷ 150 ∷ 138 ∷ 139 ∷ 140 ∷ 141 ∷ 142 ∷ 143 ∷ 144 ∷ 145 ∷ 146 ∷ 147 ∷ 151 ∷ 152 ∷ 55
    ∷ 56 ∷ 57 ∷ 45 ∷ 52 ∷ 53 ∷ 54 ∷ 43 ∷ 49 ∷ 50 ∷ 51 ∷ 48 ∷ 46 ∷ 0 ∷ 0 ∷ 0 ∷ 148 ∷ 149 ∷ []

abbrev pub keymap_ext : List ℕ
keymap_ext =
    13 ∷ 156 ∷ 47 ∷ 161 ∷ 158 ∷ 132 ∷ 128 ∷ 134 ∷ 130 ∷ 131 ∷ 133 ∷ 129 ∷ 135 ∷ 137 ∷ 136 ∷ 159
    ∷ 160 ∷ []
