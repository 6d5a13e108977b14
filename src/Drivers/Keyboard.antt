-- ===== src/Drivers/Keyboard.antt =====
-- drivers/keyboard.c: the keyboard driver. The static variables are the fields of `Keyboard`; the byte
-- that the handler reads from port 0x60 is its argument. A read outside of `keymap_ext` is `none`.
pub mod Keymap
pub mod Ring
pub mod Layout
pub mod Keys
pub mod Modifiers
mod Tests
use ares_os.Prelude.{
  ℕ, zero, suc, ◌+◌, ◌-◌, ◌%◌, Bool, true, false, not, ◌||◌, Option, none, some, List, get_elem?,
  get_or, set, ◌==◌, ltb, if◌then◌else◌, bit_and, bit_or,
}
use Keymap.{
  key_none, key_lctrl, key_lshift, key_lalt, key_rshift, max_scan, keymap_us, keymap_us_shift,
  keymap_ext,
}

abbrev pub kbd_buf_size : ℕ
kbd_buf_size = 256

pub record Keyboard : Type 0 where
  pub modifiers : ℕ
  pub kbd_buffer : List ℕ
  pub buf_head : ℕ
  pub buf_tail : ℕ
  pub extended : Bool

-- `for (i = 0; i < EXT_SCAN_COUNT; i += 2)`, with the rounds left
pub lookup_loop : ℕ → ℕ → ℕ → Option ℕ
lookup_loop zero i scancode = some key_none
lookup_loop (suc n) i scancode =
    let rest = lookup_loop n (i + 2) scancode in
    elim (get_elem? keymap_ext i) [
      | none ↦ none
      | some key ↦ if key == scancode then get_elem? keymap_ext (i + 1) else rest
    ]

-- 17 entries in steps of two: 9 rounds
pub lookup_extended : ℕ → Option ℕ
unfolding lookup_loop
lookup_extended scancode = lookup_loop 9 0 scancode

pub modifier_for_scancode : ℕ → Bool → ℕ
modifier_for_scancode scancode true =
    if scancode == 0x1D
    then 0x10
    else if scancode == 0x38
    then 0x40
    else if scancode == 0x5B
    then 0x08
    else if scancode == 0x5C
    then 0x80
    else 0
modifier_for_scancode scancode false =
    if scancode == 0x1D
    then 0x01
    else if scancode == 0x2A
    then 0x02
    else if scancode == 0x36
    then 0x20
    else if scancode == 0x38
    then 0x04
    else 0

pub buffer_put : ℕ → Keyboard → Keyboard
buffer_put value s =
    let next = (s.buf_head + 1) % kbd_buf_size in
    if next == s.buf_tail
    then s
    else record s { kbd_buffer = set s.kbd_buffer s.buf_head value; buf_head = next }

-- `modifiers &= ~mod` and `modifiers |= mod` on bytes
abbrev pub drop_modifier : ℕ → Keyboard → Keyboard
drop_modifier held s = record s { modifiers = bit_and s.modifiers (255 - held) }

abbrev pub hold_modifier : ℕ → Keyboard → Keyboard
hold_modifier held s = record s { modifiers = bit_or s.modifiers held }

-- `if (key != KEY_NONE) buffer_put(key)`
abbrev pub put_key : ℕ → Keyboard → Keyboard
put_key key s = if key == key_none then s else buffer_put key s

abbrev pub scan7 : ℕ → ℕ
scan7 scancode = bit_and scancode 0x7F

abbrev pub is_break : ℕ → Bool
is_break scancode = not (bit_and scancode 0x80 == 0)

-- the branch `if (extended)`, before `extended = 0`
pub extended_key : ℕ → Keyboard → Option Keyboard
extended_key scancode s =
    let held = modifier_for_scancode (scan7 scancode) true in
    if is_break scancode
    then some (drop_modifier held s)
    else if not (held == 0)
    then some (hold_modifier held s)
    else elim (lookup_extended scancode) [ none ↦ none | some key ↦ some (put_key key s) ]

-- the key press of a modifier
pub modifier_key : ℕ → Keyboard → Keyboard
modifier_key scancode s =
    if scancode == 0x1D
    then buffer_put key_lctrl s
    else if scancode == 0x2A
    then buffer_put key_lshift s
    else if scancode == 0x36
    then buffer_put key_rshift s
    else if scancode == 0x38
    then buffer_put key_lalt s
    else s

abbrev pub is_shifted : Keyboard → Bool
is_shifted s = not (bit_and s.modifiers 0x22 == 0)

-- the key of a scancode below `MAX_SCAN`
pub key_of : ℕ → Keyboard → ℕ
key_of scancode s =
    if is_shifted s
    then get_or keymap_us_shift scancode key_none
    else get_or keymap_us scancode key_none

-- the end of the handler, for a byte without prefix
pub standard_key : ℕ → Keyboard → Keyboard
standard_key scancode s =
    let held = modifier_for_scancode scancode false in
    if is_break scancode
    then drop_modifier (modifier_for_scancode (scan7 scancode) false) s
    else if not (held == 0)
    then modifier_key scancode (hold_modifier held s)
    else if ltb scancode max_scan
    then put_key (key_of scancode s) s
    else s

pub keyboard_irq_handler : ℕ → Keyboard → Option Keyboard
keyboard_irq_handler scancode s =
    if scancode == 0xE0
    then some (record s { extended = true })
    else if s.extended
    then elim (extended_key scancode s) [
      | none ↦ none
      | some s' ↦ some (record s' { extended = false })
    ]
    else some (standard_key scancode s)

-- The reads and the write of the ports are left out.
pub keyboard_init : Keyboard → Keyboard
keyboard_init s = record s { modifiers = 0; extended = false; buf_head = 0; buf_tail = 0 }

pub keyboard_getchar : Keyboard → ℕ × Keyboard
keyboard_getchar s =
    if s.buf_head == s.buf_tail
    then (0, s)
    else (get_or s.kbd_buffer s.buf_tail 0, record s { buf_tail = (s.buf_tail + 1) % kbd_buf_size })

pub keyboard_has_data : Keyboard → Bool
keyboard_has_data s = not (s.buf_head == s.buf_tail)

pub keyboard_get_modifiers : Keyboard → ℕ
keyboard_get_modifiers s = s.modifiers
