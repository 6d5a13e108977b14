-- ===== src/Drivers/Keyboard/Modifiers.antt =====
-- The modifier flags of the keyboard follow the presses and releases of their keys.
use native.Mathlib.Nat.{one-le-pow}
use ares_os.Prelude.{
  ℕ, ◌+◌, ◌-◌, ◌^◌, ◌<◌, ◌≡◌, ◌≢◌, refl, ◌∙◌, ap, Bool, true, false, not, ◌&&◌, ◌||◌, some, arith,
  ◌==◌, bit_and, bit_or, sweep, sweep-holds,
}
use ares_os.Prelude.Word.{bit, set_bit, clear_bit, bit-set_bit, bit-clear_bit}
use ares_os.Drivers.Keyboard.{
  Keyboard, modifier_for_scancode, buffer_put, drop_modifier, hold_modifier, scan7, is_break,
  modifier_key, standard_key, keyboard_irq_handler,
}
use ares_os.Drivers.Keyboard.Keys.{make_is_break}

buffer_put_modifiers : (v : ℕ) (s : Keyboard) → (buffer_put v s).modifiers ≡ s.modifiers
unfolding buffer_put
buffer_put_modifiers v s = ground arith

modifier_key_modifiers : (c : ℕ) (s : Keyboard) → (modifier_key c s).modifiers ≡ s.modifiers
unfolding modifier_key
modifier_key_modifiers c s =
    let ctrl = buffer_put_modifiers 0x99 s in
    let left = buffer_put_modifiers 0x9A s in
    let right = buffer_put_modifiers 0x9D s in let alt = buffer_put_modifiers 0x9B s in ground arith

-- Break codes are the make codes with the high bit.
is_break_code : ℕ → Bool
is_break_code c = is_break (128 + c) && (scan7 (128 + c) == c)

break_codes : sweep 128 is_break_code ≡ true
unfolding sweep is_break_code
break_codes = refl

release_is_break : (c : ℕ) → c < 128 → is_break (128 + c) ≡ true
unfolding is_break_code
release_is_break c h = let t = sweep-holds 128 is_break_code break_codes c h in ground arith

release_scan7 : (c : ℕ) → c < 128 → scan7 (128 + c) ≡ c
unfolding is_break_code
release_scan7 c h = let t = sweep-holds 128 is_break_code break_codes c h in ground arith

press_standard :
    (c : ℕ) (s : Keyboard)
    → c < 128
    → s.extended ≡ false
    → keyboard_irq_handler c s ≡ some (standard_key c s)
unfolding keyboard_irq_handler
press_standard c s h e = ground arith

release_standard :
    (c : ℕ) (s : Keyboard)
    → c ≢ 0x60
    → s.extended ≡ false
    → keyboard_irq_handler (128 + c) s ≡ some (standard_key (128 + c) s)
unfolding keyboard_irq_handler
release_standard c s h e = ground arith

no_modifier : (c i : ℕ) → modifier_for_scancode c false ≡ 2 ^ i → 0 < 2 ^ i → c ≢ 0x60
unfolding modifier_for_scancode
no_modifier c i e p q = ground arith

standard_press :
    (c : ℕ) (s : Keyboard)
    → is_break c ≡ false
    → (modifier_for_scancode c false == 0) ≡ false
    → standard_key c s ≡ modifier_key c (hold_modifier (modifier_for_scancode c false) s)
unfolding standard_key
standard_press c s b m = rw (b, m)

standard_release :
    (c : ℕ) (s : Keyboard)
    → is_break c ≡ true
    → standard_key c s ≡ drop_modifier (modifier_for_scancode (scan7 c) false) s
unfolding standard_key
standard_release c s b = rw b

-- The flag of a modifier follows its key. The press, without prefix, of the key with make code `c` whose
-- flag is bit `i` sets that flag, and the release clears it; every other flag stays as it is.
pub keyboard_irq_handler_modifier :
    (c i : ℕ) (s : Keyboard)
    → c < 128
    → i < 8
    → s.extended ≡ false
    → modifier_for_scancode c false ≡ 2 ^ i
    → ((down : Keyboard) × (keyboard_irq_handler c s ≡ some down)
        × ((j : ℕ) → bit down.modifiers j ≡ ((i == j) || bit s.modifiers j)))
      × ((up : Keyboard) × (keyboard_irq_handler (128 + c) s ≡ some up)
          × ((j : ℕ) → j < 8 → bit up.modifiers j ≡ (not (i == j) && bit s.modifiers j)))
unfolding set_bit clear_bit
keyboard_irq_handler_modifier c i s h k e m =
    let positive : 0 < 2 ^ i = one-le-pow i 2 (omega arith) in
    let flag : (modifier_for_scancode c false == 0) ≡ false = ground arith in
    let press = standard_press c s (make_is_break c s h) flag in
    let release = standard_release (128 + c) s (release_is_break c h) in
    let pressed : (standard_key c s).modifiers ≡ set_bit s.modifiers i =
      ap (λ t. t.modifiers) press
      ∙ modifier_key_modifiers c (hold_modifier (modifier_for_scancode c false) s)
      ∙ ap (bit_or s.modifiers) m in
    let released : (standard_key (128 + c) s).modifiers ≡ clear_bit 8 s.modifiers i =
      ap (λ t. t.modifiers) release
      ∙ ap (λ d. bit_and s.modifiers (255 - modifier_for_scancode d false)) (release_scan7 c h)
      ∙ ap (λ d. bit_and s.modifiers (255 - d)) m in
    (
      (
        standard_key c s,
        press_standard c s h e,
        λ j. ap (λ w. bit w j) pressed ∙ bit-set_bit s.modifiers i j,
      ),
      (
        standard_key (128 + c) s,
        release_standard c s (no_modifier c i m positive) e,
        λ j l. ap (λ w. bit w j) released ∙ bit-clear_bit 8 s.modifiers i j k l,
      ),
    )
