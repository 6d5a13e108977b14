-- ===== src/Drivers/Keyboard/Keys.antt =====
-- What the handler does with a key press.
use ares_os.Prelude.{
  ℕ, ◌<◌, ◌≡◌, ◌≢◌, refl, ◌∙◌, ap, Bool, true, false, not, ◌&&◌, ◌||◌, Option, none, some, arith,
  ◌==◌, sweep, sweep-holds,
}
use ares_os.Drivers.Keyboard.{
  Keyboard, lookup_extended, modifier_for_scancode, scan7, is_break, extended_key,
  keyboard_irq_handler,
}

-- Make codes have the high bit clear.
is_make : ℕ → Bool
is_make c = not (is_break c) && (scan7 c == c)

make_codes : sweep 128 is_make ≡ true
unfolding sweep is_make
make_codes = refl

-- The scancodes below 0x80 for which `lookup_extended` finds nothing, two aside.
is_unknown : ℕ → Bool
is_unknown c =
    (c == 0x0D) || (c == 0x2F) || (elim (lookup_extended c) [ none ↦ false | some k ↦ k == 0 ])

unknown_codes : sweep 128 is_unknown ≡ true
unfolding sweep is_unknown lookup_extended
unknown_codes = refl

module _ (c : ℕ) (s : Keyboard) where
  pub make_is_break : c < 128 → is_break c ≡ false
  unfolding is_make
  make_is_break h = let t = sweep-holds 128 is_make make_codes c h in ground arith

  pub make_scan7 : c < 128 → scan7 c ≡ c
  unfolding is_make
  make_scan7 h = let t = sweep-holds 128 is_make make_codes c h in ground arith

  unknown : c < 128 → c ≢ 0x0D → c ≢ 0x2F → lookup_extended c ≡ some 0
  unfolding is_unknown
  unknown h a b = from (lookup_extended c) refl (sweep-holds 128 is_unknown unknown_codes c h)
    where
      from :
          (r : Option ℕ) → lookup_extended c ≡ r → is_unknown c ≡ true → lookup_extended c ≡ some 0
      from none e t = absurd (ground arith)
      from (some k) e t = let z : k ≡ 0 = ground arith in e ∙ ap some z

  extended_none :
      is_break c ≡ false
      → modifier_for_scancode (scan7 c) true ≡ 0
      → lookup_extended c ≡ some 0
      → extended_key c s ≡ some s
  unfolding extended_key
  extended_none b m l = ground arith

  handler_extended :
      c < 128
      → s.extended ≡ true
      → extended_key c s ≡ some s
      → keyboard_irq_handler c s ≡ some (record s { extended = false })
  unfolding keyboard_irq_handler
  handler_extended h e k = ground arith

-- The key press of an extended scancode, other than 0x0D and 0x2F and the modifiers, adds nothing to
-- the buffer: the arrows, Home, End, Insert and Delete among them are lost.
pub keyboard_irq_handler_extended :
    (c : ℕ) (s : Keyboard)
    → c < 128
    → s.extended ≡ true
    → modifier_for_scancode c true ≡ 0
    → c ≢ 0x0D
    → c ≢ 0x2F
    → keyboard_irq_handler c s ≡ some (record s { extended = false })
keyboard_irq_handler_extended c s h e m a b = handler_extended c s h e (
    extended_none c s (make_is_break c s h)
      (ap (λ k. modifier_for_scancode k true) (make_scan7 c s h) ∙ m) (unknown c s h a b))
