-- ===== src/Drivers/Keyboard/Tests.antt =====
-- The theorems on the keyboard at concrete states.
use ares_os.Prelude.{
  ℕ, ◌+◌, ◌<◌, ◌≡◌, refl, true, false, not, ◌&&◌, ◌||◌, some, [], ◌∷◌, arith, replicate, ◌==◌,
}
use ares_os.Drivers.Keyboard.{
  Keyboard, buffer_put, keyboard_getchar, keyboard_irq_handler, modifier_for_scancode,
}
use ares_os.Drivers.Keyboard.Ring.{
  IsRing, buffer_put-offer, keyboard_getchar-cons, typed, asked, answers, list_answers,
  answers-list_answers,
}
use ares_os.Prelude.Word.{bit}
use ares_os.Drivers.Keyboard.Modifiers.{keyboard_irq_handler_modifier}
use ares_os.Drivers.Keyboard.Keys.{keyboard_irq_handler_extended}

abbrev blank : Keyboard
blank = record {
  modifiers = 0;
  kbd_buffer = replicate 256 0;
  buf_head = 255;
  buf_tail = 255;
  extended = false;
}

abbrev after_prefix : Keyboard
after_prefix = record blank { extended = true }

blank-IsRing : IsRing blank []
blank-IsRing = record {
  size = refl;
  tail = omega arith;
  short = omega arith;
  head = omega arith;
  held = λ i h. elim h [ ];
}

keyboard_getchar-cons_example :
    ((keyboard_getchar (buffer_put 65 blank)).0 ≡ 65)
    × IsRing (keyboard_getchar (buffer_put 65 blank)).1 []
keyboard_getchar-cons_example =
    keyboard_getchar-cons (buffer_put 65 blank) 65 [] (buffer_put-offer blank [] 65 blank-IsRing)

answers-list_answers_example :
    answers (asked ∷ typed 65 ∷ typed 66 ∷ asked ∷ []) blank ≡ 0 ∷ 65 ∷ []
unfolding list_answers
answers-list_answers_example =
    answers-list_answers (asked ∷ typed 65 ∷ typed 66 ∷ asked ∷ []) blank [] blank-IsRing

-- 0x1E is the key A; the left shift and the left Ctrl are held
abbrev shifted : Keyboard
shifted = record blank { modifiers = 3 }

-- 0x48 is the arrow up
keyboard_irq_handler_extended_example : keyboard_irq_handler 0x48 after_prefix ≡ some blank
unfolding modifier_for_scancode
keyboard_irq_handler_extended_example =
    keyboard_irq_handler_extended 0x48 after_prefix (omega arith) refl refl (omega arith)
      (omega arith)

-- 0x2A is the left shift, whose flag is bit 1
keyboard_irq_handler_modifier_example :
    ((down : Keyboard) × (keyboard_irq_handler 0x2A blank ≡ some down)
      × ((j : ℕ) → bit down.modifiers j ≡ ((1 == j) || bit 0 j)))
    × ((up : Keyboard) × (keyboard_irq_handler (128 + 0x2A) blank ≡ some up)
        × ((j : ℕ) → j < 8 → bit up.modifiers j ≡ (not (1 == j) && bit 0 j)))
unfolding modifier_for_scancode
keyboard_irq_handler_modifier_example =
    keyboard_irq_handler_modifier 0x2A 1 blank (omega arith) (omega arith) refl refl
