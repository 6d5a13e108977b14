-- ===== src/Drivers/Keyboard/Ring.antt =====
-- The ring buffer of the keyboard is a bounded FIFO list.
use mathlib.Core.Path.{ap₂}
use ares_os.Prelude.{
  ℕ, zero, suc, ◌+◌, ◌%◌, ◌≤◌, ◌<◌, ◌≡◌, ◌≢◌, refl, ◌∙◌, sym, ap, true, false, List, [], ◌∷◌, ◌++◌,
  arith, ◌==◌, ltb, if◌then◌else◌, length, length-append, length-set, get_or, set, get_or-set_self,
  get_or-set_ne, inl, inr, Bool-cases,
}
use ares_os.Drivers.Keyboard.{Keyboard, buffer_put, keyboard_getchar, keyboard_init}

-- From the tail on the buffer holds `xs`; one place stays free.
pub record IsRing (s : Keyboard) (xs : List ℕ) : Type 0 where
  pub size : length s.kbd_buffer ≡ 256
  pub tail : s.buf_tail < 256
  pub short : length xs < 256
  pub head : s.buf_head ≡ (s.buf_tail + length xs) % 256
  pub held :
      (i : ℕ) → i < length xs → get_or s.kbd_buffer ((s.buf_tail + i) % 256) 0 ≡ get_or xs i 0

-- A bounded list: an element that does not fit is dropped.
abbrev pub offer : ℕ → List ℕ → List ℕ
offer value xs = if ltb (length xs) 255 then xs ++ (value ∷ []) else xs

get_or-append_last : (xs : List ℕ) (v d : ℕ) → get_or (xs ++ (v ∷ [])) (length xs) d ≡ v
get_or-append_last [] v d = refl
get_or-append_last (x ∷ xs) v d = get_or-append_last xs v d

get_or-append_first :
    (xs ys : List ℕ) (i d : ℕ) → i < length xs → get_or (xs ++ ys) i d ≡ get_or xs i d
get_or-append_first [] ys i d h = elim h [ ]
get_or-append_first (x ∷ xs) ys zero d h = refl
get_or-append_first (x ∷ xs) ys (suc i) d h = get_or-append_first xs ys i d (omega arith)

-- `keyboard_init` empties the buffer.
pub keyboard_init-IsRing : (s : Keyboard) → length s.kbd_buffer ≡ 256 → IsRing (keyboard_init s) []
unfolding keyboard_init
keyboard_init-IsRing s e = record {
  size = e;
  tail = omega arith;
  short = omega arith;
  head = omega arith;
  held = λ i h. elim h [ ];
}

==_ne : (a b : ℕ) → a ≢ b → (a == b) ≡ false
==_ne a b h = ground (arith, h)

==_eq : (a b : ℕ) → a ≡ b → (a == b) ≡ true
==_eq a b h = ground (arith, h)

put_held :
    (s : Keyboard) (xs : List ℕ) (value : ℕ)
    → IsRing s xs
    → length xs < 255
    → (i : ℕ) → i < suc (length xs)
    → get_or (set s.kbd_buffer s.buf_head value) ((s.buf_tail + i) % 256) 0
      ≡ get_or (xs ++ (value ∷ [])) i 0
put_held s xs value v small i h = elim (Bool-cases (i == length xs)) [
  | inl e ↦
      let e' : length xs ≡ i = ground arith in
      let place : (s.buf_tail + i) % 256 ≡ s.buf_head = omega (arith, v.head, e') in
      ap (λ k. get_or (set s.kbd_buffer s.buf_head value) k 0) place
      ∙ get_or-set_self s.kbd_buffer s.buf_head value 0 (omega (arith, v.size, v.head))
      ∙ sym (get_or-append_last xs value 0)
      ∙ ap (λ k. get_or (xs ++ (value ∷ [])) k 0) e'
  | inr n ↦
      let low : i < length xs = ground arith in
      get_or-set_ne s.kbd_buffer value 0 (λ e. omega (arith, e, v.head, v.tail, low, small))
      ∙ v.held i low
      ∙ sym (get_or-append_first xs (value ∷ []) i 0 low)
]

-- `buffer_put` appends, and drops the key when 255 keys wait already.
pub buffer_put-offer :
    (s : Keyboard) (xs : List ℕ) (value : ℕ)
    → IsRing s xs
    → IsRing (buffer_put value s) (offer value xs)
unfolding buffer_put
buffer_put-offer s xs value v = elim (Bool-cases (ltb (length xs) 255)) [
  | inl room ↦
      let small : length xs < 255 = ground arith in
      let free : ((s.buf_head + 1) % 256 == s.buf_tail) ≡ false =
        ==_ne _ _ (λ e. omega (arith, e, v.head, v.tail, small)) in
      rw (room, free)
        (record {
          size = length-set s.kbd_buffer s.buf_head value ∙ v.size;
          tail = v.tail;
          short = omega (arith, length-append {0} xs (value ∷ []));
          head = omega (arith, v.head, v.tail, small, length-append {0} xs (value ∷ []));
          held = λ i h.
              put_held s xs value v small i (omega (arith, h, length-append {0} xs (value ∷ [])));
        })
  | inr full ↦
      let large : length xs ≡ 255 =
        (let k : 255 ≤ length xs = ground arith in omega (arith, v.short, k)) in
      let stop : ((s.buf_head + 1) % 256 == s.buf_tail) ≡ true =
        ==_eq _ _ (omega (arith, v.head, v.tail, large)) in
      rw (full, stop) v
]

-- `keyboard_getchar` returns the oldest key and takes it out, and returns 0 when none waits.
pub keyboard_getchar-cons :
    (s : Keyboard) (x : ℕ) (xs : List ℕ)
    → IsRing s (x ∷ xs)
    → ((keyboard_getchar s).0 ≡ x) × IsRing (keyboard_getchar s).1 xs
unfolding keyboard_getchar
keyboard_getchar-cons s x xs v =
    let some_key : (s.buf_head == s.buf_tail) ≡ false =
      ==_ne _ _ (λ e. omega (arith, e, v.head, v.tail, v.short)) in
    rw some_key (
      (ap (λ k. get_or s.kbd_buffer k 0) (omega (arith, v.tail)) ∙ v.held 0 (omega arith)),
      record {
        size = v.size;
        tail = omega arith;
        short = omega (arith, v.short);
        head = omega (arith, v.head, v.tail, v.short);
        held = λ i h.
            ap (λ k. get_or s.kbd_buffer k 0) (omega (arith, v.tail))
            ∙ v.held (suc i) (omega (arith, h));
      },
    )

keyboard_getchar-nil : (s : Keyboard) → IsRing s [] → keyboard_getchar s ≡ (0, s)
unfolding keyboard_getchar
keyboard_getchar-nil s v =
    let empty : (s.buf_head == s.buf_tail) ≡ true = ==_eq _ _ (omega (arith, v.head, v.tail)) in
    rw empty

-- What reaches the buffer: the handler adds a key, or a reader asks for one.
pub data Event : Type 0 where
  typed : ℕ → Event
  asked : Event

-- The answers of `keyboard_getchar` while the events come in that order.
pub answers : List Event → Keyboard → List ℕ
answers [] s = []
answers (typed key ∷ es) s = answers es (buffer_put key s)
answers (asked ∷ es) s = let (key, s') = keyboard_getchar s in key ∷ answers es s'

-- The same for a list of at most 255 keys.
unfoldable pub list_answers : List Event → List ℕ → List ℕ
list_answers [] xs = []
list_answers (typed key ∷ es) xs = list_answers es (offer key xs)
list_answers (asked ∷ es) [] = 0 ∷ list_answers es []
list_answers (asked ∷ es) (x ∷ xs) = x ∷ list_answers es xs

-- However keys that are typed and reads interleave, each read gets what a bounded first-in first-out
-- list gives: the oldest key that was not dropped for lack of room, or 0 when there is none.
pub answers-list_answers :
    (es : List Event) (s : Keyboard) (xs : List ℕ) → IsRing s xs → answers es s ≡ list_answers es xs
unfolding answers list_answers
answers-list_answers [] s xs v = refl
answers-list_answers (typed key ∷ es) s xs v =
    answers-list_answers es (buffer_put key s) (offer key xs) (buffer_put-offer s xs key v)
answers-list_answers (asked ∷ es) s [] v =
    let e = keyboard_getchar-nil s v in
    ap (λ r. r.0 ∷ answers es r.1) e ∙ ap (λ k. 0 ∷ k) (answers-list_answers es s [] v)
answers-list_answers (asked ∷ es) s (x ∷ xs) v =
    let (e, w) = keyboard_getchar-cons s x xs v in
    let rest = answers-list_answers es (keyboard_getchar s).1 xs w in ap₂ ◌∷◌ e rest
