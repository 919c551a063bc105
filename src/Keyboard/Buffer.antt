-- ===== src/Keyboard/Buffer.antt =====
-- The two ring buffers of kernel/drivers/input/keyboard.c: 128 slots each, one of them always empty.
-- The code has each pair of functions twice, for characters and for events.
use myos_gui_desktop.Base.{
  ℕ, zero, suc, ◌+◌, ◌-◌, ◌%◌, ◌<◌, ◌≡◌, ◌≢◌, refl, ap, ap₂, inl, inr, true, false, Option, none,
  some, List, [], ◌∷◌, ◌++◌, arith,
}
use myos_gui_desktop.Base.Tests.{ltb, ◌==◌, if◌then◌else◌, Bool-cases}
use myos_gui_desktop.Base.Lists.{
  length, get_or, set, length-set, length-append, get_or-set_self, get_or-set_ne,
}

-- `KEYBOARD_BUFFER_SIZE` and `KEYBOARD_EVENT_BUFFER_SIZE`.
abbrev pub slots : ℕ
slots = 128

pub record Ring (A : Type 0) : Type 0 where
  pub buffer : List A
  pub head : ℕ
  pub tail : ℕ

module _ {A : Type 0} where
  unfoldable pub push : A → Ring A → Ring A
  push x r =
      if (r.head + 1) % slots == r.tail
      then r
      else record r { buffer = set r.buffer r.head x; head = (r.head + 1) % slots }

  -- `blank` is what an array of the element type holds at first.
  unfoldable pub pop : A → Ring A → Option A × Ring A
  pop blank r =
      if r.head == r.tail
      then (none, r)
      else (some (get_or r.buffer r.tail blank), record r { tail = (r.tail + 1) % slots })

pub record IsValid {A : Type 0} (r : Ring A) : Type 0 where
  pub size : length r.buffer ≡ slots
  pub head_in : r.head < slots
  pub tail_in : r.tail < slots

-- How many elements a ring holds.
abbrev pub count : {A : Type 0} → Ring A → ℕ
count r = (r.head + slots - r.tail) % slots

-- The first `n` elements from slot `i` on, going round.
unfoldable pub held : {A : Type 0} → A → List A → ℕ → ℕ → List A
held blank buffer i zero = []
held blank buffer i (suc n) = held blank buffer i n ++ (get_or buffer ((i + n) % slots) blank ∷ [])

-- The elements that a ring holds, oldest first.
abbrev pub contents : {A : Type 0} → A → Ring A → List A
contents blank r = held blank r.buffer r.tail (count r)

-- A bounded queue: what comes when it is full is dropped.
unfoldable pub offer : {A : Type 0} → A → List A → List A
offer x q = if ltb (length q + 1) slots then q ++ (x ∷ []) else q

unfoldable pub take_first : {A : Type 0} → List A → Option A × List A
take_first [] = (none, [])
take_first (x ∷ q) = (some x, q)

module _ {A : Type 0} (blank : A) where
  pub length-held : (buffer : List A) (i n : ℕ) → length (held blank buffer i n) ≡ n
  unfolding held
  length-held buffer i zero = refl
  length-held buffer i (suc n) = omega (
    arith,
    length-append (held blank buffer i n) (get_or buffer ((i + n) % slots) blank ∷ []),
    length-held buffer i n,
  )

  -- A write just behind the held elements does not change them.
  held-set :
      (buffer : List A) (x : A) (h i n : ℕ)
      → ((j : ℕ) → j < n → h ≢ (i + j) % slots)
      → held blank (set buffer h x) i n ≡ held blank buffer i n
  unfolding held
  held-set buffer x h i zero apart = refl
  held-set buffer x h i (suc n) apart =
      ap₂ (λ q y. q ++ (y ∷ [])) (held-set buffer x h i n (λ j l. apart j (omega arith)))
        (get_or-set_ne buffer h ((i + n) % slots) x blank (apart n (omega arith)))

  -- The first element and the rest.
  held_first :
      (buffer : List A) (i n : ℕ)
      → i < slots
      → held blank buffer i (suc n) ≡ get_or buffer i blank ∷ held blank buffer ((i + 1) % slots) n
  unfolding held
  held_first buffer i zero l = ap (λ t. get_or buffer t blank ∷ []) (omega arith)
  held_first buffer i (suc n) l =
      let place : (i + suc n) % slots ≡ ((i + 1) % slots + n) % slots = omega arith in
      ap₂ (λ q t. q ++ (get_or buffer t blank ∷ [])) (held_first buffer i n l) place

  fills : (x : A) (r : Ring A) → Ring A
  fills x r = record r { buffer = set r.buffer r.head x; head = (r.head + 1) % slots }

  contents-fills :
      (x : A) {r : Ring A}
      → IsValid r
      → ((r.head + 1) % slots == r.tail) ≡ false
      → contents blank (fills x r) ≡ contents blank r ++ (x ∷ [])
  unfolding fills held
  contents-fills x {r} v room =
      let n : ℕ = count r in
      let more : ((r.head + 1) % slots + slots - r.tail) % slots ≡ suc n = ground (arith, v) in
      let place : (r.tail + n) % slots ≡ r.head = omega (arith, v) in
      let last : get_or (set r.buffer r.head x) ((r.tail + n) % slots) blank ≡ x =
        rw place (get_or-set_self r.buffer r.head x blank (omega (arith, v))) in
      rw more (
        ap₂ (λ q y. q ++ (y ∷ [])) (held-set r.buffer x r.head r.tail n (λ j l. omega (arith, v)))
          last)

  -- A push on a valid ring is an offer to the bounded queue of what it holds.
  pub contents-push :
      (x : A) {r : Ring A} → IsValid r → contents blank (push x r) ≡ offer x (contents blank r)
  unfolding push offer fills
  contents-push x {r} v =
      let n = length-held r.buffer r.tail (count r) in
      elim (Bool-cases ((r.head + 1) % slots == r.tail)) [
        | inl full ↦
            let most : ltb (length (contents blank r) + 1) slots ≡ false = ground (arith, n, v) in
            rw (full, most)
        | inr room ↦
            let fits : ltb (length (contents blank r) + 1) slots ≡ true = ground (arith, n, v) in
            rw (room, fits) (contents-fills x v room)
      ]

  -- A pop on a valid ring takes the first element of the queue of what it holds.
  pub contents-pop :
      {r : Ring A}
      → IsValid r
      → ((pop blank r).0, contents blank (pop blank r).1) ≡ take_first (contents blank r)
  unfolding pop take_first held
  contents-pop {r} v = elim (Bool-cases (r.head == r.tail)) [
    | inl empty ↦ let none_held : count r ≡ 0 = ground (arith, v) in rw (empty, none_held)
    | inr some_held ↦
        let rest : ℕ = (r.head + slots - (r.tail + 1) % slots) % slots in
        let one_more : count r ≡ suc rest = ground (arith, v) in
        rw (some_held, one_more, held_first r.buffer r.tail rest v.tail_in)
  ]

module _ {A : Type 0} where
  pub push-IsValid : (x : A) {r : Ring A} → IsValid r → IsValid (push x r)
  unfolding push
  push-IsValid x {r} v = ground (arith, length-set r.buffer r.head x)

  pub pop-IsValid : (blank : A) {r : Ring A} → IsValid r → IsValid (pop blank r).1
  unfolding pop
  pop-IsValid blank v = ground arith
