-- ===== src/Strings/Bytes.antt =====
-- Which bytes the copy loops copy.
use myos_gui_desktop.Base.{
  ℕ, zero, suc, ◌+◌, ◌<◌, ◌≡◌, refl, sym, ap, ap₂, ◌∙◌, List, [], ◌∷◌, ◌++◌, arith,
}
use myos_gui_desktop.Base.Lists.{length, get_or, drop}
use myos_gui_desktop.Strings.{bytes_of}

pub length-bytes_of : (n : ℕ) (l : List ℕ) → length (bytes_of n l) ≡ n
unfolding bytes_of
length-bytes_of zero l = refl
length-bytes_of (suc n) l = ap suc (length-bytes_of n (drop 1 l))

pub bytes_of_none : (l : List ℕ) → bytes_of 0 l ≡ []
unfolding bytes_of
bytes_of_none l = refl

get_or_at : (l : List ℕ) (i j : ℕ) → i ≡ j → get_or l i 0 ≡ get_or l j 0
get_or_at l i j h = ap (λ k. get_or l k 0) h

pub get_or-drop : (n i : ℕ) (l : List ℕ) → get_or (drop n l) i 0 ≡ get_or l (n + i) 0
get_or-drop zero i l = get_or_at l i (0 + i) (omega arith)
get_or-drop (suc n) i [] = refl
get_or-drop (suc n) i (x ∷ l) =
    get_or-drop n i l ∙ get_or_at (x ∷ l) (suc (n + i)) (suc n + i) (omega arith)

pub get_or-bytes_of : (n i : ℕ) (l : List ℕ) → i < n → get_or (bytes_of n l) i 0 ≡ get_or l i 0
unfolding bytes_of
get_or-bytes_of zero i l h = absurd (omega arith)
get_or-bytes_of (suc n) zero l h = refl
get_or-bytes_of (suc n) (suc i) l h =
    get_or-bytes_of n i (drop 1 l) (omega arith)
    ∙ get_or-drop 1 i l
    ∙ get_or_at l (1 + i) (suc i) (omega arith)

pub get_or-append_left :
    (xs ys : List ℕ) (i : ℕ) → i < length xs → get_or (xs ++ ys) i 0 ≡ get_or xs i 0
get_or-append_left [] ys i h = absurd (omega arith)
get_or-append_left (x ∷ xs) ys zero h = refl
get_or-append_left (x ∷ xs) ys (suc i) h = get_or-append_left xs ys i (omega arith)

-- The same bytes are copied from memory that is the same there.
pub bytes_of-same :
    (n : ℕ) (l r : List ℕ)
    → ((i : ℕ) → i < n → get_or l i 0 ≡ get_or r i 0)
    → bytes_of n l ≡ bytes_of n r
unfolding bytes_of
bytes_of-same zero l r h = refl
bytes_of-same (suc n) l r h = ap₂ ◌∷◌ (h 0 (omega arith)) (
    bytes_of-same n (drop 1 l) (drop 1 r)
      (λ i k. get_or-drop 1 i l ∙ h (1 + i) (omega arith) ∙ sym (get_or-drop 1 i r)))

drop-drop : (a : ℕ) (l : List ℕ) → drop (suc a) l ≡ drop a (drop 1 l)
drop-drop zero [] = refl
drop-drop (suc a) [] = refl
drop-drop a (x ∷ l) = refl

-- A copy in two steps.
pub bytes_of-append :
    (a b : ℕ) (l : List ℕ) → bytes_of a l ++ bytes_of b (drop a l) ≡ bytes_of (a + b) l
unfolding bytes_of
bytes_of-append zero b l = let same : b ≡ 0 + b = omega arith in ap (λ n. bytes_of n l) same
bytes_of-append (suc a) b l =
    let same : suc (a + b) ≡ suc a + b = omega arith in
    ap (get_or l 0 0 ∷◌) ((rw (drop-drop a l) (bytes_of-append a b (drop 1 l))))
    ∙ ap (λ n. bytes_of n l) same
