-- ===== src/Paging/Tables.antt =====
-- What the loops over a page table do to the memory.
use myos_gui_desktop.Base.{
  ℕ, zero, suc, ◌+◌, ◌*◌, ◌^◌, ◌≤◌, ◌<◌, ◌≡◌, ◌≢◌, inl, inr, true, refl, ap, ◌∙◌, arith,
}
use myos_gui_desktop.Base.Tests.{◌==◌, Bool-cases, ==_iff, ne→==}
use myos_gui_desktop.Paging.{
  Memory, put, zero_from, zero_page_table, copy_from, copy_page_table, no_tables, owned_table_of,
}

pub put_same : (a b v : ℕ) (m : Memory) → b ≡ a → put a v m b ≡ v
put_same a b v m h = let yes : (b == a) ≡ true = ground arith in rw yes refl

pub put_other : (a b v : ℕ) (m : Memory) → b ≢ a → put a v m b ≡ m b
put_other a b v m h = rw (ne→== b a h) refl

-- Outside a run of words.
abbrev pub Outside : (start n a : ℕ) → Type 0
Outside start n a = (j : ℕ) → j < n → a ≢ start + 4 * j

zero_from-outside :
    (n i table : ℕ) (m : Memory) (a : ℕ)
    → ((j : ℕ) → i ≤ j → j < i + n → a ≢ table + 4 * j)
    → zero_from n i table m a ≡ m a
unfolding zero_from
zero_from-outside zero i table m a h = refl
zero_from-outside (suc n) i table m a h =
    zero_from-outside n (i + 1) table (put (table + 4 * i) 0 m) a
      (λ j l k. h j (omega arith) (omega arith))
    ∙ put_other (table + 4 * i) a 0 m (h i (omega arith) (omega arith))

zero_from-inside :
    (n i table : ℕ) (m : Memory) (j : ℕ)
    → i ≤ j
    → j < i + n
    → zero_from n i table m (table + 4 * j) ≡ 0
unfolding zero_from
zero_from-inside zero i table m j l k = absurd (omega arith)
zero_from-inside (suc n) i table m j l k = elim (Bool-cases (i == j)) [
  | inl same ↦
      zero_from-outside n (i + 1) table (put (table + 4 * i) 0 m) (table + 4 * j)
        (λ x a b. omega (arith, (==_iff i j).0 same))
      ∙ put_same (table + 4 * i) (table + 4 * j) 0 m (omega (arith, (==_iff i j).0 same))
  | inr other ↦
      zero_from-inside n (i + 1) table (put (table + 4 * i) 0 m) j (ground (arith, other))
        (omega arith)
]

pub zero_page_table_away :
    (table : ℕ) (m : Memory) (a : ℕ) → Outside table 1024 a → zero_page_table table m a ≡ m a
unfolding zero_page_table
zero_page_table_away table m a h = zero_from-outside 1024 0 table m a (λ j l k. h j (omega arith))

pub zero_page_table-inside :
    (table : ℕ) (m : Memory) (j : ℕ) → j < 1024 → zero_page_table table m (table + 4 * j) ≡ 0
unfolding zero_page_table
zero_page_table-inside table m j l = zero_from-inside 1024 0 table m j (omega arith) (omega arith)

copy_from-outside :
    (n i dst src : ℕ) (m : Memory) (a : ℕ)
    → ((j : ℕ) → i ≤ j → j < i + n → a ≢ dst + 4 * j)
    → copy_from n i dst src m a ≡ m a
unfolding copy_from
copy_from-outside zero i dst src m a h = refl
copy_from-outside (suc n) i dst src m a h =
    copy_from-outside n (i + 1) dst src (put (dst + 4 * i) (m (src + 4 * i)) m) a
      (λ j l k. h j (omega arith) (omega arith))
    ∙ put_other (dst + 4 * i) a (m (src + 4 * i)) m (h i (omega arith) (omega arith))

copy_from-inside :
    (n i dst src : ℕ) (m : Memory) (j : ℕ)
    → ((x y : ℕ) → x < 1024 → y < 1024 → src + 4 * x ≢ dst + 4 * y)
    → i + n ≤ 1024
    → i ≤ j
    → j < i + n
    → copy_from n i dst src m (dst + 4 * j) ≡ m (src + 4 * j)
unfolding copy_from
copy_from-inside zero i dst src m j apart e l k = absurd (omega arith)
copy_from-inside (suc n) i dst src m j apart e l k =
    let next : Memory = put (dst + 4 * i) (m (src + 4 * i)) m in
    elim (Bool-cases (i == j)) [
      | inl same ↦
          let h = (==_iff i j).0 same in
          copy_from-outside n (i + 1) dst src next (dst + 4 * j) (λ x a b. omega arith)
          ∙ put_same (dst + 4 * i) (dst + 4 * j) (m (src + 4 * i)) m (omega arith)
          ∙ ap (λ x. m (src + 4 * x)) h
      | inr other ↦
          copy_from-inside n (i + 1) dst src next j apart (omega arith) (ground (arith, other))
            (omega arith)
          ∙ put_other (dst + 4 * i) (src + 4 * j) (m (src + 4 * i)) m
              (apart j i (omega arith) (omega arith))
    ]

pub copy_page_table_away :
    (dst src : ℕ) (m : Memory) (a : ℕ) → Outside dst 1024 a → copy_page_table dst src m a ≡ m a
unfolding copy_page_table
copy_page_table_away dst src m a h =
    copy_from-outside 1024 0 dst src m a (λ j l k. h j (omega arith))

pub copy_page_table-inside :
    (dst src : ℕ) (m : Memory) (j : ℕ)
    → ((x y : ℕ) → x < 1024 → y < 1024 → src + 4 * x ≢ dst + 4 * y)
    → j < 1024
    → copy_page_table dst src m (dst + 4 * j) ≡ m (src + 4 * j)
unfolding copy_page_table
copy_page_table-inside dst src m j apart l =
    copy_from-inside 1024 0 dst src m j apart (omega arith) (omega arith) (omega arith)

pub no_tables-outside :
    (n i space : ℕ) (m : Memory) (a : ℕ)
    → ((j : ℕ) → i ≤ j → j < i + n → a ≢ owned_table_of space j)
    → no_tables n i space m a ≡ m a
unfolding no_tables
no_tables-outside zero i space m a h = refl
no_tables-outside (suc n) i space m a h =
    no_tables-outside n (i + 1) space (put (owned_table_of space i) 0 m) a
      (λ j l k. h j (omega arith) (omega arith))
    ∙ put_other (owned_table_of space i) a 0 m (h i (omega arith) (omega arith))

pub no_tables-inside :
    (n i space : ℕ) (m : Memory) (j : ℕ)
    → i ≤ j
    → j < i + n
    → no_tables n i space m (owned_table_of space j) ≡ 0
unfolding no_tables
no_tables-inside zero i space m j l k = absurd (omega arith)
no_tables-inside (suc n) i space m j l k = elim (Bool-cases (i == j)) [
  | inl same ↦
      no_tables-outside n (i + 1) space (put (owned_table_of space i) 0 m) (owned_table_of space j)
        (λ x a b. omega (arith, (==_iff i j).0 same))
      ∙ put_same (owned_table_of space i) (owned_table_of space j) 0 m
          (omega (arith, (==_iff i j).0 same))
  | inr other ↦
      no_tables-inside n (i + 1) space (put (owned_table_of space i) 0 m) j (ground (arith, other))
        (omega arith)
]

-- Words of 32 bits.
abbrev pub IsWords : Memory → Type 0
IsWords m = (a : ℕ) → m a < 2 ^ 32

pub put-IsWords : (a v : ℕ) (m : Memory) → v < 2 ^ 32 → IsWords m → IsWords (put a v m)
put-IsWords a v m l h b = elim (Bool-cases (b == a)) [
  | inl here ↦ rw here l
  | inr away ↦ rw away (h b)
]

zero_from-IsWords : (n i table : ℕ) (m : Memory) → IsWords m → IsWords (zero_from n i table m)
unfolding zero_from
zero_from-IsWords zero i table m h = h
zero_from-IsWords (suc n) i table m h =
    zero_from-IsWords n (i + 1) table (put (table + 4 * i) 0 m)
      (put-IsWords (table + 4 * i) 0 m (omega arith) h)

pub zero_page_table-IsWords :
    (table : ℕ) (m : Memory) → IsWords m → IsWords (zero_page_table table m)
unfolding zero_page_table
zero_page_table-IsWords table m h = zero_from-IsWords 1024 0 table m h

copy_from-IsWords : (n i dst src : ℕ) (m : Memory) → IsWords m → IsWords (copy_from n i dst src m)
unfolding copy_from
copy_from-IsWords zero i dst src m h = h
copy_from-IsWords (suc n) i dst src m h =
    copy_from-IsWords n (i + 1) dst src (put (dst + 4 * i) (m (src + 4 * i)) m)
      (put-IsWords (dst + 4 * i) (m (src + 4 * i)) m (h (src + 4 * i)) h)

pub copy_page_table-IsWords :
    (dst src : ℕ) (m : Memory) → IsWords m → IsWords (copy_page_table dst src m)
unfolding copy_page_table
copy_page_table-IsWords dst src m h = copy_from-IsWords 1024 0 dst src m h
