-- ===== src/Base/Slices.antt =====
-- Blocks of memory as lists: reads of a slice, writes of a slice, and what a read finds after a
-- write.
use unreal5_gas.Base.{
  ℕ, zero, suc, ◌+◌, ◌-◌, ◌≤◌, ◌≡◌, refl, sym, ap, ◌∙◌, List, [], ◌∷◌, ◌++◌, arith, length, take,
  drop, some, get_elem?, length-append, length-take, length-drop, take-append, drop-append,
  append_assoc,
}

suc-add : (m n : ℕ) → suc m + n ≡ suc (m + n)
suc-add m n = omega arith

module _ {ℓ} {A : Type ℓ} where
  -- `n` bytes from `i` on.
  abbrev pub slice : ℕ → ℕ → List A → List A
  slice i n xs = take n (drop i xs)

  -- The block after `ys` was written from `i` on.
  abbrev pub write : List A → ℕ → List A → List A
  write xs i ys = take i xs ++ (ys ++ drop (i + length ys) xs)

  pub length-write :
      (xs : List A) (i : ℕ) (ys : List A)
      → i + length ys ≤ length xs
      → length (write xs i ys) ≡ length xs
  length-write xs i ys h = omega (
    arith,
    length-append (take i xs) (ys ++ drop (i + length ys) xs),
    length-append ys (drop (i + length ys) xs),
    length-take i xs,
    length-drop (i + length ys) xs,
  )

  pub take-append_eq : (n : ℕ) (xs ys : List A) → n ≡ length xs → take n (xs ++ ys) ≡ xs
  take-append_eq n xs ys e = ap (λ k. take k (xs ++ ys)) e ∙ take-append xs ys

  pub drop-append_eq : (n : ℕ) (xs ys : List A) → n ≡ length xs → drop n (xs ++ ys) ≡ ys
  drop-append_eq n xs ys e = ap (λ k. drop k (xs ++ ys)) e ∙ drop-append xs ys

  -- What lies from `i` on in a block whose first `j` bytes are kept.
  pub drop-take-append :
      (i j : ℕ) (xs ys : List A)
      → i ≤ j
      → j ≤ length xs
      → drop i (take j xs ++ ys) ≡ slice i (j - i) xs ++ ys
  drop-take-append zero j xs ys h k = ap (λ n. take n xs ++ ys) (omega arith)
  drop-take-append (suc i) zero xs ys h k = absurd (omega arith)
  drop-take-append (suc i) (suc j) [] ys h k = absurd (omega arith)
  drop-take-append (suc i) (suc j) (x ∷ xs) ys h k =
      drop-take-append i j xs ys (omega arith) (omega arith)
      ∙ ap (λ n. take n (drop i xs) ++ ys) (omega arith)

  pub length-slice : (i n : ℕ) (xs : List A) → i + n ≤ length xs → length (slice i n xs) ≡ n
  length-slice i n xs h = omega (arith, length-take n (drop i xs), length-drop i xs)

  -- A write at the end of a slice makes the slice longer.
  pub slice-write :
      (i j : ℕ) (xs ys : List A)
      → i ≤ j
      → j + length ys ≤ length xs
      → slice i (j + length ys - i) (write xs j ys) ≡ slice i (j - i) xs ++ ys
  slice-write i j xs ys h k =
      ap (take (j + length ys - i)) (
        drop-take-append i j xs (ys ++ drop (j + length ys) xs) h (omega arith)
        ∙ sym (append_assoc (slice i (j - i) xs) ys (drop (j + length ys) xs)))
      ∙ take-append_eq (j + length ys - i) (slice i (j - i) xs ++ ys) _ (
          omega
            (arith, length-append (slice i (j - i) xs) ys, length-slice i (j - i) xs (omega arith)))

  -- A write at the start of the block is read back.
  pub slice-write_zero : (xs ys : List A) → slice 0 (length ys) (write xs 0 ys) ≡ ys
  slice-write_zero xs ys = take-append ys (drop (0 + length ys) xs)

  drop-nil : (n : ℕ) → drop {A = A} n [] ≡ []
  drop-nil zero = refl
  drop-nil (suc n) = refl

  pub drop-add : (i j : ℕ) (xs : List A) → drop (i + j) xs ≡ drop j (drop i xs)
  drop-add zero j xs = ap (λ k. drop k xs) (omega arith)
  drop-add (suc i) j [] = drop-nil (suc i + j) ∙ sym (drop-nil j)
  drop-add (suc i) j (x ∷ xs) = ap (λ k. drop k (x ∷ xs)) (suc-add i j) ∙ drop-add i j xs

  take-split :
      (n : ℕ) (xs ys zs : List A)
      → take (length ys + n) xs ≡ ys ++ zs
      → (take (length ys) xs ≡ ys) × (take n (drop (length ys) xs) ≡ zs)
  take-split n xs [] zs e = (refl, ap (λ k. take k xs) (omega arith) ∙ e)
  take-split n [] (y ∷ ys) zs e = cc (ap (λ k. take {A = A} k []) (suc-add (length ys) n))
  take-split n (x ∷ xs) (y ∷ ys) zs e =
      let f : take (suc (length ys + n)) (x ∷ xs) ≡ y ∷ (ys ++ zs) =
        ap (λ k. take k (x ∷ xs)) (sym (suc-add (length ys) n)) ∙ e in
      let r = take-split n xs ys zs (cc) in (cc (r.0), r.1)

  -- A slice splits at any place.
  pub slice-split :
      (i n : ℕ) (xs ys zs : List A)
      → slice i (length ys + n) xs ≡ ys ++ zs
      → (slice i (length ys) xs ≡ ys) × (slice (i + length ys) n xs ≡ zs)
  slice-split i n xs ys zs e =
      let r = take-split n (drop i xs) ys zs e in
      (r.0, ap (take n) (drop-add i (length ys) xs) ∙ r.1)

  pub slice_cong : (xs : List A) (i j m n : ℕ) → i ≡ j → m ≡ n → slice i m xs ≡ slice j n xs
  slice_cong xs i j m n p q = cc

  pub get_elem?-append : (xs ys : List A) (y : A) → get_elem? (xs ++ (y ∷ ys)) (length xs) ≡ some y
  get_elem?-append [] ys y = refl
  get_elem?-append (x ∷ xs) ys y = get_elem?-append xs ys y
