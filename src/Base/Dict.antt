-- ===== src/Base/Dict.antt =====
-- Strings as lists of bytes, and dictionaries keyed by them as association lists.
use unreal5_gas.Base.{
  ℕ, ◌≡◌, refl, ap, ◌↔◌, Bool, true, false, ◌&&◌, Option, none, some, List, [], ◌∷◌, arith, ◌==◌,
  if◌then◌else◌,
}

unfoldable pub bytes_eq : List ℕ → List ℕ → Bool
bytes_eq [] [] = true
bytes_eq [] (b ∷ bs) = false
bytes_eq (a ∷ as') [] = false
bytes_eq (a ∷ as') (b ∷ bs) = a == b && bytes_eq as' bs

bytes_eq-true : (a b : List ℕ) → bytes_eq a b ≡ true → a ≡ b
unfolding bytes_eq
bytes_eq-true [] [] e = refl
bytes_eq-true [] (b ∷ bs) e = cc
bytes_eq-true (a ∷ as') [] e = cc
bytes_eq-true (a ∷ as') (b ∷ bs) e = ground (arith, bytes_eq-true as' bs)

pub bytes_eq_self : (a : List ℕ) → bytes_eq a a ≡ true
unfolding bytes_eq
bytes_eq_self [] = refl
bytes_eq_self (a ∷ as') = ground (arith, bytes_eq_self as')

pub bytes_eq_iff : (a b : List ℕ) → (bytes_eq a b ≡ true) ↔ (a ≡ b)
bytes_eq_iff a b = (bytes_eq-true a b, λ e. cc (bytes_eq_self a, ap (bytes_eq a) e))

module _ {ℓ} {V : Type ℓ} where
  unfoldable pub find : List ℕ → List (List ℕ × V) → Option V
  find k [] = none
  find k ((j, v) ∷ m) = if bytes_eq j k then some v else find k m

  abbrev unless_found : Option V → List (List ℕ × V) → List (List ℕ × V) → List (List ℕ × V)
  unless_found none m n = n
  unless_found (some v) m n = m

  -- An existing entry stays, as with `std::unordered_map::insert`.
  unfoldable pub insert : List ℕ → V → List (List ℕ × V) → List (List ℕ × V)
  insert k v m = unless_found (find k m) m ((k, v) ∷ m)

  pub erase : List ℕ → List (List ℕ × V) → List (List ℕ × V)
  erase k [] = []
  erase k ((j, v) ∷ m) = if bytes_eq j k then erase k m else (j, v) ∷ erase k m

  pub find-insert :
      (k j : List ℕ) (v : V) (m : List (List ℕ × V))
      → find k m ≡ none
      → find j (insert k v m) ≡ (if bytes_eq k j then some v else find j m)
  unfolding insert find
  find-insert k j v m fresh = rw (fresh, insert)

  pub insert_taken :
      (k : List ℕ) (v w : V) (m : List (List ℕ × V)) → find k m ≡ some w → insert k v m ≡ m
  unfolding insert
  insert_taken k v w m e = rw (e, insert)

  pub find-erase :
      (k j : List ℕ) (m : List (List ℕ × V))
      → find j (erase k m) ≡ (if bytes_eq k j then none else find j m)
  unfolding find erase
  find-erase k j [] = ground arith
  find-erase k j ((i, v) ∷ m) =
      ground (arith, bytes_eq_iff k j, bytes_eq_iff i k, bytes_eq_iff i j, find-erase k j m)
