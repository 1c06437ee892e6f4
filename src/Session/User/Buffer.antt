-- ===== src/Session/User/Buffer.antt =====
-- The receive buffer of User.h as a byte stream: what `SetPacketData` and its compaction keep.
use unreal5_gas.Base.{
  ℕ, ◌+◌, ◌-◌, ◌≤◌, ◌<◌, ◌≡◌, refl, ◌⊎◌, inl, inr, ap, ◌∙◌, Option, none, some, List, ◌++◌, arith,
  true, false, ◌^◌, ◌||◌, leb, ltb, length, Bool-cases,
}
use unreal5_gas.Base.Slices.{
  slice, write, slice-write, slice-write_zero, length-write, length-slice,
}
use unreal5_gas.Session.User.{
  User, IsValid, unread, store, compact, after_compact, set_packet_data, packet_data_buffer_size,
  add32, sub32,
}

-- What a write of `bytes` promises.
abbrev pub IsStored : List ℕ → User → Option User → Type 0
IsStored bytes u none = ⊥
IsStored bytes u (some v) = IsValid v × (unread v ≡ unread u ++ bytes)

store-IsStored :
    (bytes : List ℕ) (u : User)
    → IsValid u
    → u.w_pos + length bytes ≤ packet_data_buffer_size
    → IsStored bytes u (store bytes u)
unfolding store
store-IsStored bytes u v fits =
    elim (Bool-cases (leb (u.w_pos + length bytes) (length u.packet_data_buffer))) [
      | inl e ↦ rw e (
        record {
          allocated = length-write u.packet_data_buffer u.w_pos bytes (ground arith) ∙ v.allocated;
          read_le = omega arith;
          written_le = omega arith;
        },
        ap (λ n. slice u.r_pos (n - u.r_pos) (write u.packet_data_buffer u.w_pos bytes)) no_wrap
            ∙ slice-write u.r_pos u.w_pos u.packet_data_buffer bytes v.read_le (ground arith),
      )
      | inr e ↦ absurd (ground arith)
    ]
  where
    no_wrap : add32 u.w_pos (length bytes) ≡ u.w_pos + length bytes
    no_wrap = omega arith

store-none :
    (bytes : List ℕ) (u : User)
    → IsValid u
    → packet_data_buffer_size < u.w_pos + length bytes
    → store bytes u ≡ none
unfolding store
store-none bytes u v over = ground arith

-- What the compaction promises.
abbrev IsCompacted : User → Option User → Type 0
IsCompacted u none = ⊥
IsCompacted u (some v) =
    IsValid v × (unread v ≡ unread u) × (v.w_pos ≡ u.w_pos - u.r_pos) × (v.r_pos ≡ 0)

compact-IsCompacted :
    (u : User) → IsValid u → u.w_pos - u.r_pos ≤ u.r_pos → IsCompacted u (compact u)
unfolding compact
compact-IsCompacted u v apart = elim (Bool-cases (ltb 0 (u.w_pos - u.r_pos))) [
  | inl e ↦
      rw (no_wrap, e, in_range)
        (
          record {
            allocated =
                length-write u.packet_data_buffer 0 moved (omega (arith, moved_len)) ∙ v.allocated;
            read_le = omega arith;
            written_le = omega arith;
          },
          ap (λ n. slice 0 n (write u.packet_data_buffer 0 moved)) (omega (arith, moved_len))
              ∙ slice-write_zero u.packet_data_buffer moved,
          refl,
          refl,
        )
  | inr e ↦
      rw (no_wrap, e)
        (
          record { allocated = v.allocated; read_le = omega arith; written_le = omega arith },
          ap (λ n. slice u.r_pos n u.packet_data_buffer) {x = 0} (ground arith),
          ground arith,
          refl,
        )
]
  where
    no_wrap : sub32 u.w_pos u.r_pos ≡ u.w_pos - u.r_pos
    no_wrap = omega arith

    moved : List ℕ
    moved = slice u.r_pos (u.w_pos - u.r_pos) u.packet_data_buffer

    moved_len : length moved ≡ u.w_pos - u.r_pos
    moved_len = length-slice u.r_pos (u.w_pos - u.r_pos) u.packet_data_buffer (omega arith)

    in_range :
        (ltb u.r_pos (u.w_pos - u.r_pos)
          || ltb (length u.packet_data_buffer) (u.r_pos + (u.w_pos - u.r_pos)))
        ≡ false
    in_range = ground arith

compact-none : (u : User) → IsValid u → u.r_pos < u.w_pos - u.r_pos → compact u ≡ none
unfolding compact
compact-none u v overlap = ground arith

-- There is room for `n` more bytes: at the end, or at the front once the unread bytes are moved, and
-- then they do not overlap their new place.
abbrev pub HasRoom : ℕ → User → Type 0
HasRoom n u =
    (u.w_pos + n < packet_data_buffer_size)
    ⊎ ((u.w_pos - u.r_pos ≤ u.r_pos) × (u.w_pos - u.r_pos + n ≤ packet_data_buffer_size))

store_compacted :
    (bytes : List ℕ) (u : User) (c : Option User)
    → IsCompacted u c
    → u.w_pos - u.r_pos + length bytes ≤ packet_data_buffer_size
    → IsStored bytes u (after_compact bytes c)
store_compacted bytes u none h fits = h
store_compacted bytes u (some v) (valid, same, w, r) fits =
    weaken (store bytes v) (store-IsStored bytes v valid (omega arith))
  where
    weaken : (o : Option User) → IsStored bytes v o → IsStored bytes u o
    weaken none h = h
    weaken (some x) (ok, e) = (ok, e ∙ ap (λ b. b ++ bytes) same)

-- If there is room, the write succeeds, the buffer stays well-formed, and the unread bytes are
-- those before it followed by the new ones, whether or not the buffer was compacted.
pub set_packet_data-IsStored :
    (bytes : List ℕ) (u : User)
    → IsValid u
    → length bytes < 2 ^ 31
    → HasRoom (length bytes) u
    → IsStored bytes u (set_packet_data bytes u)
unfolding set_packet_data
set_packet_data-IsStored bytes u v small room =
    elim (Bool-cases (leb packet_data_buffer_size (add32 u.w_pos (length bytes)))) [
      | inl e ↦ rw e (
          store_compacted bytes u (compact u) (compact-IsCompacted u v (ground arith))
            (ground arith))
      | inr e ↦ rw e (store-IsStored bytes u v (ground arith))
    ]

full :
    (bytes : List ℕ) (u : User) (c : Option User)
    → IsCompacted u c
    → packet_data_buffer_size < u.w_pos - u.r_pos + length bytes
    → after_compact bytes c ≡ none
full bytes u none h over = refl
full bytes u (some v) (valid, _, w, r) over = store-none bytes v valid (omega arith)

-- Without room the write leaves the buffer, or copies between overlapping blocks: `SetPacketData`
-- has no check that refuses the data.
pub set_packet_data-none :
    (bytes : List ℕ) (u : User)
    → IsValid u
    → length bytes < 2 ^ 31
    → ¬ HasRoom (length bytes) u
    → set_packet_data bytes u ≡ none
unfolding set_packet_data
set_packet_data-none bytes u v small no_room = elim (Bool-cases (ltb u.r_pos (u.w_pos - u.r_pos))) [
  | inl e ↦ rw (wrap, compact-none u v (ground arith))
  | inr e ↦
      rw wrap (full bytes u (compact u) (compact-IsCompacted u v (ground arith)) (ground arith))
]
  where
    wrap : leb packet_data_buffer_size (add32 u.w_pos (length bytes)) ≡ true
    wrap = ground arith
