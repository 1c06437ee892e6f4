-- ===== src/Game/LoadScreen/Finding.antt =====
-- MVVM_LoadScreen.cpp: the slots that the buttons of the load screen find, and their games.
use unreal5_gas.Base.{
  ℕ, ◌≡◌, ◌≢◌, ◌⊎◌, refl, sym, ap, ◌∙◌, subst, inl, inr, false, some, List, [], ◌∷◌, ◌++◌, ◌==◌,
  if◌then◌else◌, arith, Bool-cases, ==_iff, All,
}
use unreal5_gas.Game.Slots.{
  Name, Serializer, SaveGame, SaveSystem, get_save_slot_data, get_save_slot_data-saved,
  get_save_slot_data-other, get_save_slot_data-other_deleted,
}
use unreal5_gas.Game.LoadScreen.{
  LoadSlot, find_slot, set_slot, find_map, add_map, enable_buttons, game_of, save_slot_data,
  loaded_slot, load_slots_from,
}

pub find-set :
    (k : ℕ) (l old : LoadSlot) (slots : List (ℕ × LoadSlot))
    → find_slot k slots ≡ some old
    → find_slot k (set_slot k l slots) ≡ some l
unfolding find_slot set_slot
find-set k l old [] e = cc
find-set k l old ((j, m) ∷ slots) e = elim (Bool-cases (j == k)) [
  | inl hit ↦ rw (hit, hit) refl
  | inr miss ↦ rw (miss, miss) (find-set k l old slots (ground (arith, miss)))
]

pub All-set {ℓ} :
    (P : ℕ × LoadSlot → Type ℓ) (k : ℕ) (l : LoadSlot) (slots : List (ℕ × LoadSlot))
    → All P slots
    → P (k, l)
    → All P (set_slot k l slots)
unfolding set_slot
All-set P k l [] all h = tt
All-set P k l ((j, m) ∷ slots) (p, ps) h = elim (Bool-cases (j == k)) [
  | inl hit ↦ rw hit (subst (λ i. P (i, l)) (sym ((==_iff j k).0 hit)) h, ps)
  | inr miss ↦ rw miss (p, All-set P k l slots ps h)
]

-- The slot that is selected has its button off.
abbrev pub chosen : LoadSlot → LoadSlot
chosen l = record l { enable_select_slot_button = l.enable_select_slot_button ++ (false ∷ []) }

pub find-enable :
    (k : ℕ) (slots : List (ℕ × LoadSlot)) (l : LoadSlot)
    → find_slot k slots ≡ some l
    → find_slot k (enable_buttons k slots) ≡ some (chosen l)
unfolding find_slot enable_buttons
find-enable k [] l e = cc
find-enable k ((j, m) ∷ slots) l e = elim (Bool-cases (j == k)) [
  | inl hit ↦ let same : m ≡ l = ground (arith, hit) in rw hit (ap (λ x. some (chosen x)) same)
  | inr miss ↦ rw miss (find-enable k slots l (ground (arith, miss)))
]

pub find-add_map :
    (name asset : Name) (maps : List (Name × Name))
    → find_map name (add_map name asset maps) ≡ some asset
unfolding find_map add_map
find-add_map name asset [] = ground arith
find-add_map name asset ((m, a) ∷ maps) = elim (Bool-cases (m == name)) [
  | inl hit ↦ rw (hit, hit) refl
  | inr miss ↦ rw (miss, miss) (find-add_map name asset maps)
]

module _ {z : Serializer} {F : Type 0} (s : SaveSystem (SaveGame z F)) where
  -- A slot's game is there, or can be made.
  abbrev pub IsReadable : s.Disk → ℕ × LoadSlot → Type 0
  IsReadable d e = (g : SaveGame z F) × (get_save_slot_data s e.1.load_slot_name e.0 d ≡ some g)

  pub load_slots_from-find :
      (d : s.Disk) (slots : List (ℕ × LoadSlot))
      → All (IsReadable d) slots
      → (loaded : List (ℕ × LoadSlot)) × (load_slots_from s d slots ≡ some loaded)
        × ((k : ℕ) (l : LoadSlot) (g : SaveGame z F)
            → find_slot k slots ≡ some l
            → get_save_slot_data s l.load_slot_name k d ≡ some g
            → find_slot k loaded ≡ some (loaded_slot s g l))
  unfolding load_slots_from find_slot
  load_slots_from-find d [] all = ([], refl, λ k l g e. cc)
  load_slots_from-find d ((j, m) ∷ slots) ((g, e), ps) =
      let (rest, r, finds) = load_slots_from-find d slots ps in
      (
        (j, loaded_slot s g m) ∷ rest,
        rw (e, r) refl,
        λ k l h found there. elim (Bool-cases (j == k)) [
          | inl hit ↦
              let same : m ≡ l = ground (arith, hit) in
              let there' : get_save_slot_data s m.load_slot_name j d ≡ some h =
                ap (λ i. get_save_slot_data s m.load_slot_name i d) ((==_iff j k).0 hit)
                ∙ ap (λ x. get_save_slot_data s x.load_slot_name k d) same
                ∙ there in
              let as_saved : g ≡ h = cc (e, there') in
              rw hit (
                ap (λ x. some (loaded_slot s x m)) as_saved
                ∙ ap (λ x. some (loaded_slot s h x)) same)
          | inr miss ↦ rw miss (finds k l h (ground (arith, miss)) there)
        ],
      )

  -- The slots of other keys have other names than the slot of key `k`.
  abbrev pub IsAlone : ℕ → Name → ℕ × LoadSlot → Type 0
  IsAlone k name e = (e.0 ≡ k) ⊎ (e.1.load_slot_name ≢ name)

  pub get-save_slot_data :
      (l : LoadSlot) (k : ℕ) (d : s.Disk)
      → get_save_slot_data s l.load_slot_name k (save_slot_data s l k d) ≡ some (game_of s l)
  unfolding save_slot_data
  get-save_slot_data l k d =
      get_save_slot_data-saved s (game_of s l) l.load_slot_name k
        (if s.does_exist l.load_slot_name k d then s.delete_in_slot l.load_slot_name k d else d)

  pub get-save_slot_data_other :
      (l : LoadSlot) (k : ℕ) (m : Name) (j : ℕ) (d : s.Disk)
      → l.load_slot_name ≢ m
      → get_save_slot_data s m j (save_slot_data s l k d) ≡ get_save_slot_data s m j d
  unfolding save_slot_data
  get-save_slot_data_other l k m j d ne = elim (Bool-cases (s.does_exist l.load_slot_name k d)) [
    | inl there ↦
        rw (save_slot_data, there)
          (get_save_slot_data-other s (game_of s l) l.load_slot_name m k j
              (s.delete_in_slot l.load_slot_name k d) ne
            ∙ get_save_slot_data-other_deleted s l.load_slot_name m k j d ne)
    | inr missing ↦
        rw (save_slot_data, missing)
          (get_save_slot_data-other s (game_of s l) l.load_slot_name m k j d ne)
  ]

  -- A slot that could be read still can, once another game is started.
  pub save-IsReadable :
      (l : LoadSlot) (k : ℕ) (d : s.Disk) (e : ℕ × LoadSlot)
      → IsReadable d e
      → IsAlone k l.load_slot_name e
      → IsReadable (save_slot_data s l k d) e
  save-IsReadable l k d e (g, there) alone =
      elim (Bool-cases (e.1.load_slot_name == l.load_slot_name)) [
        | inr other ↦ (
          g,
          get-save_slot_data_other l k e.1.load_slot_name e.0 d (ground (arith, other)) ∙ there,
        )
        | inl same ↦
            let name : e.1.load_slot_name ≡ l.load_slot_name =
              (==_iff e.1.load_slot_name l.load_slot_name).0 same in
            let key : e.0 ≡ k = elim alone [ inl y ↦ y | inr n ↦ absurd (n name) ] in
            (
              game_of s l,
              ap (λ n. get_save_slot_data s n e.0 (save_slot_data s l k d)) name
                  ∙ ap (λ i. get_save_slot_data s l.load_slot_name i (save_slot_data s l k d)) key
                  ∙ get-save_slot_data l k d,
            )
      ]
