-- ===== src/Session/IocpServer/Slots.antt =====
-- IOCPServer.h: when a slot is offered to a new client.
use unreal5_gas.Base.{
  ℕ, ◌+◌, ◌≤◌, ◌<◌, ◌≡◌, refl, true, false, Option, none, some, List, [], ◌∷◌, arith, All, ltb, ◌⊎◌,
  if◌then◌else◌, Bool-cases, inl, inr,
}
use unreal5_gas.Session.ClientInfo.{ClientInfo, IoResult, close, post_accept, uint32_max}
use unreal5_gas.Session.IocpServer.{offer, accepter_thread, get_empty_client_info}

-- Once a free slot was offered it is not offered again, however many rounds come before its clock
-- reaches `UINT32_MAX` and whatever `WSASocket` and `AcceptEx` returned: also a slot for which they
-- failed is never offered again.
pub offer_once :
    (now later : ℕ) (made made' : Option ℕ) (accepted accepted' : IoResult) (c : ClientInfo)
    → c.is_connect ≡ false
    → c.latest_closed_time_sec + 3 < now
    → later < uint32_max
    → offer later made' accepted' (offer now made accepted c) ≡ offer now made accepted c
unfolding offer post_accept
offer_once now later made made' accepted accepted' c free waited early = ground arith

-- A slot that was closed is offered again after more than three seconds, and not before.
pub offer-close :
    (closed now : ℕ) (made : Option ℕ) (accepted : IoResult) (c : ClientInfo)
    → offer now made accepted (close closed c) ≡ (
        if ltb (closed + 3) now
        then (post_accept made accepted (close closed c)).1
        else close closed c)
unfolding offer close
offer-close closed now made accepted c = ground arith

-- The accepter leaves a slot in use alone.
abbrev IsSettled : ℕ → ClientInfo → Type 0
IsSettled now c = (c.is_connect ≡ true) ⊎ (now ≤ c.latest_closed_time_sec + 3)

-- A round offers nothing where every slot is in use or was closed or offered too recently.
pub accepter_thread_settled :
    (now : ℕ) (made : ℕ → Option ℕ) (accepted : ℕ → IoResult) (cs : List ClientInfo)
    → All (IsSettled now) cs
    → accepter_thread now made accepted cs ≡ cs
unfolding accepter_thread offer
accepter_thread_settled now made accepted [] h = refl
accepter_thread_settled now made accepted (c ∷ cs) (h, hs) =
    let rest = accepter_thread_settled now made accepted cs hs in ground (arith, rest)

-- What `GetEmptyClientInfo` may return.
abbrev FindsFree : List ClientInfo → Option ClientInfo → Type 0
FindsFree cs none = All (λ c. c.is_connect ≡ true) cs
FindsFree cs (some c) = c.is_connect ≡ false

FindsFree-skip :
    (c : ClientInfo) (cs : List ClientInfo) (o : Option ClientInfo)
    → c.is_connect ≡ true
    → FindsFree cs o
    → FindsFree (c ∷ cs) o
FindsFree-skip c cs none used h = (used, h)
FindsFree-skip c cs (some d) used h = h

-- `GetEmptyClientInfo` finds nothing only if every slot is in use, and what it finds is free.
pub get_empty_client_info-FindsFree :
    (cs : List ClientInfo) → FindsFree cs (get_empty_client_info cs)
unfolding get_empty_client_info
get_empty_client_info-FindsFree [] = tt
get_empty_client_info-FindsFree (c ∷ cs) =
    let rest = get_empty_client_info-FindsFree cs in
    elim (Bool-cases c.is_connect) [
      | inl used ↦ simp used (FindsFree-skip c cs (get_empty_client_info cs) used rest)
      | inr free ↦ simp free
    ]
