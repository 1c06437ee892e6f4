-- ===== src/Session/IocpServer/Completions.antt =====
-- IOCPServer.h: what a completion does to the slots and to the packet manager.
use unreal5_gas.Base.{
  ℕ, ◌≡◌, refl, ◌∙◌, true, false, none, some, arith, get_elem?, set, get_elem?-set, Bool-cases, inl,
  inr, ◌==◌, subst,
}
use mathlib.Core.Option.{some-injective}
use unreal5_gas.Base.Fallible.{>>=-eq-some}
use unreal5_gas.Session.ClientInfo.{ClientInfo, close, accept_completion}
use unreal5_gas.Session.IocpServer.{
  IocpServer, Completion, accept, woker_thread, close_socket, complete_accept, on_close, close_slot,
}

self_eq : (i : ℕ) → (i == i) ≡ true
self_eq i = ground arith

-- An accept that fails faults the worker: it is reported under the key of the listening socket, which
-- is null, and the slot to close is read through it.
pub woker_thread_failed_accept :
    (c : Completion) (s : IocpServer)
    → c.operation ≡ some accept
    → c.success ≡ false
    → c.key ≡ none
    → woker_thread c s ≡ none
unfolding woker_thread close_socket
woker_thread_failed_accept c s op failed key = ground arith

close_again :
    (i now later : ℕ) (s : IocpServer) (c : ClientInfo)
    → get_elem? s.client_infos i ≡ some c
    → close_socket (some i) later (close_slot i now c s) ≡ some (close_slot i now c s)
unfolding close_socket close
close_again i now later s c at_i = elim (Bool-cases c.is_connect) [
  | inl used ↦ rw used (rw (get_elem?-set s.client_infos i i c (close now c) at_i, self_eq i) refl)
  | inr free ↦ rw free (rw at_i (rw free refl))
]

-- Closing a connection twice is the same as closing it once: only the first call tells the packet
-- manager, and the time of closing stays that of the first.
pub close_socket_twice :
    (i now later : ℕ) (s t : IocpServer)
    → close_socket (some i) now s ≡ some t
    → close_socket (some i) later t ≡ some t
unfolding close_socket
close_socket_twice i now later s t e =
    let (c, at_i, closed) =
      >>=-eq-some (get_elem? s.client_infos i) (λ c. some (close_slot i now c s)) e in
    subst (λ x. close_socket (some i) later x ≡ some x) (some-injective _ _ closed)
      (close_again i now later s c at_i)

-- A completed accept whose slot cannot be bound or read from leaves the slot closed, and tells the
-- packet manager of a disconnection, though never of a connection.
pub complete_accept_refused :
    (c : Completion) (s : IocpServer) (slot : ClientInfo)
    → get_elem? s.client_infos c.session_index ≡ some slot
    → (accept_completion c.bound c.received slot).0 ≡ false
    → (t : IocpServer) × (d : ClientInfo) × (complete_accept c s ≡ some t)
      × (get_elem? t.client_infos c.session_index ≡ some d)
      × (d.is_connect ≡ false)
      × (t.client_cnt ≡ s.client_cnt)
      × (t.packets ≡ on_close slot.index s.packets)
unfolding complete_accept close_socket accept_completion close
complete_accept_refused c s slot at_slot refused =
    let open_slot : ClientInfo = record slot { is_connect = true } in
    let shut : ClientInfo = close c.now open_slot in
    let opened = set s.client_infos c.session_index open_slot in
    let at_open : get_elem? opened c.session_index ≡ some open_slot =
      get_elem?-set s.client_infos c.session_index c.session_index slot open_slot at_slot
      ∙ ground arith in
    (
      record s {
        client_infos = set opened c.session_index shut;
        packets = on_close slot.index s.packets;
      },
      shut,
      rw (at_slot, refused, at_open),
      get_elem?-set opened c.session_index c.session_index open_slot shut at_open ∙ ground arith,
      refl,
      refl,
      refl,
    )
