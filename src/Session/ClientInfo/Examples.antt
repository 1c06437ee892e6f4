-- ===== src/Session/ClientInfo/Examples.antt =====
-- Tests of ClientInfo.h's model.
use unreal5_gas.Base.{ℕ, ◌≡◌, refl, true, false, none, some, List, [], ◌∷◌, ◌++◌}
use unreal5_gas.Session.ClientInfo.{
  ClientInfo, handle, done, init, send_msg, send_completed, accept_completion, post_accept, close,
}
use unreal5_gas.Session.ClientInfo.Sending.{
  Event, send, complete, run, sent_in, Ordered, run-IsInOrder, stale_queue_blocks,
}

abbrev history : List Event
history = send (1 ∷ []) ∷ send (2 ∷ []) ∷ complete ∷ send (3 ∷ []) ∷ []

abbrev sending : ClientInfo
sending = record {
  index = 0;
  iocp_handle = handle 4;
  is_connect = false;
  latest_closed_time_sec = 0;
  socket = none;
  send_data_queue = (2 ∷ []) ∷ (3 ∷ []) ∷ [];
  issued = (1 ∷ []) ∷ (2 ∷ []) ∷ [];
}

run-IsInOrder_example :
    Ordered (sent_in history) 1 sending
    × ((rest : List (List ℕ)) × (sent_in history ≡ sending.issued ++ rest))
unfolding run init send_msg send_completed
run-IsInOrder_example = run-IsInOrder history 0 (handle 4) sending refl

stale_queue_blocks_example :
    let reused =
      (accept_completion (handle 4) done (post_accept (some 8) done (close 60 sending)).1).1 in
    (reused.is_connect ≡ true)
    × ((send_msg (7 ∷ []) reused).0 ≡ true)
    × ((send_msg (7 ∷ []) reused).1.issued ≡ (1 ∷ []) ∷ (2 ∷ []) ∷ [])
stale_queue_blocks_example =
    stale_queue_blocks (7 ∷ []) (2 ∷ []) ((3 ∷ []) ∷ []) sending 60 (some 8) done done (handle 4)
      refl
