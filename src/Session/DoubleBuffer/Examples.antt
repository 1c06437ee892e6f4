-- ===== src/Session/DoubleBuffer/Examples.antt =====
-- Tests of DoubleBuffer.cpp's model.
use unreal5_gas.Base.{ℕ, ◌≡◌, refl, inr, List, [], ◌∷◌, ◌++◌, false}
use unreal5_gas.Session.Packet.{PacketInfo, null}
use unreal5_gas.Session.DoubleBuffer.{
  new_buffer, contents, swap_queue, dequeue_read_packet, enqueue_write_packet,
}
use unreal5_gas.Session.DoubleBuffer.Fifo.{
  Call, enqueue, swap, dequeue, step, run, inputs, run_fifo,
}
use unreal5_gas.Session.DoubleBuffer.Race.{
  IsLossless, Reach-IsLossless, here, next, pass_test, push, at_rest, Reach, swap_loses_push,
}

abbrev packet : ℕ → PacketInfo
packet i = record { client_index = i; packet_id = 201; data_size = 71; data_ptr = null }

abbrev calls : List Call
calls = enqueue (packet 1) ∷ dequeue ∷ swap ∷ enqueue (packet 2) ∷ dequeue ∷ []

run-calls : (run calls new_buffer).0 ≡ packet 1 ∷ []
unfolding run step new_buffer swap_queue dequeue_read_packet enqueue_write_packet
run-calls = refl

run_fifo_example :
    (run calls new_buffer).0 ++ contents (run calls new_buffer).1
    ≡ contents new_buffer ++ inputs calls
run_fifo_example = run_fifo calls new_buffer

Reach-IsLossless_example : IsLossless (at_rest [] (packet 1 ∷ []) 0 (packet 1 ∷ []) [])
Reach-IsLossless_example =
    Reach-IsLossless {m = at_rest [] [] 0 [] []} (record { quiet = tt; complete = refl })
      (next (next here (pass_test _ (packet 1) refl refl)) (push _ (packet 1) refl (inr refl)))

swap_loses_push_example :
    Reach false
      (at_rest [] (packet 1 ∷ []) 0 (packet 1 ∷ []) [])
      (at_rest (packet 1 ∷ []) [] 1 (packet 1 ∷ packet 2 ∷ []) [])
swap_loses_push_example = swap_loses_push (packet 1) [] (packet 2) 0 (packet 1 ∷ []) []
