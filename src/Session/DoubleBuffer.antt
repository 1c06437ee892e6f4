-- ===== src/Session/DoubleBuffer.antt =====
-- DoubleBuffer.cpp: the queue between the packet thread and the database thread, which is written
-- at one end and read, after a swap, at the other. `spinLock` is the field `locked`; each function
-- here is one that finds it free. What two threads can do to one another is in `Race`.
pub mod Fifo
pub mod Race
pub mod Examples
use unreal5_gas.Base.{
  ℕ, ◌+◌, ◌≡◌, Bool, true, false, not, ◌&&◌, Option, none, some, List, [], ◌∷◌, ◌++◌, if◌then◌else◌,
}
use unreal5_gas.Session.Packet.{PacketInfo}

pub record DoubleBuffer : Type 0 where
  pub read_queue : List PacketInfo
  pub write_queue : List PacketInfo
  pub locked : Bool
  pub swap_count : ℕ

unfoldable pub new_buffer : DoubleBuffer
new_buffer = record { read_queue = []; write_queue = []; locked = false; swap_count = 0 }

-- `std::queue::empty`.
abbrev pub is_empty : List PacketInfo → Bool
is_empty [] = true
is_empty (p ∷ ps) = false

unfoldable pub enqueue_write_packet : PacketInfo → DoubleBuffer → DoubleBuffer
enqueue_write_packet p b = record b { write_queue = b.write_queue ++ (p ∷ []) }

-- `while (!WriteQueue.empty()) WriteQueue.pop();`
pub pop_all : List PacketInfo → List PacketInfo
pop_all [] = []
pop_all (p ∷ ps) = pop_all ps

-- `swap(ReadQueue, WriteQueue)` with the loop after it.
swap_and_clear : DoubleBuffer → DoubleBuffer
swap_and_clear b = record b {
  read_queue = b.write_queue;
  write_queue = pop_all b.read_queue;
  swap_count = b.swap_count + 1;
}

unfoldable pub swap_queue : DoubleBuffer → DoubleBuffer
unfolding swap_and_clear pop_all
swap_queue b =
    if is_empty b.read_queue && is_empty b.write_queue
    then b
    else if not (is_empty b.read_queue)
    then b
    else swap_and_clear b

-- The pointer that the code returns is to an element that it has just popped; here it is the
-- element.
abbrev pop_front : List PacketInfo → DoubleBuffer → Option PacketInfo × DoubleBuffer
pop_front [] b = (none, b)
pop_front (p ∷ ps) b = (some p, record b { read_queue = ps })

unfoldable pub dequeue_read_packet : DoubleBuffer → Option PacketInfo × DoubleBuffer
dequeue_read_packet b = pop_front b.read_queue b

-- The queue that the two halves stand for, oldest first.
abbrev pub contents : DoubleBuffer → List PacketInfo
contents b = b.read_queue ++ b.write_queue
