-- ===== src/Session/DoubleBuffer/Fifo.antt =====
-- DoubleBuffer.cpp used by one thread at a time is a queue.
use unreal5_gas.Base.{
  ◌≡◌, refl, sym, ap, ◌∙◌, Option, none, some, List, [], ◌∷◌, ◌++◌, append-nil, append_assoc, arith,
}
use unreal5_gas.Session.Packet.{PacketInfo}
use unreal5_gas.Session.DoubleBuffer.{
  DoubleBuffer, enqueue_write_packet, swap_queue, dequeue_read_packet, contents, pop_all,
}

pub data Call : Type 0 where
  enqueue : PacketInfo → Call
  swap dequeue : Call

pop_all-nil : (ps : List PacketInfo) → pop_all ps ≡ []
unfolding pop_all
pop_all-nil [] = refl
pop_all-nil (p ∷ ps) = pop_all-nil ps

contents-enqueue :
    (p : PacketInfo) (b : DoubleBuffer)
    → contents (enqueue_write_packet p b) ≡ contents b ++ (p ∷ [])
unfolding enqueue_write_packet
contents-enqueue p b = sym (append_assoc b.read_queue b.write_queue (p ∷ []))

by_queues :
    (b : DoubleBuffer) (r w : List PacketInfo)
    → b.read_queue ≡ r
    → b.write_queue ≡ w
    → contents (swap_queue b) ≡ contents b
unfolding swap_queue
by_queues b [] [] e f = ground arith
by_queues b [] (p ∷ ps) e f = rw (e, f, swap_queue) (append-nil (p ∷ ps))
by_queues b (p ∷ ps) w e f = ground arith

-- A swap loses nothing.
pub contents-swap : (b : DoubleBuffer) → contents (swap_queue b) ≡ contents b
contents-swap b = by_queues b b.read_queue b.write_queue refl refl

abbrev taken : Option PacketInfo → List PacketInfo
taken none = []
taken (some p) = p ∷ []

abbrev given : Call → List PacketInfo
given (enqueue p) = p ∷ []
given swap = []
given dequeue = []

-- What one call takes out of the queue, and the buffer after it.
unfoldable pub step : Call → DoubleBuffer → List PacketInfo × DoubleBuffer
step (enqueue p) b = ([], enqueue_write_packet p b)
step swap b = ([], swap_queue b)
step dequeue b = let (o, b') = dequeue_read_packet b in (taken o, b')

unfoldable pub run : List Call → DoubleBuffer → List PacketInfo × DoubleBuffer
run [] b = ([], b)
run (c ∷ cs) b = let (out, b') = step c b in let (rest, b'') = run cs b' in (out ++ rest, b'')

abbrev pub inputs : List Call → List PacketInfo
inputs [] = []
inputs (c ∷ cs) = given c ++ inputs cs

take-contents :
    (b : DoubleBuffer) (r : List PacketInfo)
    → b.read_queue ≡ r
    → (step dequeue b).0 ++ contents (step dequeue b).1 ≡ contents b ++ []
unfolding step dequeue_read_packet
take-contents b [] e = rw (e, append-nil) (ground arith)
take-contents b (p ∷ ps) e = rw (e, append-nil) (ground arith)

step-contents :
    (c : Call) (b : DoubleBuffer) → (step c b).0 ++ contents (step c b).1 ≡ contents b ++ given c
unfolding step
step-contents (enqueue p) b = contents-enqueue p b
step-contents swap b = contents-swap b ∙ sym (append-nil (contents b))
step-contents dequeue b = take-contents b b.read_queue refl

-- Whatever calls are made in whatever order, what comes out and what is still held is, in order,
-- what was held and what was put in: no packet is lost, duplicated or overtaken.
pub run_fifo :
    (cs : List Call) (b : DoubleBuffer)
    → (run cs b).0 ++ contents (run cs b).1 ≡ contents b ++ inputs cs
unfolding run
run_fifo [] b = sym (append-nil (contents b))
run_fifo (c ∷ cs) b =
    let out = (step c b).0 in
    let after = (step c b).1 in
    append_assoc out (run cs after).0 (contents (run cs after).1)
    ∙ ap (◌++◌ out) (run_fifo cs after)
    ∙ sym (append_assoc out (contents after) (inputs cs))
    ∙ ap (λ xs. xs ++ inputs cs) (step-contents c b)
    ∙ append_assoc (contents b) (given c) (inputs cs)

swap_then_dequeue :
    (b : DoubleBuffer) (p : PacketInfo) (ps r : List PacketInfo)
    → b.read_queue ≡ r
    → (dequeue_read_packet b).0 ≡ none
    → contents b ≡ p ∷ ps
    → ((dequeue_read_packet (swap_queue b)).0 ≡ some p)
      × (contents (dequeue_read_packet (swap_queue b)).1 ≡ ps)
unfolding dequeue_read_packet swap_queue
swap_then_dequeue b p ps [] e empty held =
    let f : b.write_queue ≡ p ∷ ps = ap (λ r. r ++ b.write_queue) (sym e) ∙ held in
    rw (e, f, swap_queue) (refl, append-nil ps)
swap_then_dequeue b p ps (q ∷ qs) e empty held = absurd (ground arith)

-- A reader that finds nothing, swaps and tries again gets the oldest packet, if there is one.
pub dequeue-swap_oldest :
    (b : DoubleBuffer) (p : PacketInfo) (ps : List PacketInfo)
    → (dequeue_read_packet b).0 ≡ none
    → contents b ≡ p ∷ ps
    → ((dequeue_read_packet (swap_queue b)).0 ≡ some p)
      × (contents (dequeue_read_packet (swap_queue b)).1 ≡ ps)
dequeue-swap_oldest b p ps = swap_then_dequeue b p ps b.read_queue refl
