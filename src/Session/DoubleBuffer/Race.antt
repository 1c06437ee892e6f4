-- ===== src/Session/DoubleBuffer/Race.antt =====
-- DoubleBuffer.cpp between two threads. `EnqueueWritePacket` waits until the spin lock is free and
-- then pushes without taking it; `SwapQueue` takes the lock, swaps and empties the write queue. The
-- steps below are those of the code, one memory operation each.
use unreal5_gas.Base.{
  ℕ, ◌+◌, ◌≡◌, ◌≢◌, refl, sym, ap, subst, ◌∙◌, ◌⊎◌, inl, inr, Bool, true, false, List, [], ◌∷◌,
  ◌++◌, append-nil, append_assoc,
}
use unreal5_gas.Session.Packet.{PacketInfo}
use unreal5_gas.Session.DoubleBuffer.{DoubleBuffer, contents}

-- Where the writing thread stands: outside, or past the test of the lock with a packet to push.
pub data Writer : Type 0 where
  outside : Writer
  past_test : PacketInfo → Writer

-- Where the reading thread stands in `SwapQueue`.
pub data Reader : Type 0 where
  outside locked_it clearing : Reader

pub record Machine : Type 0 where
  pub buffer : DoubleBuffer
  pub writer : Writer
  pub reader : Reader
  -- What was pushed and what was read, oldest first.
  pub pushed : List PacketInfo
  pub delivered : List PacketInfo

-- The steps. With `excluded` the writer pushes only while the reader is outside `SwapQueue`, which
-- is what the lock is meant for; the code has no such condition.
pub data Step (excluded : Bool) : Machine → Machine → Type 0 where
  pass_test :
      (m : Machine) (p : PacketInfo)
      → m.writer ≡ Writer.outside
      → m.buffer.locked ≡ false
      → Step excluded m (record m { writer = past_test p })
  push :
      (m : Machine) (p : PacketInfo)
      → m.writer ≡ past_test p
      → (excluded ≡ false) ⊎ (m.reader ≡ Reader.outside)
      → Step excluded m (record m {
        buffer = record (m.buffer) { write_queue = m.buffer.write_queue ++ (p ∷ []) };
        writer = Writer.outside;
        pushed = m.pushed ++ (p ∷ []);
      })
  lock :
      (m : Machine)
      → m.reader ≡ Reader.outside
      → m.buffer.read_queue ≡ []
      → m.buffer.write_queue ≢ []
      → m.buffer.locked ≡ false
      → Step excluded m
          (record m { buffer = record (m.buffer) { locked = true }; reader = locked_it })
  exchange :
      (m : Machine)
      → m.reader ≡ locked_it
      → Step excluded m (record m {
        buffer = record (m.buffer) {
          read_queue = m.buffer.write_queue;
          write_queue = m.buffer.read_queue;
        };
        reader = clearing;
      })
  pop :
      (m : Machine) (p : PacketInfo) (ps : List PacketInfo)
      → m.reader ≡ clearing
      → m.buffer.write_queue ≡ p ∷ ps
      → Step excluded m (record m { buffer = record (m.buffer) { write_queue = ps } })
  unlock :
      (m : Machine)
      → m.reader ≡ clearing
      → m.buffer.write_queue ≡ []
      → Step excluded m (record m {
        buffer = record (m.buffer) { locked = false; swap_count = m.buffer.swap_count + 1 };
        reader = Reader.outside;
      })
  take :
      (m : Machine) (p : PacketInfo) (ps : List PacketInfo)
      → m.reader ≡ Reader.outside
      → m.buffer.locked ≡ false
      → m.buffer.read_queue ≡ p ∷ ps
      → Step excluded m (record m {
        buffer = record (m.buffer) { read_queue = ps };
        delivered = m.delivered ++ (p ∷ []);
      })

pub data Reach (excluded : Bool) (s : Machine) : Machine → Type 0 where
  here : Reach excluded s s
  next : {t u : Machine} → Reach excluded s t → Step excluded t u → Reach excluded s u

-- What holds of the queues while the reader stands in `SwapQueue`.
abbrev pub IsQuiet : Reader → DoubleBuffer → Type 0
IsQuiet Reader.outside b = Unit {0}
IsQuiet locked_it b = b.read_queue ≡ []
IsQuiet clearing b = b.write_queue ≡ []

IsQuiet-outside : (r : Reader) (b : DoubleBuffer) → r ≡ Reader.outside → IsQuiet r b
IsQuiet-outside r b e = subst (λ x. IsQuiet x b) (sym e) tt

-- Nothing lost: what was delivered and what is held is what was pushed.
pub record IsLossless (m : Machine) : Type 0 where
  pub quiet : IsQuiet m.reader m.buffer
  pub complete : m.delivered ++ contents m.buffer ≡ m.pushed

Step-IsLossless : {m n : Machine} → Step true m n → IsLossless m → IsLossless n
Step-IsLossless (pass_test m p e f) v = record { quiet = v.quiet; complete = v.complete }
Step-IsLossless (push m p e (inl f)) v = cc
Step-IsLossless (push m p e (inr f)) v = record {
  quiet = IsQuiet-outside m.reader _ f;
  complete =
      ap (◌++◌ m.delivered) (sym (append_assoc m.buffer.read_queue m.buffer.write_queue (p ∷ [])))
      ∙ sym (append_assoc m.delivered (contents m.buffer) (p ∷ []))
      ∙ ap (λ xs. xs ++ (p ∷ [])) v.complete;
}
Step-IsLossless (lock m e f w g) v = record { quiet = f; complete = v.complete }
Step-IsLossless (exchange m e) v =
    let h : m.buffer.read_queue ≡ [] = subst (λ r. IsQuiet r m.buffer) e v.quiet in
    record {
      quiet = h;
      complete =
          ap (◌++◌ m.delivered) (
            ap (◌++◌ m.buffer.write_queue) h
            ∙ append-nil m.buffer.write_queue
            ∙ ap (λ r. r ++ m.buffer.write_queue) (sym h))
          ∙ v.complete;
    }
Step-IsLossless (pop m p ps e f) v =
    let h : m.buffer.write_queue ≡ [] = subst (λ r. IsQuiet r m.buffer) e v.quiet in cc
Step-IsLossless (unlock m e f) v = record { quiet = tt; complete = v.complete }
Step-IsLossless (take m p ps e f g) v = record {
  quiet = IsQuiet-outside m.reader _ e;
  complete =
      append_assoc m.delivered (p ∷ []) (ps ++ m.buffer.write_queue)
      ∙ ap (λ r. m.delivered ++ (r ++ m.buffer.write_queue)) (sym g)
      ∙ v.complete;
}

-- If no push comes between the test of the lock and the end of a swap, no packet is ever lost, in any
-- interleaving of the two threads: what was delivered followed by what is held is what was pushed.
pub Reach-IsLossless : {m n : Machine} → IsLossless m → Reach true m n → IsLossless n
Reach-IsLossless v here = v
Reach-IsLossless v (next r st) = Step-IsLossless st (Reach-IsLossless v r)

-- A machine at rest: both threads outside and the lock free.
abbrev pub at_rest :
    List PacketInfo → List PacketInfo → ℕ → List PacketInfo → List PacketInfo → Machine
at_rest r w n pushed delivered = record {
  buffer = record { read_queue = r; write_queue = w; locked = false; swap_count = n };
  writer = Writer.outside;
  reader = Reader.outside;
  pushed = pushed;
  delivered = delivered;
}

-- The code as it stands loses packets: whenever the reader has run dry and packets wait, a push of
-- any packet `p` whose test of the lock comes before the swap and whose push comes after it is
-- counted as pushed, and is afterwards neither delivered nor held.
pub swap_loses_push :
    (w : PacketInfo) (ws : List PacketInfo) (p : PacketInfo) (n : ℕ)
    (pushed delivered : List PacketInfo)
    → Reach false
        (at_rest [] (w ∷ ws) n pushed delivered)
        (at_rest (w ∷ ws) [] (n + 1) (pushed ++ (p ∷ [])) delivered)
swap_loses_push w ws p n pushed delivered =
    next
      (next
        (next
          (next (next (next here (pass_test _ p refl refl)) (lock _ refl refl (λ e. cc) refl))
            (exchange _ refl))
          (push _ p refl (inl refl)))
        (pop _ p [] refl refl))
      (unlock _ refl refl)
