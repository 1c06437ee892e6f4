-- ===== src/Session/DbAgent/Faults.antt =====
-- DBAgent.cpp: the inputs at which the database thread faults.
use unreal5_gas.Base.{
  ℕ, suc, ◌≡◌, refl, Bool, true, false, Option, none, some, List, arith, ◌⊎◌, ◌↔◌,
}
use unreal5_gas.Base.Fallible.{◌>>=◌}
use unreal5_gas.Base.Int.{ℤ, pos, negsuc}
use unreal5_gas.Session.Packet.{in_buffer, PacketInfo}
use unreal5_gas.Session.DoubleBuffer.{dequeue_read_packet}
use unreal5_gas.Session.PacketManager.{Server}
use unreal5_gas.Session.DbAgent.{
  Handle, closed, Outcome, process_login_query, process_queue, serve, delete_array,
}

-- The thread faults whenever it finds nothing to read, also at its start: behind the test for the
-- null pointer stands a read through it.
pub process_queue_empty :
    (mysql : List ℕ → Outcome) (pw : List ℕ) (h : Handle) (s : Server)
    → (dequeue_read_packet s.db_queue).0 ≡ none
    → process_queue mysql pw h s ≡ none
unfolding process_queue
process_queue_empty mysql pw h s empty = rw empty

>>=-none {ℓ κ} :
    {A : Type ℓ} {B : Type κ} (m : Option A) (f : A → Option B)
    → ((a : A) → f a ≡ none)
    → (m >>= f) ≡ none
>>=-none none f h = refl
>>=-none (some a) f h = h a

delete_array_inside :
    (i : ℤ) (offset : ℕ) (s : Server) → delete_array (in_buffer i (suc offset)) s ≡ none
unfolding delete_array
delete_array_inside (pos i) offset s = refl
delete_array_inside (negsuc i) offset s = refl

-- It faults at every request that points into a user's receive buffer beyond its start, whatever the
-- database says: it deletes a pointer into the middle of a block.
pub process_queue_in_buffer :
    (mysql : List ℕ → Outcome) (pw : List ℕ) (h : Handle) (s : Server) (p : PacketInfo) (i : ℤ)
    (offset : ℕ)
    → (dequeue_read_packet s.db_queue).0 ≡ some p
    → p.data_ptr ≡ in_buffer i (suc offset)
    → process_queue mysql pw h s ≡ none
unfolding process_queue
process_queue_in_buffer mysql pw h s p i offset taken inside = rw taken (
    >>=-none (serve mysql pw p h (record s { db_queue = (dequeue_read_packet s.db_queue).1 }))
      (λ r. delete_array p.data_ptr r.1 >>= λ s'. some (r.0, s'))
      λ r. rw (inside, delete_array_inside i offset r.1))

-- One exchange faults exactly when it closes a connection twice: the database cannot be connected to,
-- or the library cannot be initialised after an exchange that closed the last connection.
pub process_login_query_fault :
    (o : Outcome) (result : Bool) (h : Handle)
    → (process_login_query o result h ≡ none)
      ↔ (((o.init_fails ≡ false) × (o.connects ≡ false)) ⊎ ((o.init_fails ≡ true) × (h ≡ closed)))
unfolding process_login_query
process_login_query_fault o result h = (λ e. by_rows o.rows refl e, λ c. ground arith)
  where
    by_rows :
        (r : Option ℕ)
        → o.rows ≡ r
        → process_login_query o result h ≡ none
        → ((o.init_fails ≡ false) × (o.connects ≡ false)) ⊎ ((o.init_fails ≡ true) × (h ≡ closed))
    by_rows none e f = ground arith
    by_rows (some n) e f = ground arith
