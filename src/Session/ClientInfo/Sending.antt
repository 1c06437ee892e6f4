-- ===== src/Session/ClientInfo/Sending.antt =====
-- ClientInfo.h: messages are handed to `WSASend` one at a time and in order.
use unreal5_gas.Base.{
  ℕ, suc, ◌+◌, ◌≡◌, ◌≢◌, refl, sym, ap, ◌∙◌, Bool, true, Option, some, List, [], ◌∷◌, ◌++◌, arith,
  length, append_assoc, append-nil, length-append, subst,
}
use mathlib.Core.Option.{some-injective}
use unreal5_gas.Base.Fallible.{◌>>=◌}
use unreal5_gas.Session.ClientInfo.{
  ClientInfo, init, HandleValue, IoResult, send_msg, send_completed, close, post_accept,
  accept_completion,
}

abbrev first : List (List ℕ) → List (List ℕ)
first [] = []
first (m ∷ ms) = m ∷ []

-- Of the messages `sent` so far, oldest first, `completed` are done, the rest wait in the queue, and
-- just the completed ones and the oldest waiting one were handed to `WSASend`.
pub record IsInOrder (sent completed : List (List ℕ)) (c : ClientInfo) : Type 0 where
  pub waiting : sent ≡ completed ++ c.send_data_queue
  pub one_at_once : c.issued ≡ completed ++ first c.send_data_queue

init-IsInOrder : (i : ℕ) (h : HandleValue) → IsInOrder [] [] (init i h)
unfolding init
init-IsInOrder i h = record { waiting = refl; one_at_once = refl }

send_msg-idle :
    (m : List ℕ) (c : ClientInfo)
    → c.send_data_queue ≡ []
    → send_msg m c ≡ (true, record c { send_data_queue = m ∷ []; issued = c.issued ++ (m ∷ []) })
unfolding send_msg
send_msg-idle m c e = simp e

-- While a message waits, another one is only queued; and `SendMsg` says true, whatever becomes of it.
-- So once `WSASend` has failed, and no completion comes, nothing more is ever sent.
pub send_msg_waiting :
    (m x : List ℕ) (xs : List (List ℕ)) (c : ClientInfo)
    → c.send_data_queue ≡ x ∷ xs
    → send_msg m c ≡ (true, record c { send_data_queue = c.send_data_queue ++ (m ∷ []) })
unfolding send_msg
send_msg_waiting m x xs c e = ground (arith, ap length e, length-append c.send_data_queue (m ∷ []))

sent-IsInOrder :
    (sent completed : List (List ℕ)) (m : List ℕ) (c : ClientInfo) (q : List (List ℕ))
    → c.send_data_queue ≡ q
    → IsInOrder sent completed c
    → IsInOrder (sent ++ (m ∷ [])) completed (send_msg m c).1
sent-IsInOrder sent completed m c [] e v = rw (send_msg-idle m c e) (record {
  waiting = ap (λ xs. xs ++ (m ∷ [])) (v.waiting ∙ ap (◌++◌ completed) e ∙ append-nil completed);
  one_at_once =
      ap (λ xs. xs ++ (m ∷ []))
        (v.one_at_once ∙ ap (λ q. completed ++ first q) e ∙ append-nil completed);
})
sent-IsInOrder sent completed m c (x ∷ xs) e v = rw (send_msg_waiting m x xs c e) (record {
  waiting = ap (λ ms. ms ++ (m ∷ [])) v.waiting ∙ append_assoc completed c.send_data_queue (m ∷ []);
  one_at_once =
      v.one_at_once
      ∙ ap (λ q. completed ++ first q) e
      ∙ ap (λ q. completed ++ first (q ++ (m ∷ []))) (sym e);
})

-- Sending one more message keeps the order, and hands it to `WSASend` only if none waits.
pub send_msg-IsInOrder :
    (sent completed : List (List ℕ)) (m : List ℕ) (c : ClientInfo)
    → IsInOrder sent completed c
    → IsInOrder (sent ++ (m ∷ [])) completed (send_msg m c).1
send_msg-IsInOrder sent completed m c v = sent-IsInOrder sent completed m c c.send_data_queue refl v

-- The completion of the oldest message keeps the order, and hands the next one to `WSASend`.
pub send_completed-IsInOrder :
    (sent completed : List (List ℕ)) (m : List ℕ) (ms : List (List ℕ)) (c : ClientInfo)
    → IsInOrder sent completed c
    → c.send_data_queue ≡ m ∷ ms
    → (d : ClientInfo) × (send_completed c ≡ some d) × IsInOrder sent (completed ++ (m ∷ [])) d
unfolding send_completed
send_completed-IsInOrder sent completed m [] c v e = (
  record c { send_data_queue = [] },
  rw e,
  record {
    waiting = v.waiting ∙ ap (◌++◌ completed) e ∙ sym (append-nil (completed ++ (m ∷ [])));
    one_at_once =
        v.one_at_once ∙ ap (λ q. completed ++ first q) e ∙ sym (append-nil (completed ++ (m ∷ [])));
  },
)
send_completed-IsInOrder sent completed m (n ∷ ns) c v e = (
  record c { send_data_queue = n ∷ ns; issued = c.issued ++ (n ∷ []) },
  rw e,
  record {
    waiting = v.waiting ∙ ap (◌++◌ completed) e ∙ sym (append_assoc completed (m ∷ []) (n ∷ ns));
    one_at_once = ap (λ xs. xs ++ (n ∷ [])) (v.one_at_once ∙ ap (λ q. completed ++ first q) e);
  },
)

pub data Event : Type 0 where
  send : List ℕ → Event
  complete : Event

-- A history of calls and completions; `none` where a completion comes for which nothing was sent.
unfoldable pub run : List Event → ClientInfo → Option ClientInfo
run [] c = some c
run (send m ∷ es) c = run es (send_msg m c).1
run (complete ∷ es) c = send_completed c >>= run es

abbrev pub sent_in : List Event → List (List ℕ)
sent_in [] = []
sent_in (send m ∷ es) = m ∷ sent_in es
sent_in (complete ∷ es) = sent_in es

abbrev pub completions : List Event → ℕ
completions [] = 0
completions (send m ∷ es) = completions es
completions (complete ∷ es) = suc (completions es)

-- As many messages are done as completions came.
abbrev pub Ordered : List (List ℕ) → ℕ → ClientInfo → Type 0
Ordered sent n d = (completed : List (List ℕ)) × (length completed ≡ n) × IsInOrder sent completed d

no_completion :
    (es : List Event) (c d : ClientInfo) → c.send_data_queue ≡ [] → run (complete ∷ es) c ≢ some d
unfolding run send_completed
no_completion es c d empty = rw empty (λ e. cc)

run-Ordered :
    (es : List Event) (sent completed : List (List ℕ)) (c d : ClientInfo) (q : List (List ℕ))
    → c.send_data_queue ≡ q
    → IsInOrder sent completed c
    → run es c ≡ some d
    → Ordered (sent ++ sent_in es) (length completed + completions es) d
unfolding run
run-Ordered [] sent completed c d q h v e = (
  completed,
  omega arith,
  subst (λ x. IsInOrder (sent ++ []) completed x) (some-injective _ _ e)
      (subst (λ x. IsInOrder x completed c) (sym (append-nil sent)) v),
)
run-Ordered (send m ∷ es) sent completed c d q h v e =
    subst (λ x. Ordered x (length completed + completions es) d)
      (append_assoc sent (m ∷ []) (sent_in es))
      (run-Ordered es (sent ++ (m ∷ [])) completed (send_msg m c).1 d _ refl
        (send_msg-IsInOrder sent completed m c v) e)
run-Ordered (complete ∷ es) sent completed c d [] h v e = absurd (no_completion es c d h e)
run-Ordered (complete ∷ es) sent completed c d (m ∷ ms) h v e =
    let (x, stepped, w) = send_completed-IsInOrder sent completed m ms c v h in
    let count : length (completed ++ (m ∷ [])) + completions es
        ≡ length completed + suc (completions es) =
      omega (arith, length-append completed (m ∷ [])) in
    subst (λ n. Ordered (sent ++ sent_in es) n d) count
      (run-Ordered es sent (completed ++ (m ∷ [])) x d _ refl w
        (sym (ap (λ o. o >>= run es) stepped) ∙ e))

issued_prefix :
    (sent completed : List (List ℕ)) (d : ClientInfo) (q : List (List ℕ))
    → d.send_data_queue ≡ q
    → IsInOrder sent completed d
    → (rest : List (List ℕ)) × (sent ≡ d.issued ++ rest)
issued_prefix sent completed d [] e v = (
  [],
  v.waiting
      ∙ ap (◌++◌ completed) e
      ∙ sym (
          ap (λ xs. xs ++ []) (v.one_at_once ∙ ap (λ q. completed ++ first q) e)
          ∙ append_assoc completed [] []),
)
issued_prefix sent completed d (m ∷ ms) e v = (
  ms,
  v.waiting
      ∙ ap (◌++◌ completed) e
      ∙ sym (
          ap (λ xs. xs ++ ms) (v.one_at_once ∙ ap (λ q. completed ++ first q) e)
          ∙ append_assoc completed (m ∷ []) ms),
)

-- After any history of calls and completions on a new slot, what was handed to `WSASend` is, in order,
-- a beginning of the messages that were sent: as many of them as completions came, which are done, and
-- the next one, if one waits; the queue holds just the messages that are not done.
pub run-IsInOrder :
    (es : List Event) (i : ℕ) (h : HandleValue) (d : ClientInfo)
    → run es (init i h) ≡ some d
    → Ordered (sent_in es) (completions es) d
      × ((rest : List (List ℕ)) × (sent_in es ≡ d.issued ++ rest))
run-IsInOrder es i h d e =
    let (completed, count, v) = run-Ordered es [] [] (init i h) d _ refl (init-IsInOrder i h) e in
    (
      (completed, count ∙ omega arith, v),
      issued_prefix (sent_in es) completed d d.send_data_queue refl v,
    )

-- A slot that is closed while messages wait keeps them when it is given to the next connection, so that
-- nothing is sent on the new connection: its messages are queued behind those of the old one, and
-- `SendMsg` says true.
pub stale_queue_blocks :
    (m x : List ℕ) (xs : List (List ℕ)) (c : ClientInfo) (now : ℕ) (made : Option ℕ)
    (accepted received : IoResult) (bound : HandleValue)
    → c.send_data_queue ≡ x ∷ xs
    → let reused =
        (accept_completion bound received (post_accept made accepted (close now c)).1).1 in
      (reused.is_connect ≡ true)
      × ((send_msg m reused).0 ≡ true)
      × ((send_msg m reused).1.issued ≡ c.issued)
unfolding accept_completion post_accept close
stale_queue_blocks m x xs c now made accepted received bound e =
    let reused = (accept_completion bound received (post_accept made accepted (close now c)).1).1 in
    (
      refl,
      ap (λ (r : Bool × ClientInfo). r.0) (send_msg_waiting m x xs reused e),
      ap (λ (r : Bool × ClientInfo). r.1.issued) (send_msg_waiting m x xs reused e),
    )
