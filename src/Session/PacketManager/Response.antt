-- ===== src/Session/PacketManager/Response.antt =====
-- PacketManager.cpp: how a login answer is read, whoever sent it.
use unreal5_gas.Base.{
  ℕ, ◌<◌, ◌≡◌, ◌≢◌, sym, ap, ◌∙◌, some, List, [], ◌∷◌, ◌++◌, ◌==◌, length, get_elem?, arith,
  append_assoc, length-append, Bool-cases, Option-cases, inl, inr,
}
use unreal5_gas.Base.Slices.{take-append_eq, get_elem?-append}
use unreal5_gas.Base.Fallible.{◌>>=◌}
use unreal5_gas.Session.Packet.{DataPtr}
use unreal5_gas.Session.UserManager.{UserManager, add_user}
use unreal5_gas.Session.PacketManager.{
  Server, bytes_at, c_string, read_bytes, response_bytes, send, process_login_response, log_in,
}

-- A string that ends inside its field is read the same whatever follows the field.
pub c_string-append :
    (field more : List ℕ) {id : List ℕ}
    → c_string field ≡ some id
    → c_string (field ++ more) ≡ some id
unfolding c_string
c_string-append [] more e = cc
c_string-append (b ∷ bytes) more {id} e = elim (Option-cases (c_string bytes)) [
  | inl stops ↦ elim (Bool-cases (b == 0)) [ inl z ↦ ground arith | inr z ↦ absurd (ground arith) ]
  | inr (rest, found) ↦ let ih = c_string-append bytes more found in ground (arith, ih)
]

pub read_bytes-append : (n : ℕ) (xs ys : List ℕ) → n ≡ length xs → read_bytes n (xs ++ ys) ≡ some xs
read_bytes-append n xs ys e = rw (take-append_eq n xs ys e) (ground (arith, length-append xs ys))

length-response :
    (type : ℕ) (field : List ℕ) (result : ℕ)
    → length field ≡ 33
    → 39 ≡ length (response_bytes type field result)
length-response type field result e = omega (arith, length-append field (result ∷ []))

result-field :
    (field : List ℕ) (result : ℕ)
    → length field ≡ 33
    → get_elem? (field ++ (result ∷ [])) 33 ≡ some result
result-field field result len =
    ap (get_elem? (field ++ (result ∷ []))) (sym len) ∙ get_elem?-append field [] result

-- Reads the answer, up to the switch on its result.
read-response :
    (i : ℕ) (ptr : DataPtr) (s : Server) (type : ℕ) (field : List ℕ) (result : ℕ) (more : List ℕ)
    → length field ≡ 33
    → bytes_at ptr s ≡ some (response_bytes type field result ++ more)
    → process_login_response i 39 ptr s ≡ (
        log_in result i (response_bytes type field result ++ more) s >>= λ s'.
        some (send i (response_bytes type field result) s'))
unfolding process_login_response
read-response i ptr s type field result more len at_ptr = rw (
  at_ptr,
  read_bytes-append 39 (response_bytes type field result) more
      (length-response type field result len),
  result-field field result len,
)

-- A refusal is passed on to the client and changes no user.
pub response_refused :
    (i : ℕ) (ptr : DataPtr) (s : Server) (type : ℕ) (field : List ℕ) (result : ℕ) (more : List ℕ)
    → length field ≡ 33
    → result ≢ 1
    → bytes_at ptr s ≡ some (response_bytes type field result ++ more)
    → process_login_response i 39 ptr s ≡ some (send i (response_bytes type field result) s)
response_refused i ptr s type field result more len refused at_ptr =
    rw (read-response i ptr s type field result more len at_ptr) (ground arith)

-- A success logs the connection in under the id of the answer, and is passed on.
pub response_accepted :
    (i : ℕ) (ptr : DataPtr) (s : Server) (type : ℕ) (field more id : List ℕ) (m : UserManager)
    → length field ≡ 33
    → c_string field ≡ some id
    → add_user id i s.users ≡ some m
    → bytes_at ptr s ≡ some (response_bytes type field 1 ++ more)
    → process_login_response i 39 ptr s
      ≡ some (send i (response_bytes type field 1) (record s { users = m }))
response_accepted i ptr s type field more id m len field_id added at_ptr = rw (
  read-response i ptr s type field 1 more len at_ptr,
  append_assoc field (1 ∷ []) more,
  c_string-append field ((1 ∷ []) ++ more) field_id,
  added,
)

-- A terminated string is shorter than its field.
pub length-c_string :
    (field : List ℕ) {id : List ℕ} → c_string field ≡ some id → length id < length field
unfolding c_string
length-c_string [] e = cc
length-c_string (b ∷ bytes) {id} e = elim (Option-cases (c_string bytes)) [
  | inl stops ↦ ground arith
  | inr (rest, found) ↦ let ih = length-c_string bytes found in ground (arith, ih)
]
