-- ===== src/Client/Login.antt =====
-- AuraSocket.cpp and AuraGameInstance.cpp against the packets of the session server.
use unreal5_gas.Base.{
  ℕ, zero, suc, ◌+◌, ◌≤◌, ◌<◌, ◌≡◌, ◌≢◌, refl, sym, ap, ◌∙◌, some, List, [], ◌∷◌, ◌++◌, length,
  take, drop, get_elem?, All, arith, length-append, length-take, append_assoc,
}
use unreal5_gas.Base.Slices.{get_elem?-append}
use unreal5_gas.Session.Packet.{
  packet_bytes, header_bytes, login_request, character_info_request, packet_header_length,
}
use unreal5_gas.Session.PacketManager.{c_string, response_bytes}
use unreal5_gas.Session.PacketManager.Response.{read_bytes-append}
use unreal5_gas.Client.{
  Client, copy_field, login_packet, send_character_info_request_packet, recv_login_result, run,
}

-- A text that a field of 33 bytes holds with its terminator.
pub record FitsField (text beyond : List ℕ) : Type 0 where
  pub short : length text ≤ 32
  pub no_zero : All (λ b. b ≢ 0) text
  pub readable : 33 ≤ length text + 1 + length beyond

c_string-take :
    (n : ℕ) (text beyond : List ℕ)
    → length text < n
    → All (λ b. b ≢ 0) text
    → c_string (take n (text ++ (0 ∷ beyond))) ≡ some text
unfolding c_string
c_string-take zero text beyond h no_zero = absurd (omega arith)
c_string-take (suc n) [] beyond h no_zero = refl
c_string-take (suc n) (b ∷ text) beyond h (nonzero, rest) =
    let ih = c_string-take n text beyond (omega arith) rest in ground (arith, ih)

-- The field that `memcpy` fills.
abbrev pub field_of : List ℕ → List ℕ → List ℕ
field_of text beyond = take 33 (text ++ (0 ∷ beyond))

copy_field-take :
    (text beyond : List ℕ)
    → FitsField text beyond
    → (copy_field text beyond ≡ some (field_of text beyond))
      × (length (field_of text beyond) ≡ 33)
      × (c_string (field_of text beyond) ≡ some text)
copy_field-take text beyond f = (
  ground (arith, f.readable, length-append text (0 ∷ beyond)),
  omega (arith, f.readable, length-append text (0 ∷ beyond), length-take 33 (text ++ (0 ∷ beyond))),
  c_string-take 33 text beyond (omega (arith, f.short)) f.no_zero,
)

-- What the game sends is a login request as the server reads it: a packet of the right length, with two
-- fields of 33 bytes each, from which the server reads the id and the password that were typed in. It
-- takes an id and a password of at most 32 bytes each, without 0.
pub login_packet-packet_bytes :
    (id pw beyond_id beyond_pw : List ℕ)
    → FitsField id beyond_id
    → FitsField pw beyond_pw
    → (id_field pw_field : List ℕ) × (login_packet id pw beyond_id beyond_pw
        ≡ some (packet_bytes login_request 0 (id_field ++ pw_field)))
      × (length id_field ≡ 33)
      × (length pw_field ≡ 33)
      × (c_string id_field ≡ some id)
      × (c_string pw_field ≡ some pw)
unfolding login_packet
login_packet-packet_bytes id pw beyond_id beyond_pw f g =
    let (copied_id, id_len, id_back) = copy_field-take id beyond_id f in
    let (copied_pw, pw_len, pw_back) = copy_field-take pw beyond_pw g in
    let fields = field_of id beyond_id ++ field_of pw beyond_pw in
    let len : length fields ≡ 66 =
      omega
        (arith, id_len, pw_len, length-append (field_of id beyond_id) (field_of pw beyond_pw)) in
    (
      field_of id beyond_id,
      field_of pw beyond_pw,
      rw (copied_id, copied_pw)
          (ap
            (λ n. some (
              header_bytes (record { packet_length = n; packet_id = login_request; type = 0 })
              ++ fields))
            {x = 71} {y = packet_header_length + length fields} (omega (arith, len))),
      id_len,
      pw_len,
      id_back,
      pw_back,
    )

tail_assoc :
    (field : List ℕ) (result : ℕ) (more beyond : List ℕ)
    → ((field ++ (result ∷ [])) ++ more) ++ beyond ≡ field ++ (result ∷ (more ++ beyond))
tail_assoc field result more beyond =
    append_assoc (field ++ (result ∷ [])) more beyond
    ∙ append_assoc field (result ∷ []) (more ++ beyond)

result_at :
    (field : List ℕ) (result : ℕ) (more : List ℕ)
    → length field ≡ 33
    → get_elem? (field ++ (result ∷ more)) 33 ≡ some result
result_at field result more len =
    ap (get_elem? (field ++ (result ∷ more))) (sym len) ∙ get_elem?-append field more result

-- What the result switch does on success.
recv_login_result_accepted :
    (beyond field rest id : List ℕ) (c : Client)
    → length field ≡ 33
    → c_string field ≡ some id
    → FitsField id beyond
    → recv_login_result beyond (field ++ (1 ∷ rest)) c
      ≡ some (record c {
        player_id = id;
        results = c.results ++ (1 ∷ []);
        sent = c.sent ++ (packet_bytes character_info_request 0 (field_of id beyond) ∷ []);
      })
unfolding recv_login_result send_character_info_request_packet
recv_login_result_accepted beyond field rest id c len field_id fits =
    let (copied, copied_len, _) = copy_field-take id beyond fits in
    rw
      (
        read_bytes-append 33 field (1 ∷ rest) (sym len),
        result_at field 1 rest len,
        field_id,
        copied,
      )
      (ap
        (λ n. some (record c {
          player_id = id;
          results = c.results ++ (1 ∷ []);
          sent =
              c.sent
              ++ ((header_bytes
                      (record { packet_length = n; packet_id = character_info_request; type = 0 })
                    ++ field_of id beyond)
                  ∷ []);
        }))
        {x = 38} {y = packet_header_length + length (field_of id beyond)}
        (omega (arith, copied_len)))

-- The server's answer of success, whatever comes in behind it in the same call of `recv`: the game takes
-- over the id of the answer, shows the result, asks for the character under that id and does nothing
-- about what came behind.
pub run_accepted :
    (beyond : List ℕ) (type : ℕ) (field id more : List ℕ) (c : Client)
    → length field ≡ 33
    → c_string field ≡ some id
    → FitsField id beyond
    → (d : Client) × (run beyond (response_bytes type field 1 ++ more) c ≡ some d)
      × (d.player_id ≡ id)
      × (d.results ≡ c.results ++ (1 ∷ []))
      × (d.sent ≡ c.sent ++ (packet_bytes character_info_request 0 (field_of id beyond) ∷ []))
unfolding run
run_accepted beyond type field id more c len field_id fits =
    let bytes = response_bytes type field 1 ++ more in
    let behind = drop (0 + length bytes) c.recv_buffer in
    (
      record c {
        recv_buffer = bytes ++ behind;
        player_id = id;
        results = c.results ++ (1 ∷ []);
        sent = c.sent ++ (packet_bytes character_info_request 0 (field_of id beyond) ∷ []);
      },
      ap (λ b. recv_login_result beyond b (record c { recv_buffer = bytes ++ behind }))
            (tail_assoc field 1 more behind)
          ∙ recv_login_result_accepted beyond field (more ++ behind) id
              (record c { recv_buffer = bytes ++ behind }) len field_id fits,
      refl,
      refl,
      refl,
    )
