-- ===== src/Session/User/Samples.antt =====
-- Users for the tests of the session server.
use unreal5_gas.Base.{
  ℕ, ◌-◌, ◌≤◌, ◌≡◌, ap, ◌∙◌, List, ◌++◌, arith, length, replicate, length-append, length-replicate,
  take-append, take,
}
use unreal5_gas.Base.Int.{pos}
use unreal5_gas.Session.User.{User, IsValid, unread, new_user}

-- The user of connection 0, with `bytes` unread.
abbrev pub user_with : List ℕ → User
user_with bytes = record new_user {
  index = pos 0;
  w_pos = length bytes;
  packet_data_buffer = bytes ++ replicate (8096 - length bytes) 0;
}

pub user_with-IsValid : (bytes : List ℕ) → length bytes ≤ 8096 → IsValid (user_with bytes)
unfolding new_user
user_with-IsValid bytes h = record {
  allocated = omega (
    arith,
    length-append bytes (replicate (8096 - length bytes) 0),
    length-replicate {A = ℕ} (8096 - length bytes) 0,
  );
  read_le = omega arith;
  written_le = h;
}

pub unread-user_with : (bytes : List ℕ) → unread (user_with bytes) ≡ bytes
unfolding new_user
unread-user_with bytes =
    ap (λ n. take n (bytes ++ replicate (8096 - length bytes) 0)) {x = length bytes - 0}
      {y = length bytes} (omega arith)
    ∙ take-append bytes (replicate (8096 - length bytes) 0)
