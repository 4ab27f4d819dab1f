-- ===== src/Net/BufferTests.antt =====
-- A buffer of a connection at work: what the theorems say of one.
use chess_games.Prelude.{
  List, Option, [], arith, length, none, refl, some, suc, zero, ℕ, ◌∷◌, ◌≡◌, ◌≤◌,
}
use chess_games.Net.Buffer.{
  ConnectionBuffer, commit_read, moved_to_front, readable, try_recv, try_send, writeable,
}
use chess_games.Net.Places.{IsBuffer}
use chess_games.Net.Carries.{IsSent, Received, try_recv-Received, try_send-IsSent}

-- Three bytes of six, behind one that was read.
abbrev buffer : ConnectionBuffer
buffer = record { buf = 0 ∷ 1 ∷ 2 ∷ 3 ∷ 0 ∷ 0 ∷ []; data_begin = 1; data_end = 4 }

buffer-IsBuffer : IsBuffer buffer
buffer-IsBuffer = record {
  begins = omega arith;
  ends = omega arith;
  restarts = λ e. absurd (omega (arith, e));
}

-- A socket with two bytes.
abbrev two_bytes : ℕ → Option (List ℕ)
two_bytes zero = some []
two_bytes (suc zero) = some (8 ∷ [])
two_bytes (suc (suc n)) = some (8 ∷ 9 ∷ [])

two_bytes-bounded : (n : ℕ) (l : List ℕ) → two_bytes n ≡ some l → length l ≤ n
two_bytes-bounded zero l e = ground (arith, e)
two_bytes-bounded (suc zero) l e = ground (arith, e)
two_bytes-bounded (suc (suc n)) l e = ground (arith, e)

try_recv-Received_example : Received two_bytes buffer (try_recv two_bytes buffer)
try_recv-Received_example = try_recv-Received two_bytes two_bytes-bounded buffer buffer-IsBuffer

-- A socket that takes two bytes at most.
abbrev takes_two : List ℕ → Option ℕ
takes_two [] = none
takes_two (x ∷ []) = some 1
takes_two (x ∷ y ∷ l) = some 2

takes_two-bounded : (l : List ℕ) (n : ℕ) → takes_two l ≡ some n → n ≤ length l
takes_two-bounded [] n e = ground (arith, e)
takes_two-bounded (x ∷ []) n e = ground (arith, e)
takes_two-bounded (x ∷ y ∷ l) n e = ground (arith, e)

try_send-IsSent_example : IsSent takes_two buffer (try_send takes_two buffer)
try_send-IsSent_example = try_send-IsSent takes_two takes_two-bounded buffer buffer-IsBuffer

last_byte : readable (try_send takes_two buffer).1 ≡ 3 ∷ []
unfolding try_send commit_read
last_byte = refl

moved_up : writeable 5 buffer ≡ (3, moved_to_front buffer)
unfolding writeable
moved_up = refl
