-- ===== src/Net/Packet.antt =====
-- `Packet`: a buffer of bytes.
use chess_games.Prelude.{List, [], drop, if◌then◌else◌, leb, length, ltb, take, ℕ, ◌++◌}

abbrev pub Packet : Type 0
Packet = List ℕ

unfoldable pub append : Packet → List ℕ → Packet × ℕ
append m_buf bytes = (m_buf ++ bytes, length bytes)

unfoldable pub pop : Packet → ℕ → Packet
pop m_buf size = if leb (length m_buf) size then [] else drop size m_buf

-- What is copied out, for a buffer of `max_size` bytes.
unfoldable pub copy : Packet → ℕ → List ℕ
copy m_buf max_size = take (if ltb max_size (length m_buf) then max_size else length m_buf) m_buf
