-- ===== src/Net/Tcp.antt =====
-- `TcpPacket`: a length of four bytes, least byte first, and that many bytes of content. Sums with
-- `sizeof` are made in 64 bits; what is stored in a `SizeType` keeps 32.
use chess_games.Prelude.{
  Bool, List, Option, [], drop, if◌then◌else◌, leb, length, ltb, none, some, take, ℕ, ◌%◌, ◌&&◌,
  ◌*◌, ◌++◌, ◌+◌, ◌-◌, ◌/◌, ◌==◌, ◌^◌, ◌∷◌,
}
use chess_games.Net.Packet.{Packet, append}

abbrev pub size_mod : ℕ
size_mod = 2 ^ 32

-- A `SizeType` in memory.
unfoldable pub write_size : ℕ → List ℕ
write_size n = n % 256 ∷ n / 256 % 256 ∷ n / 65536 % 256 ∷ n / 16777216 % 256 ∷ []

unfoldable pub read_size : List ℕ → ℕ
read_size (a ∷ b ∷ c ∷ d ∷ l) = a + b * 256 + c * 65536 + d * 16777216
read_size l = 0

unfoldable pub set_content : List ℕ → Packet
set_content content = write_size (length content) ++ content

unfoldable pub content_size : Packet → ℕ
content_size m_buf = if ltb (length m_buf) 4 then 0 else read_size m_buf

unfoldable pub is_complete : Packet → Bool
unfolding content_size
is_complete m_buf = leb 4 (length m_buf) && leb (content_size m_buf + 4) (length m_buf)

-- The first branch of `parse`, for an empty packet.
unfoldable pub parse_first : List ℕ → Packet × ℕ
unfolding read_size
parse_first buf =
    let want = (read_size buf + 4) % size_mod in
    let read_len = if ltb (length buf) want then length buf else want in
    if ltb (length buf) 4 then ([], 0) else (take read_len buf, read_len)

-- The last part of `parse`, after `header` bytes of the header.
unfoldable pub fill_body : Packet → ℕ → List ℕ → Packet × ℕ
unfolding read_size append
fill_body m_buf header buf =
    let complete_size = (read_size m_buf + 4) % size_mod in
    let deficiency = (complete_size + size_mod - length m_buf) % size_mod in
    let append_len = if ltb deficiency (length buf) then deficiency else length buf in
    ((append m_buf (take append_len buf)).0, header + append_len)

-- The packet after `parse`, and the number of bytes that it took.
unfoldable pub parse : Packet → List ℕ → Packet × ℕ
parse m_buf buf =
    let missing = 4 - length m_buf in
    if is_complete m_buf
    then (m_buf, 0)
    else if length m_buf == 0
    then parse_first buf
    else if ltb (length m_buf) 4
    then (if ltb (length buf) missing
        then (m_buf, 0)
        else fill_body (append m_buf (take missing buf)).0 missing (drop missing buf))
    else fill_body m_buf 0 buf

unfoldable pub try_parse : List ℕ → Option Packet
try_parse bytes = let ret = (parse [] bytes).0 in if is_complete ret then some ret else none
