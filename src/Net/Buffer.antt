-- ===== src/Net/Buffer.antt =====
-- `ConnectionBuffer` and `BufferedConnection` of server/water/net/buffered_connection.h and
-- buffered_connection.cpp. A byte is a number; memory that is written to is a list.
use chess_games.Prelude.{
  Bool, List, Option, [], drop, false, if◌then◌else◌, length, ltb, none, not, some, take, true, ℕ,
  ◌&&◌, ◌++◌, ◌+◌, ◌-◌, ◌==◌, ◌||◌, ◌∷◌,
}

pub record ConnectionBuffer : Type 0 where
  pub buf : List ℕ
  pub data_begin : ℕ
  pub data_end : ℕ

abbrev pub is_full : ConnectionBuffer → Bool
is_full b = (length b.buf == b.data_end) && (b.data_begin == 0)

abbrev pub is_empty : ConnectionBuffer → Bool
is_empty b = b.data_end == 0

-- What `readable` points to.
abbrev pub readable : ConnectionBuffer → List ℕ
readable b = take (b.data_end - b.data_begin) (drop b.data_begin b.buf)

-- The bytes are read from the front; an empty buffer starts again.
abbrev pub restarted : ConnectionBuffer → ConnectionBuffer
restarted b = if b.data_begin == b.data_end then record b { data_begin = 0; data_end = 0 } else b

unfoldable pub commit_read : ℕ → ConnectionBuffer → Bool × ConnectionBuffer
commit_read size b =
    if ltb (b.data_end - b.data_begin) size
    then (false, b)
    else (true, restarted (record b { data_begin = b.data_begin + size }))

-- `memmove` of the data to the front.
abbrev pub moved_to_front : ConnectionBuffer → ConnectionBuffer
moved_to_front b = record {
  buf = readable b ++ drop (b.data_end - b.data_begin) b.buf;
  data_begin = 0;
  data_end = b.data_end - b.data_begin;
}

-- The size of the free memory behind the data, and the buffer.
unfoldable pub writeable : ℕ → ConnectionBuffer → ℕ × ConnectionBuffer
writeable size b =
    if ltb (length b.buf - b.data_end) size || (length b.buf == b.data_end)
    then (if is_full b
        then (0, b)
        else (length b.buf - (b.data_end - b.data_begin), moved_to_front b))
    else (length b.buf - b.data_end, b)

unfoldable pub commit_write : ℕ → ConnectionBuffer → Bool × ConnectionBuffer
commit_write size b =
    if ltb (length b.buf - b.data_end) size
    then (false, b)
    else (true, record b { data_end = b.data_end + size })

-- Bytes that are written to the memory behind the data.
abbrev pub written : List ℕ → ConnectionBuffer → ConnectionBuffer
written bytes b = record b {
  buf = take b.data_end b.buf ++ (bytes ++ drop (b.data_end + length bytes) b.buf);
}

abbrev pub received : ConnectionBuffer → Option (List ℕ) → Option (Bool × ConnectionBuffer)
received b none = some (not (is_empty b), b)
received b (some []) = none
received b (some (x ∷ l)) = some (true, (commit_write (length (x ∷ l)) (written (x ∷ l) b)).1)

abbrev pub recv_to : (ℕ → Option (List ℕ)) → ℕ × ConnectionBuffer → Option (Bool × ConnectionBuffer)
recv_to recv (n, b) = if n == 0 then some (not (is_empty b), b) else received b (recv n)

-- `tryRecv`, where `recv` gives no bytes if the connection is closed and none if there is nothing
-- yet; a closed connection is an exception, and none here.
unfoldable pub try_recv :
    (ℕ → Option (List ℕ)) → ConnectionBuffer → Option (Bool × ConnectionBuffer)
try_recv recv b = recv_to recv (writeable 0 b)

abbrev pub sent : ConnectionBuffer → Option ℕ → Bool × ConnectionBuffer
sent b none = (false, b)
sent b (some n) = (is_empty (commit_read n b).1, (commit_read n b).1)

-- `trySend`, where `send` gives how many bytes it took, or none if the socket is busy.
unfoldable pub try_send : (List ℕ → Option ℕ) → ConnectionBuffer → Bool × ConnectionBuffer
try_send send b = if b.data_end - b.data_begin == 0 then (true, b) else sent b (send (readable b))
