-- ===== src/Net/Carries.antt =====
-- `BufferedConnection::tryRecv` and `trySend` of server/water/net/buffered_connection.cpp: the buffer
-- of a connection as a queue of bytes.
use chess_games.Prelude.{
  Bool, List, Option, [], ap, arith, drop, false, if◌then◌else◌, inl, inr, length, none, not, refl,
  some, suc, sym, take, true, ℕ, ◌++◌, ◌+◌, ◌-◌, ◌==◌, ◌∙◌, ◌∷◌, ◌≡◌, ◌≢◌, ◌≤◌, ◌⊎◌,
}
use chess_games.Net.Buffer.{
  ConnectionBuffer, is_empty, is_full, readable, received, recv_to, sent, try_recv, try_send,
  writeable,
}
use chess_games.Net.Places.{
  IsBuffer, commit_read-drop, commit_write-written, length-readable, readable-with_bytes,
  with_bytes, with_bytes-IsBuffer, writeable-IsFree,
}

-- The buffer keeps its form, with some bytes behind what it has, and the answer is whether there is
-- anything to read.
abbrev pub HasTaken : ConnectionBuffer → List ℕ → Option (Bool × ConnectionBuffer) → Type 0
HasTaken b bytes r =
    (next : ConnectionBuffer) × (r ≡ some (not (is_empty next), next))
    × IsBuffer next
    × (readable next ≡ readable b ++ bytes)

-- What a call of `tryRecv` does with `recv n`, where `n` is at most the room that is left and is zero
-- only for a full buffer: it takes in all the bytes that `recv` gives, or throws at the end.
abbrev pub Received :
    (ℕ → Option (List ℕ)) → ConnectionBuffer → Option (Bool × ConnectionBuffer) → Type 0
Received recv b r =
    (n : ℕ) × (n + length (readable b) ≤ length b.buf)
    × (((n ≡ 0) × (is_full b ≡ true) × HasTaken b [] r)
        ⊎ ((n ≢ 0) × (recv n ≡ none) × HasTaken b [] r)
        ⊎ ((n ≢ 0) × (recv n ≡ some []) × (r ≡ none))
        ⊎ ((n ≢ 0) × (x : ℕ) × (l : List ℕ) × (recv n ≡ some (x ∷ l)) × HasTaken b (x ∷ l) r))

not_none : (a n : ℕ) → true ≡ not ((a + suc n) == 0)
not_none a n = ground arith

append-empty : (l : List ℕ) → l ++ [] ≡ l
append-empty [] = refl
append-empty (x ∷ l) = ap (λ s. x ∷ s) (append-empty l)

module _ (recv : ℕ → Option (List ℕ))
    (bounded : (n : ℕ) (l : List ℕ) → recv n ≡ some l → length l ≤ n) (b : ConnectionBuffer) where
  -- Nothing is received.
  kept-HasTaken :
      (c : ConnectionBuffer)
      → IsBuffer c
      → readable c ≡ readable b
      → HasTaken b [] (some (not (is_empty c), c))
  kept-HasTaken c ok same = (c, refl, ok, same ∙ sym (append-empty (readable b)))

  module _ (n : ℕ) (c : ConnectionBuffer) (ok : IsBuffer c) (same : readable c ≡ readable b)
      (room : c.data_end + n ≤ length c.buf) (size : length c.buf ≡ length b.buf) where
    fits_in : n + length (readable b) ≤ length b.buf
    fits_in = omega (arith, room, size, ap length same, length-readable c ok)

    received-Received : (o : Option (List ℕ)) → n ≢ 0 → recv n ≡ o → Received recv b (received c o)
    received-Received none some_room e =
        (n, fits_in, inr (inl (some_room, e, kept-HasTaken c ok same)))
    received-Received (some []) some_room e = (n, fits_in, inr (inr (inl (some_room, e, refl))))
    received-Received (some (x ∷ l)) some_room e = (
      n,
      fits_in,
      inr (
          inr (
            inr (
              some_room,
              x,
              l,
              e,
              (
                with_bytes c ok (x ∷ l),
                ap (λ (r : Bool × ConnectionBuffer). some (true, r.1))
                      (commit_write-written c ok x l fits)
                    ∙ ap (λ t. some (t, with_bytes c ok (x ∷ l))) (not_none c.data_end (length l)),
                with_bytes-IsBuffer c ok x l fits,
                readable-with_bytes c ok (x ∷ l) ∙ ap (λ s. s ++ (x ∷ l)) same,
              ),
            ))),
    )
      where
        fits : c.data_end + length (x ∷ l) ≤ length c.buf
        fits = omega (arith, room, bounded n (x ∷ l) e)

    recv_to-Received : (n ≡ 0 → is_full b ≡ true) → Received recv b (recv_to recv (n, c))
    recv_to-Received full = at_zero (n == 0) refl
      where
        at_zero :
            (none_free : Bool)
            → n == 0 ≡ none_free
            → Received recv b
                (if none_free then some (not (is_empty c), c) else received c (recv n))
        at_zero true e =
            let zero_room : n ≡ 0 = ground (arith, e) in
            (n, fits_in, inl (zero_room, full zero_room, kept-HasTaken c ok same))
        at_zero false e = received-Received (recv n) (ground (arith, e)) refl

-- `recv` is asked for at most the room that is left, and for nothing if the buffer is full. All the
-- bytes that it gives come behind what is in the buffer, which keeps its form, and the answer is whether
-- there is anything to read; without bytes the content stays, and the connection is closed at the end
-- of the data. The socket gives no more bytes than it is asked for.
pub try_recv-Received :
    (recv : ℕ → Option (List ℕ))
    → ((n : ℕ) (l : List ℕ) → recv n ≡ some l → length l ≤ n)
    → (b : ConnectionBuffer) → IsBuffer b
    → Received recv b (try_recv recv b)
unfolding try_recv
try_recv-Received recv bounded b ok =
    let (form, same, room, size, full) = writeable-IsFree b ok 0 in
    recv_to-Received recv bounded b (writeable 0 b).0 (writeable 0 b).1 form same room size full

-- What a call of `trySend` does with the answer of `send`: the bytes that the socket takes go off the
-- front, and nothing changes if there is nothing to send or the socket is busy.
abbrev pub IsSent : (List ℕ → Option ℕ) → ConnectionBuffer → Bool × ConnectionBuffer → Type 0
IsSent send b r =
    ((readable b ≡ []) × (r ≡ (true, b)))
    ⊎ ((readable b ≢ []) × (send (readable b) ≡ none) × (r ≡ (false, b)))
    ⊎ ((readable b ≢ [])
        × (n : ℕ) × (send (readable b) ≡ some n)
        × (r.0 ≡ is_empty r.1)
        × IsBuffer r.1
        × (readable r.1 ≡ drop n (readable b)))

module _ (send : List ℕ → Option ℕ) (b : ConnectionBuffer) (ok : IsBuffer b) where
  sent-IsSent :
      (o : Option ℕ)
      → readable b ≢ []
      → send (readable b) ≡ o
      → ((n : ℕ) → o ≡ some n → n ≤ length (readable b))
      → IsSent send b (sent b o)
  sent-IsSent none full e bounded = inr (inl (full, e, refl))
  sent-IsSent (some n) full e bounded =
      let (form, rest) =
        commit_read-drop b ok n (omega (arith, bounded n refl, length-readable b ok)) in
      inr (inr (full, n, e, refl, form, rest))

-- The bytes that the socket takes go off the front of the buffer, which keeps its form, and the answer
-- is whether all is sent. Nothing changes if the socket is busy, or if there is nothing to send. The
-- socket takes no more bytes than it is given.
pub try_send-IsSent :
    (send : List ℕ → Option ℕ)
    → ((l : List ℕ) (n : ℕ) → send l ≡ some n → n ≤ length l)
    → (b : ConnectionBuffer) → IsBuffer b
    → IsSent send b (try_send send b)
unfolding try_send
try_send-IsSent send bounded b ok = at_none (b.data_end - b.data_begin == 0) refl
  where
    at_none :
        (nothing : Bool)
        → b.data_end - b.data_begin == 0 ≡ nothing
        → IsSent send b (if nothing then (true, b) else sent b (send (readable b)))
    at_none true e =
        let no_data : b.data_end - b.data_begin ≡ 0 = ground (arith, e) in
        inl (ap (λ n. take n (drop b.data_begin b.buf)) no_data, refl)
    at_none false e =
        sent-IsSent send b ok (send (readable b))
          (λ f. absurd (ground (arith, e, ap length f, length-readable b ok))) refl
          (λ n g. bounded (readable b) n g)
