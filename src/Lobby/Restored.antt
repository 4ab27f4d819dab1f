-- ===== src/Lobby/Restored.antt =====
-- A client that is saved and loaded again.
use chess_games.Prelude.{
  Bool, List, Option, [], ap, arith, false, if◌then◌else◌, not, refl, some, sym, ℕ, ◌++◌, ◌==◌, ◌∙◌,
  ◌∷◌, ◌≡◌,
}
use chess_games.Lobby.History.{DayRank, Detail, Opponent}
use chess_games.Lobby.Clients.{Client, new_client}
use chess_games.Lobby.Saved.{
  ClientData, days_in, days_out, deserialize, deserialized, details_in, details_out, from_data,
  load_client, loaded_from, opps_out, serialize, serialized, to_data,
}
use chess_games.Lobby.Login.{loaded}

opps_out-same : (l : List Opponent) → opps_out l ≡ l
opps_out-same [] = refl
opps_out-same (o ∷ l) = ap (λ r. o ∷ r) (opps_out-same l)

append-empty : {A : Type 0} (l : List A) → l ++ [] ≡ l
append-empty [] = refl
append-empty (x ∷ l) = ap (λ r. x ∷ r) (append-empty l)

append-snoc : {A : Type 0} (l : List A) (x : A) (r : List A) → (l ++ x ∷ []) ++ r ≡ l ++ x ∷ r
append-snoc [] x r = refl
append-snoc (y ∷ l) x r = ap (λ s. y ∷ s) (append-snoc l x r)

details_in-out : (l done : List Detail) → details_in done (details_out l) ≡ done ++ l
details_in-out [] done = sym (append-empty done)
details_in-out (d ∷ l) done =
    ap (λ o. details_in (done ++ record d { opps = o } ∷ []) (details_out l))
      (opps_out-same (opps_out d.opps) ∙ opps_out-same d.opps)
    ∙ details_in-out l (done ++ d ∷ [])
    ∙ append-snoc done d l

days_in-out : (l done : List DayRank) → days_in done (days_out l) ≡ done ++ l
days_in-out [] done = sym (append-empty done)
days_in-out (d ∷ l) done = days_in-out l (done ++ d ∷ []) ∙ append-snoc done d l

same_time : (t : ℕ) → (if not (t == 0) then t else 0) ≡ t
same_time t = ground arith

-- What is saved of a client: all but its connection, its address and the time of its loss.
abbrev pub saved_part : Client → Client
saved_part c = record c { ccid = 0; ipstr = 0; offline_time = 0 }

from_data-to_data : (c : Client) → from_data (to_data c) new_client ≡ saved_part c
unfolding from_data to_data
from_data-to_data c = λ i. record (saved_part c) {
  g13his = record c.g13his {
    details = details_in-out c.g13his.details [] i;
    his_days = days_in-out c.g13his.his_days [] i;
  };
  last_share_time = same_time c.last_share_time i;
}

deserialize-serialize :
    {Bin : Type 0} (write_out : ClientData → Option Bin) (parse : Bin → Option ClientData)
    → ((x : ClientData) (bin : Bin) → write_out x ≡ some bin → parse bin ≡ some x)
    → (empty bin : Bin) (c : Client) → write_out (to_data c) ≡ some bin
    → deserialize parse (serialize write_out empty c) new_client ≡ some (saved_part c)
unfolding serialize deserialize
deserialize-serialize write_out parse reads empty bin c e =
    ap (λ r. deserialized new_client (parse (serialized empty r))) e
    ∙ ap (deserialized new_client) (reads (to_data c) bin e)
    ∙ ap some (from_data-to_data c)

serialize-bin :
    {Bin : Type 0} (write_out : ClientData → Option Bin) (empty bin : Bin) (c : Client)
    → write_out (to_data c) ≡ some bin
    → serialize write_out empty c ≡ bin
unfolding serialize
serialize-bin write_out empty bin c e = ap (serialized empty) e

-- What is saved of a client is loaded again as that client, but for its connection, its address and
-- the time when it went off line. The message that is written is not empty and can be read again.
pub load_client-serialize :
    {Bin : Type 0} (write_out : ClientData → Option Bin) (parse : Bin → Option ClientData)
    → ((x : ClientData) (bin : Bin) → write_out x ≡ some bin → parse bin ≡ some x)
    → (is_empty : Bin → Bool) (empty bin : Bin) (c : Client) → write_out (to_data c) ≡ some bin
    → is_empty bin ≡ false
    → load_client parse is_empty (serialize write_out empty c) ≡ loaded (saved_part c)
unfolding load_client
load_client-serialize write_out parse reads is_empty empty bin c e full =
    rw (ap is_empty (serialize-bin write_out empty bin c e) ∙ full)
      (ap loaded_from (deserialize-serialize write_out parse reads empty bin c e))
