-- ===== src/Gate/Clients.antt =====
-- `ClientManager` of server/processes/gateway/client_manager.h and client_manager.cpp: connections
-- of clients and their end. A pointer to a client is a place in `store`; a handler gives what is
-- sent, and the clients.
use chess_games.Prelude.{
  Bool, List, Option, [], false, if◌then◌else◌, none, some, suc, true, zero, ℕ, ◌%◌, ◌&&◌, ◌*◌,
  ◌++◌, ◌+◌, ◌/◌, ◌==◌, ◌^◌, ◌∷◌,
}
use chess_games.Prelude.Int.{ℤ}
use chess_games.FastMap.{FastMap, erase, find, insert}

pub data State : Type 0 where
  logining : State
  playing : State

pub record Client : Type 0 where
  pub ccid : ℕ
  pub cuid : ℕ
  pub state : State

pub record ClientManager : Type 0 where
  pub pid_num : ℕ
  pub client_counter : ℕ
  pub store : ℕ → Client
  pub fresh : ℕ
  pub clients : FastMap ℕ
  pub dying_clients : List ℕ

-- What a login asks the lobby; a field that is not set is none.
pub record LoginQuest : Type 0 where
  pub verified : Option Bool
  pub openid : ℕ
  pub token : ℕ
  pub ccid : ℕ
  pub name : ℕ
  pub imgurl : ℕ
  pub sex : ℤ

-- What goes to the lobby, to a client, or, with `erased`, to the connections of the process.
pub data Sent : Type 0 where
  client_disconnected : ℕ → Sent
  erased : ℕ → Sent
  login_quest : LoginQuest → Sent
  login_ret : ℕ → ℕ → Sent

-- `a | b` of numbers with `bits` bits.
unfoldable pub bit_or : ℕ → ℕ → ℕ → ℕ
bit_or zero a b = 0
bit_or (suc bits) a b =
    (if (a % 2 == 0) && (b % 2 == 0) then 0 else 1) + 2 * bit_or bits (a / 2) (b / 2)

-- The ccid that `createNewClient` makes at the time `now`.
unfoldable pub new_ccid : ℕ → ℕ → ℕ → ℕ
new_ccid now process_num counter =
    bit_or 64 (bit_or 64 (now * 2 ^ 32 % 2 ^ 64) (process_num * 2 ^ 24 % 2 ^ 32)) counter

abbrev pub inserted : ℕ → ClientManager → Bool × FastMap ℕ → ℕ × ClientManager
inserted ccid g (true, q) = (ccid, record g { clients = q })
inserted ccid g (false, q) = (0, g)

abbrev pub connected : ℕ → ClientManager → ℕ × ClientManager
connected ccid g =
    inserted ccid
      (record g {
        store = λ j.
            if g.fresh == j then record { ccid = ccid; cuid = 0; state = logining } else g.store j;
        fresh = suc g.fresh;
        client_counter = (g.client_counter + 1) % 2 ^ 32;
      })
      (insert ccid g.fresh g.clients)

-- `clientOnline`: the ccid, or 0 for `INVALID_CCID`.
unfoldable pub client_online : ℕ → ClientManager → ℕ × ClientManager
client_online now g = connected (new_ccid now g.pid_num g.client_counter) g

abbrev pub with_clients :
    ℕ → ClientManager → Option (FastMap ℕ) → Option (List Sent × ClientManager)
with_clients ccid g none = none
with_clients ccid g (some q) =
    some (client_disconnected ccid ∷ erased ccid ∷ [], record g { clients = q })

abbrev pub gone_of : ℕ → ClientManager → Option (Option ℕ) → Option (List Sent × ClientManager)
gone_of ccid g none = none
gone_of ccid g (some none) = some ([], g)
gone_of ccid g (some (some p)) = with_clients ccid g (erase ccid g.clients)

-- `erase` of the client with the ccid; none is an exception of the table.
unfoldable pub erase_client : ℕ → ClientManager → Option (List Sent × ClientManager)
erase_client ccid g = gone_of ccid g (find ccid g.clients)

abbrev pub and_sent :
    List Sent → Option (List Sent × ClientManager) → Option (List Sent × ClientManager)
and_sent l none = none
and_sent l (some r) = some (l ++ r.0, r.1)

abbrev pub erase_all :
    List ℕ → Option (List Sent × ClientManager) → Option (List Sent × ClientManager)
erase_all l none = none
erase_all [] (some r) = some r
erase_all (p ∷ l) (some (sent, g)) = erase_all l (and_sent sent (erase_client (g.store p).ccid g))

abbrev pub none_dying : Option (List Sent × ClientManager) → Option (List Sent × ClientManager)
none_dying none = none
none_dying (some (sent, g)) = some (sent, record g { dying_clients = [] })

-- `timerExec`.
unfoldable pub timer_exec : ClientManager → Option (List Sent × ClientManager)
timer_exec g = none_dying (erase_all g.dying_clients (some ([], g)))

-- `eraseLater`.
abbrev pub erase_later : ℕ → ClientManager → ClientManager
erase_later p g = record g { dying_clients = g.dying_clients ++ p ∷ [] }

abbrev pub offline_of : ClientManager → Option (Option ℕ) → ClientManager
offline_of g none = g
offline_of g (some none) = g
offline_of g (some (some p)) = erase_later p g

-- `clientOffline`.
unfoldable pub client_offline : ℕ → ClientManager → ClientManager
client_offline ccid g = offline_of g (find ccid g.clients)

abbrev pub kicked : Bool → ClientManager → Option (Option ℕ) → Option (List Sent × ClientManager)
kicked delay g none = none
kicked delay g (some none) = some ([], g)
kicked delay g (some (some p)) =
    if delay then some ([], erase_later p g) else erase_client (g.store p).ccid g

-- `kickOutClient`.
unfoldable pub kick_out_client : ℕ → Bool → ClientManager → Option (List Sent × ClientManager)
kick_out_client ccid delay g = kicked delay g (find ccid g.clients)
