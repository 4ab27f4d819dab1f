-- ===== src/Lobby/Ticks.antt =====
-- `proto_ClientDisconnected` and `timerExecAll` of server/processes/lobby/client_manager.cpp.
use chess_games.Prelude.{
  Bool, List, Option, [], false, if◌then◌else◌, ltb, none, not, some, ℕ, ◌&&◌, ◌+◌, ◌==◌, ◌∷◌,
}
use chess_games.FastMap.{find}
use chess_games.Lobby.Clients.{Client, ClientManager, erase_client, set_client}

abbrev pub disconnected_of : ℕ → ClientManager → Option (Option ℕ) → ClientManager
disconnected_of now m none = m
disconnected_of now m (some none) = m
disconnected_of now m (some (some p)) = set_client p (record (m.store p) { offline_time = now }) m

-- `proto_ClientDisconnected`, at the time `now`.
unfoldable pub client_disconnected : ℕ → ℕ → ClientManager → ClientManager
client_disconnected ccid now m = disconnected_of now m (find ccid m.ccid2clients)

-- The test of `timerExecAll`.
unfoldable pub is_offline_long : ℕ → Client → Bool
is_offline_long now c =
    (c.roomid == 0) && not (c.offline_time == 0) && ltb now (c.offline_time + 600)

unfoldable pub offline_clients : ℕ → (ℕ → Client) → List (ℕ × ℕ) → List ℕ
offline_clients now store [] = []
offline_clients now store (x ∷ l) =
    let rest = offline_clients now store l in
    if is_offline_long now (store x.1) then x.1 ∷ rest else rest

abbrev pub erase_all : List ℕ → Option ClientManager → Option ClientManager
erase_all l none = none
erase_all [] (some m) = some m
erase_all (p ∷ l) (some m) = erase_all l (erase_client p m)

-- `timerExecAll` at the time `now`, less the messages.
unfoldable pub timer_exec_all : ℕ → ClientManager → Option ClientManager
timer_exec_all now m = erase_all (offline_clients now m.store m.cuid2clients.items) (some m)

abbrev pub is_online_of : ClientManager → Option (Option ℕ) → Bool
is_online_of m none = false
is_online_of m (some none) = false
is_online_of m (some (some p)) = (m.store p).offline_time == 0

-- `isOnline`.
unfoldable pub is_online : ℕ → ClientManager → Bool
is_online cuid m = is_online_of m (find cuid m.cuid2clients)
