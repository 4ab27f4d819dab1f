-- ===== src/Lobby/Clients.antt =====
-- `Client` of server/processes/lobby/client.h, and the tables of `ClientManager` in
-- client_manager.h and client_manager.cpp. A pointer to a client is a place in `store`; strings are
-- known by numbers, and a time is in seconds, with 0 for `EPOCH`.
use chess_games.Prelude.{Bool, Option, false, if◌then◌else◌, none, some, true, ℕ, ◌==◌}
use chess_games.Prelude.Int.{pos, ℤ}
use chess_games.FastMap.{FastMap, erase, insert}
use chess_games.Lobby.History.{G13His, no_history}

pub record Client : Type 0 where
  pub ccid : ℕ
  pub cuid : ℕ
  pub openid : ℕ
  pub name : ℕ
  pub roomid : ℕ
  pub money : ℤ
  pub money1 : ℤ
  pub token : ℕ
  pub imgurl : ℕ
  pub ipstr : ℕ
  pub sex : ℕ
  pub offline_time : ℕ
  pub last_share_time : ℕ
  pub g13his : G13His

-- `Client::create()`; `m_roomid` and `m_sex` are zeroed.
abbrev pub new_client : Client
new_client = record {
  ccid = 0;
  cuid = 0;
  openid = 0;
  name = 0;
  roomid = 0;
  money = pos 188;
  money1 = pos 100;
  token = 0;
  imgurl = 0;
  ipstr = 0;
  sex = 0;
  offline_time = 0;
  last_share_time = 0;
  g13his = no_history;
}

-- Places from `fresh` on are not in use.
pub record ClientManager : Type 0 where
  pub store : ℕ → Client
  pub fresh : ℕ
  pub openid2clients : FastMap ℕ
  pub cuid2clients : FastMap ℕ
  pub ccid2clients : FastMap ℕ
  pub unique_id_counter : ℕ

abbrev pub write : ℕ → Client → (ℕ → Client) → ℕ → Client
write p c store j = if p == j then c else store j

abbrev pub set_client : ℕ → Client → ClientManager → ClientManager
set_client p c m = record m { store = write p c m.store }

abbrev pub with_openids : ClientManager → Option (FastMap ℕ) → Option ClientManager
with_openids m none = none
with_openids m (some q) = some (record m { openid2clients = q })

abbrev pub with_cuids : Option ClientManager → Option (FastMap ℕ) → Option ClientManager
with_cuids none r = none
with_cuids (some m) none = none
with_cuids (some m) (some q) = some (record m { cuid2clients = q })

abbrev pub with_ccids : Option ClientManager → Option (FastMap ℕ) → Option ClientManager
with_ccids none r = none
with_ccids (some m) none = none
with_ccids (some m) (some q) = some (record m { ccid2clients = q })

abbrev pub refused : Option ClientManager → Option (Bool × ClientManager)
refused none = none
refused (some m) = some (false, m)

abbrev pub to_ccids : ℕ → Client → ClientManager → Bool × FastMap ℕ → Option (Bool × ClientManager)
to_ccids p c m (true, q) = some (true, record m { ccid2clients = q })
to_ccids p c m (false, q) =
    refused
      (with_cuids (with_openids m (erase c.openid m.openid2clients)) (erase c.cuid m.cuid2clients))

abbrev pub to_cuids : ℕ → Client → ClientManager → Bool × FastMap ℕ → Option (Bool × ClientManager)
to_cuids p c m (true, q) =
    to_ccids p c (record m { cuid2clients = q }) (insert c.ccid p m.ccid2clients)
to_cuids p c m (false, q) = refused (with_openids m (erase c.openid m.openid2clients))

abbrev pub to_openids :
    ℕ → Client → ClientManager → Bool × FastMap ℕ → Option (Bool × ClientManager)
to_openids p c m (true, q) =
    to_cuids p c (record m { openid2clients = q }) (insert c.cuid p m.cuid2clients)
to_openids p c m (false, q) = some (false, m)

-- `ClientManager::insert`.
unfoldable pub insert_client : ℕ → ClientManager → Option (Bool × ClientManager)
insert_client p m = to_openids p (m.store p) m (insert (m.store p).openid p m.openid2clients)

-- `ClientManager::erase`.
unfoldable pub erase_client : ℕ → ClientManager → Option ClientManager
erase_client p m =
    with_ccids
      (with_cuids (with_openids m (erase (m.store p).openid m.openid2clients))
        (erase (m.store p).cuid m.cuid2clients))
      (erase (m.store p).ccid m.ccid2clients)
