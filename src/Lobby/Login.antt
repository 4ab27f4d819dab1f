-- ===== src/Lobby/Login.antt =====
-- `ClientManager::proto_LoginQuest` of server/processes/lobby/client_manager.cpp and what it calls.
use chess_games.Prelude.{
  Bool, Option, false, if◌then◌else◌, none, not, some, suc, true, ℕ, ◌%◌, ◌&&◌, ◌+◌, ◌==◌, ◌^◌,
}
use chess_games.FastMap.{find}
use chess_games.Lobby.Clients.{
  Client, ClientManager, erase_client, insert_client, new_client, set_client, write,
}

pub data Loaded : Type 0 where
  load_failed : Loaded
  unknown : Loaded
  loaded : Client → Loaded

-- The answers of redis in one call, `Room::get(id) != nullptr`, and whether the client with a cuid has a
-- seat in the room.
pub record World : Type 0 where
  pub id_saved : Bool
  pub loads : Loaded
  pub is_bound : Bool
  pub binds : Bool
  pub saves : Bool
  pub is_room : ℕ → Bool
  pub has_seat : ℕ → ℕ → Bool

pub record LoginQuest : Type 0 where
  pub ccid : ℕ
  pub openid : ℕ
  pub name : ℕ
  pub token : ℕ
  pub imgurl : ℕ
  pub ipstr : ℕ
  pub sex : ℕ
  pub verified : Bool

pub data RetCode : Type 0 where
  succes : RetCode
  reg_failed : RetCode
  band : RetCode
  token_expiried : RetCode

-- The id and the counter after it.
unfoldable pub get_client_unique_id : World → ℕ → ℕ × ℕ
get_client_unique_id w counter =
    if w.id_saved then ((counter + 1) % 2 ^ 32, (counter + 1) % 2 ^ 32) else (0, counter)

unfoldable pub save_client : World → Bool
save_client w = if w.is_bound then w.saves else w.binds && w.saves

-- `Client::online`, `Room::clientOnline` and `clientOnlineExec` of the room, as to the client and less the
-- messages: a client without a room, or without a seat in it, has none from then on.
unfoldable pub online : World → Client → Client
online w c = record c {
  offline_time = 0;
  roomid =
      if not (c.roomid == 0) && not (w.is_room c.roomid && w.has_seat c.roomid c.cuid)
      then 0
      else c.roomid;
}

abbrev pub reg_failed_with : Option ClientManager → Option (RetCode × ClientManager)
reg_failed_with none = none
reg_failed_with (some m) = some (reg_failed, m)

abbrev pub fields_set : LoginQuest → Client → Client
fields_set q c = record c {
  token = q.token;
  ccid = q.ccid;
  name = q.name;
  imgurl = q.imgurl;
  ipstr = q.ipstr;
  sex = q.sex;
}

abbrev pub stored : World → LoginQuest → ℕ → ClientManager → Option (RetCode × ClientManager)
stored w q p m =
    if q.verified && not (save_client w)
    then reg_failed_with (erase_client p m)
    else some (succes, set_client p (online w (m.store p)) m)

abbrev pub logged_in :
    World → LoginQuest → ℕ → Option (Bool × ClientManager) → Option (RetCode × ClientManager)
logged_in w q p none = none
logged_in w q p (some (false, m)) = some (reg_failed, m)
logged_in w q p (some (true, m)) = stored w q p (set_client p (fields_set q (m.store p)) m)

-- A new object for the client `c`.
abbrev pub allocate : Client → ClientManager → ClientManager
allocate c m = record m { store = write m.fresh c m.store; fresh = suc m.fresh }

abbrev pub registered :
    World → LoginQuest → ClientManager → ℕ × ℕ → Option (RetCode × ClientManager)
registered w q m (id, counter) = logged_in w q m.fresh (
    insert_client m.fresh (
      allocate
        (record new_client {
          ccid = q.ccid;
          cuid = id;
          openid = q.openid;
          name = q.name;
          token = q.token;
          sex = q.sex;
        })
        (record m { unique_id_counter = counter })))

abbrev pub is_stranger : LoginQuest → Client → Bool
is_stranger q c = not q.verified && not (q.token == c.token)

abbrev pub logged_off :
    World → LoginQuest → ClientManager → Loaded → Option (RetCode × ClientManager)
logged_off w q m load_failed = some (reg_failed, m)
logged_off w q m unknown =
    if not q.verified
    then some (reg_failed, m)
    else registered w q m (get_client_unique_id w m.unique_id_counter)
logged_off w q m (loaded c) =
    if is_stranger q c
    then some (token_expiried, m)
    else logged_in w q m.fresh (
        insert_client m.fresh
          (allocate (record c { token = q.token; ccid = q.ccid; sex = q.sex }) m))

-- The client is found: it goes, and comes again under its new ccid.
abbrev pub renamed :
    World → LoginQuest → ℕ → Option ClientManager → Option (RetCode × ClientManager)
renamed w q p none = none
renamed w q p (some m) = logged_in w q p (
    insert_client p
      (set_client p (record (m.store p) { ccid = q.ccid; name = q.name; sex = q.sex }) m))

abbrev pub replaced : World → LoginQuest → ClientManager → ℕ → Option (RetCode × ClientManager)
replaced w q m p =
    if is_stranger q (m.store p)
    then some (token_expiried, m)
    else renamed w q p (erase_client p (set_client p (record (m.store p) { token = q.token }) m))

abbrev pub login_of :
    World → LoginQuest → ClientManager → Option (Option ℕ) → Option (RetCode × ClientManager)
login_of w q m none = none
login_of w q m (some none) = logged_off w q m w.loads
login_of w q m (some (some p)) = replaced w q m p

-- `proto_LoginQuest`; none is an exception of a table.
unfoldable pub login : World → LoginQuest → ClientManager → Option (RetCode × ClientManager)
login w q m = login_of w q m (find q.openid m.openid2clients)
