-- ===== src/Lobby/Saved.antt =====
-- `Client::serialize` and `Client::deserialize` of server/processes/lobby/client.cpp. The messages of
-- protocol buffers are records here; a field keeps the bits of a number, and times are in seconds.
use chess_games.Prelude.{Bool, List, Option, [], if◌then◌else◌, none, not, some, ℕ, ◌++◌, ◌==◌, ◌∷◌}
use chess_games.Prelude.Int.{ℤ}
use chess_games.Lobby.History.{DayRank, Detail, Opponent, after_leave_room}
use chess_games.Lobby.Clients.{Client, new_client}
use chess_games.Lobby.Login.{Loaded, load_failed, loaded, unknown}

-- `permanent::ClientData::G13history`.
pub record G13HistoryData : Type 0 where
  pub details : List Detail
  pub week_rank : ℤ
  pub week_game : ℤ
  pub today_rank : ℤ
  pub today_game : ℤ
  pub his_days : List DayRank

-- `permanent::ClientData`.
pub record ClientData : Type 0 where
  pub openid : ℕ
  pub cuid : ℕ
  pub name : ℕ
  pub roomid : ℕ
  pub money : ℤ
  pub money1 : ℤ
  pub token : ℕ
  pub imgurl : ℕ
  pub sex : ℕ
  pub g13his : G13HistoryData
  pub share_time : ℕ

abbrev pub opps_out : List Opponent → List Opponent
opps_out [] = []
opps_out (o ∷ l) = record { cuid = o.cuid; name = o.name; rank = o.rank } ∷ opps_out l

abbrev pub details_out : List Detail → List Detail
details_out [] = []
details_out (d ∷ l) =
    record { roomid = d.roomid; rank = d.rank; time = d.time; opps = opps_out d.opps }
    ∷ details_out l

abbrev pub days_out : List DayRank → List DayRank
days_out [] = []
days_out (d ∷ l) = record { rank = d.rank; game = d.game; time = d.time } ∷ days_out l

-- The message of a client.
unfoldable pub to_data : Client → ClientData
to_data c = record {
  openid = c.openid;
  cuid = c.cuid;
  name = c.name;
  roomid = c.roomid;
  money = c.money;
  money1 = c.money1;
  token = c.token;
  imgurl = c.imgurl;
  sex = c.sex;
  g13his = record {
    details = details_out c.g13his.details;
    week_rank = c.g13his.week_rank;
    week_game = c.g13his.week_game;
    today_rank = c.g13his.today_rank;
    today_game = c.g13his.today_game;
    his_days = days_out c.g13his.his_days;
  };
  share_time = c.last_share_time;
}

-- The loops that fill `m_g13his` append to what it has.
abbrev pub details_in : List Detail → List Detail → List Detail
details_in done [] = done
details_in done (d ∷ l) =
    details_in
      (done
        ++ record { roomid = d.roomid; rank = d.rank; time = d.time; opps = opps_out d.opps } ∷ [])
      l

abbrev pub days_in : List DayRank → List DayRank → List DayRank
days_in done [] = done
days_in done (d ∷ l) =
    days_in (done ++ record { rank = d.rank; game = d.game; time = d.time } ∷ []) l

unfoldable pub from_data : ClientData → Client → Client
from_data x c = record c {
  openid = x.openid;
  cuid = x.cuid;
  name = x.name;
  roomid = x.roomid;
  money = x.money;
  money1 = x.money1;
  token = x.token;
  imgurl = x.imgurl;
  sex = x.sex;
  g13his = record {
    details = details_in c.g13his.details x.g13his.details;
    week_rank = x.g13his.week_rank;
    week_game = x.g13his.week_game;
    today_rank = x.g13his.today_rank;
    today_game = x.g13his.today_game;
    his_days = days_in c.g13his.his_days x.g13his.his_days;
  };
  last_share_time = if not (x.share_time == 0) then x.share_time else 0;
}

abbrev pub serialized : {Bin : Type 0} → Bin → Option Bin → Bin
serialized empty none = empty
serialized empty (some bin) = bin

-- `serialize`, with `SerializeToString`, where none is false, and the empty string.
unfoldable pub serialize : {Bin : Type 0} → (ClientData → Option Bin) → Bin → Client → Bin
serialize write_out empty c = serialized empty (write_out (to_data c))

abbrev pub deserialized : Client → Option ClientData → Option Client
deserialized c none = none
deserialized c (some x) = some (from_data x c)

-- `deserialize` into the object `c`, with `ParseFromString`.
unfoldable pub deserialize :
    {Bin : Type 0} → (Bin → Option ClientData) → Bin → Client → Option Client
deserialize parse bin c = deserialized c (parse bin)

abbrev pub loaded_from : Option Client → Loaded
loaded_from none = load_failed
loaded_from (some c) = loaded c

-- `ClientManager::loadClient` by openid, of what redis has for it.
unfoldable pub load_client :
    {Bin : Type 0} → (Bin → Option ClientData) → (Bin → Bool) → Bin → Loaded
load_client parse is_empty bin =
    if is_empty bin then unknown else loaded_from (deserialize parse bin new_client)

-- `Client::afterLeaveRoom`.
unfoldable pub leave_room : (ℕ → ℕ) → Option Detail → Client → Client
leave_room clock d c = record c { roomid = 0; g13his = after_leave_room clock d c.g13his }
