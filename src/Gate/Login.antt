-- ===== src/Gate/Login.antt =====
-- The login of a client at the gateway: `proto_C_Login`, `proto_C_LoginOut`, `proto_RetLoginQuest`
-- and `proto_ClientBeReplaced` of server/processes/gateway/client_manager.cpp.
use chess_games.Prelude.{
  Bool, List, Option, [], if◌then◌else◌, leb, none, not, some, true, ℕ, ◌%◌, ◌&&◌, ◌-◌, ◌==◌, ◌∷◌,
}
use chess_games.Prelude.Int.{eqb_ℤ, pos, ℤ}
use chess_games.FastMap.{find}
use chess_games.Gate.Clients.{
  ClientManager, LoginQuest, Sent, erase_later, kick_out_client, login_quest, login_ret, playing,
}

pub record CLogin : Type 0 where
  pub login_type : ℤ
  pub openid : ℕ
  pub token : ℕ
  pub nick_name : ℕ
  pub imgurl : ℕ
  pub sex : ℤ

-- What `checkWechatLogin` finds; `sex` is the number that the service gives.
pub record WechatInfo : Type 0 where
  pub openid : ℕ
  pub nickname : ℕ
  pub img : ℕ
  pub sex : ℕ

-- What the service says of a token, none if not 0, and `appleReview`.
pub record Checks : Type 0 where
  pub check_wechat_login : Option WechatInfo
  pub apple_review : Bool

abbrev pub quest_of : CLogin → ℕ → Option Bool → LoginQuest
quest_of q ccid verified = record {
  verified = verified;
  openid = q.openid;
  token = q.token;
  ccid = ccid;
  name = q.nick_name;
  imgurl = q.imgurl;
  sex = q.sex;
}

-- The number becomes a string of one `char`, of which `atoi` reads the digit.
unfoldable pub sex_of : ℕ → ℤ
sex_of n = if leb 48 (n % 256) && leb (n % 256) 57 then pos (n % 256 - 48) else pos 0

abbrev pub login_failed : ℕ → ℕ → ClientManager → List Sent × ClientManager
login_failed p code g = (login_ret (g.store p).ccid code ∷ [], erase_later p g)

abbrev pub wechat_login :
    CLogin → ℕ → ℕ → ClientManager → Option WechatInfo → List Sent × ClientManager
wechat_login q ccid p g none = login_failed p 3 g
wechat_login q ccid p g (some info) = (
  login_quest (record (quest_of q ccid (some true)) {
    openid = info.openid;
    name = info.nickname;
    imgurl = info.img;
    sex = sex_of info.sex;
  })
      ∷ [],
  g,
)

abbrev pub login_at : Checks → CLogin → ℕ → ℕ → ClientManager → List Sent × ClientManager
login_at w q ccid p g =
    if eqb_ℤ q.login_type (pos 1)
    then wechat_login q ccid p g w.check_wechat_login
    else if eqb_ℤ q.login_type (pos 0)
    then (if not w.apple_review
        then login_failed p 0 g
        else (login_quest (quest_of q ccid (some true)) ∷ [], g))
    else if eqb_ℤ q.login_type (pos 2)
    then login_failed p 0 g
    else (login_quest (quest_of q ccid none) ∷ [], g)

abbrev pub login_of :
    Checks → CLogin → ℕ → ClientManager → Option (Option ℕ) → List Sent × ClientManager
login_of w q ccid g none = ([], g)
login_of w q ccid g (some none) = ([], g)
login_of w q ccid g (some (some p)) = login_at w q ccid p g

-- `proto_C_Login`.
unfoldable pub c_login : Checks → CLogin → ℕ → ClientManager → List Sent × ClientManager
c_login w q ccid g = login_of w q ccid g (find ccid g.clients)

-- `proto_C_LoginOut` and `proto_ClientBeReplaced`.
abbrev pub c_login_out : ℕ → ClientManager → Option (List Sent × ClientManager)
c_login_out ccid g = kick_out_client ccid true g

-- The answer of the lobby to a client: 1 for success, 2 for a wrong token, 0 for all else.
abbrev pub ret_code : ℕ → ℕ
ret_code rc = if rc == 1 then 1 else if rc == 4 then 2 else 0

abbrev pub answered : ℕ → ℕ → ClientManager → Option (Option ℕ) → List Sent × ClientManager
answered cuid rc g none = ([], g)
answered cuid rc g (some none) = ([], g)
answered cuid rc g (some (some p)) = (
  login_ret (g.store p).ccid (ret_code rc) ∷ [],
  record g {
    store = λ j. if p == j then record (g.store p) { cuid = cuid; state = playing } else g.store j;
  },
)

-- `proto_RetLoginQuest`.
unfoldable pub ret_login_quest : ℕ → ℕ → ℕ → ClientManager → List Sent × ClientManager
ret_login_quest ccid cuid rc g = answered cuid rc g (find ccid g.clients)
