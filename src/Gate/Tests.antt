-- ===== src/Gate/Tests.antt =====
-- The clients of a gateway at work: what the theorems say of one gateway.
use chess_games.Prelude.{
  List, [], false, if◌then◌else◌, none, refl, some, true, ℕ, ◌&&◌, ◌^◌, ◌∷◌, ◌≡◌,
}
use chess_games.Prelude.Int.{pos}
use chess_games.FastMap.{added, find, insert, no_items}
use chess_games.FastMap.Refines.{added-Models, no_items-Models, with_item}
use chess_games.Gate.Clients.{
  Client, ClientManager, Sent, bit_or, client_offline, client_online, kick_out_client, login_quest,
  login_ret, logining, new_ccid, timer_exec,
}
use chess_games.Gate.Login.{CLogin, Checks, c_login, quest_of, ret_login_quest, sex_of}
use chess_games.Gate.Announce.{has_ccid, heard, is_known, timer_exec-Announced}

abbrev eve : Client
eve = record { ccid = 5; cuid = 0; state = logining }

-- Eve lost her connection and was kicked out, too.
abbrev gate : ClientManager
gate = record {
  pid_num = 1;
  client_counter = 2;
  store = λ p. eve;
  fresh = 1;
  clients = added 5 0 no_items;
  dying_clients = 0 ∷ 0 ∷ [];
}

timer_exec-Announced_example :
    (sent : List Sent) × (next : ClientManager) × (timer_exec gate ≡ some (sent, next))
    × (next.dying_clients ≡ [])
    × ((k : ℕ)
        → find k next.clients
          ≡ some (
              if has_ccid gate.store k gate.dying_clients
              then none
              else with_item 5 0 (λ j. none) k))
    × ((k : ℕ)
        → heard k sent ≡ (
            if has_ccid gate.store k gate.dying_clients && is_known (with_item 5 0 (λ j. none) k)
            then 1
            else 0))
timer_exec-Announced_example =
    timer_exec-Announced gate (with_item 5 0 (λ j. none))
      (added-Models no_items (λ k. none) no_items-Models 5 0 refl)

abbrev checks : Checks
checks = record {
  check_wechat_login = some (record { openid = 70; nickname = 71; img = 72; sex = 1 });
  apple_review = false;
}

abbrev wechat : CLogin
wechat = record {
  login_type = pos 1;
  openid = 60;
  token = 61;
  nick_name = 62;
  imgurl = 63;
  sex = pos 2;
}

-- A login of a type that there is not.
unknown_type :
    (c_login checks (record wechat { login_type = pos 7 }) 5 gate).0
    ≡ login_quest (quest_of wechat 5 none) ∷ []
unfolding c_login find
unknown_type = refl

-- A count of more than 24 bits runs into the number of the gateway.
shared_ccid : new_ccid 1500000000 2 (2 ^ 24) ≡ new_ccid 1500000000 3 0
unfolding new_ccid bit_or
shared_ccid = refl

-- The connection that has just come gets its answer and is lost.
abbrev first_client : ℕ × ClientManager
first_client = client_online 1 (record gate { clients = no_items; dying_clients = []; fresh = 0 })

first_ccid : first_client.0 ≡ 4311744514
unfolding client_online new_ccid bit_or insert
first_ccid = refl

answer : (ret_login_quest 5 206108 1 gate).0 ≡ login_ret 5 1 ∷ []
unfolding ret_login_quest find
answer = refl

kicked_out : kick_out_client 5 true gate ≡ some ([], record gate { dying_clients = 0 ∷ 0 ∷ 0 ∷ [] })
unfolding kick_out_client find
kicked_out = refl

lost : client_offline 6 gate ≡ gate
unfolding client_offline find
lost = refl

-- The sex of who logs in by wechat is lost.
lost_sex : (sex_of 1 ≡ pos 0) × (sex_of 2 ≡ pos 0)
unfolding sex_of
lost_sex = (refl, refl)
