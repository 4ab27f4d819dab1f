-- ===== src/Lobby/Tests.antt =====
-- The clients of the lobby at work: what the theorems say of one manager.
use chess_games.Prelude.{Option, arith, false, length, none, refl, some, true, ℕ, ◌≡◌, ◌≢◌}
use chess_games.FastMap.{added, erase, find, insert, no_items}
use chess_games.FastMap.Refines.{added-Models, no_items-Models}
use chess_games.Lobby.Clients.{
  Client, ClientManager, erase_client, insert_client, new_client, write,
}
use chess_games.Lobby.Login.{
  LoginQuest, RetCode, World, get_client_unique_id, login, save_client, succes, unknown,
}
use chess_games.Lobby.Ticks.{client_disconnected, is_offline_long, offline_clients, timer_exec_all}
use chess_games.Lobby.Tables.{Shows, View, entered}
use chess_games.Lobby.Indexed.{IsIndexed, entered-IsIndexed}
use chess_games.Lobby.Trusted.{Admits}
use chess_games.Lobby.Logins.{login-Served}
use chess_games.Lobby.Offline.{entry_after, timer_exec_all-IsManaged}
use chess_games.Lobby.Lives.{
  Lives-IsManaged, after_login, after_loss, answered_next, born, empty_manager,
  no_clients-IsIndexed, no_view,
}
use chess_games.Lobby.Survives.{login-loss}
use chess_games.Lobby.Admitted.{Answered, IsManaged}

-- Redis knows no client, and everything is saved.
abbrev willing : World
willing = record {
  id_saved = true;
  loads = unknown;
  is_bound = false;
  binds = true;
  saves = true;
  is_room = λ id. false;
  has_seat = λ id cuid. false;
}

abbrev ann : LoginQuest
ann = record {
  ccid = 11;
  openid = 21;
  name = 31;
  token = 41;
  imgurl = 51;
  ipstr = 61;
  sex = 1;
  verified = true;
}

-- The client that logged in: it has place 0.
abbrev ann_client : Client
ann_client = record new_client {
  ccid = 11;
  cuid = 206108;
  openid = 21;
  name = 31;
  token = 41;
  imgurl = 51;
  ipstr = 61;
  sex = 1;
}

abbrev ann_view : View
ann_view = entered 0 ann_client no_view

-- Off line since 1000.
abbrev ann_away : Client
ann_away = record ann_client { offline_time = 1000 }

abbrev manager_with : Client → ClientManager
manager_with c = record {
  store = write 0 c (λ p. new_client);
  fresh = 1;
  openid2clients = added 21 0 no_items;
  cuid2clients = added 206108 0 no_items;
  ccid2clients = added 11 0 no_items;
  unique_id_counter = 206108;
}

-- Where a client with the ccid is.
abbrev found_at : Option (RetCode × ClientManager) → ℕ → Option (Option ℕ)
found_at none k = none
found_at (some r) k = find k r.1.ccid2clients

abbrev code_of : Option (RetCode × ClientManager) → Option RetCode
code_of none = none
code_of (some r) = some r.0

login_new : code_of (login willing ann (empty_manager 206107)) ≡ some succes
unfolding login find insert_client get_client_unique_id insert save_client
login_new = refl

-- A second login, from another connection.
abbrev ann_again : LoginQuest
ann_again = record ann { ccid = 12; token = 42 }

login_replaces : found_at (login willing ann_again (manager_with ann_client)) 11 ≡ some none
unfolding login find insert_client erase_client insert erase save_client
login_replaces = refl

login_replaced : found_at (login willing ann_again (manager_with ann_client)) 12 ≡ some (some 0)
unfolding login find insert_client erase_client insert erase save_client
login_replaced = refl

manager_with-Shows : (c : Client) → Shows (manager_with c) ann_view
manager_with-Shows c = record {
  openids = added-Models no_items (λ k. none) no_items-Models 21 0 refl;
  cuids = added-Models no_items (λ k. none) no_items-Models 206108 0 refl;
  ccids = added-Models no_items (λ k. none) no_items-Models 11 0 refl;
}

ann-IsIndexed : IsIndexed (write 0 ann_client (λ p. new_client)) 1 ann_view
ann-IsIndexed =
    entered-IsIndexed (write 0 ann_client (λ p. new_client)) 1 no_view (no_clients-IsIndexed _ 1) 0
      (λ k h. ground (arith, h)) (omega arith) refl refl refl

ann_away-IsIndexed : IsIndexed (write 0 ann_away (λ p. new_client)) 1 ann_view
ann_away-IsIndexed =
    entered-IsIndexed (write 0 ann_away (λ p. new_client)) 1 no_view (no_clients-IsIndexed _ 1) 0
      (λ k h. ground (arith, h)) (omega arith) refl refl refl

login-Served_example :
    Answered willing ann_again
      (manager_with ann_client)
      (login willing ann_again (manager_with ann_client))
    × Admits willing ann_again
        (manager_with ann_client)
        ann_view
        (login willing ann_again (manager_with ann_client))
login-Served_example =
    login-Served willing ann_again (manager_with ann_client) ann_view
      (manager_with-Shows ann_client) ann-IsIndexed (λ c e. absurd (ground (arith, e)))

-- 100 seconds after the connection was lost.
timer_exec_all-IsManaged_example :
    (next : ClientManager) × (w : View) × (timer_exec_all 1100 (manager_with ann_away) ≡ some next)
    × IsManaged next w
    × (next.store ≡ (manager_with ann_away).store)
    × ((k : ℕ) → w.cuids k ≡ entry_after 1100 (manager_with ann_away).store (ann_view.cuids k))
timer_exec_all-IsManaged_example =
    timer_exec_all-IsManaged 1100 (manager_with ann_away) ann_view (manager_with-Shows ann_away)
      ann_away-IsIndexed

-- Ann logs in, and her connection is lost.
abbrev ann_manager : ClientManager
ann_manager = answered_next (empty_manager 206107) (login willing ann (empty_manager 206107))

ann_is_in : login willing ann (empty_manager 206107) ≡ some (succes, ann_manager)
unfolding login find insert_client get_client_unique_id insert save_client
ann_is_in = refl

Lives-IsManaged_example : (v : View) × IsManaged (client_disconnected 11 1000 ann_manager) v
Lives-IsManaged_example = Lives-IsManaged (
    after_loss 11 1000 (
      after_login willing ann succes ann_manager (born 206107) (λ c e. absurd (ground (arith, e)))
        ann_is_in))

-- How many clients the table by cuid has after the timer.
abbrev count_of : Option ClientManager → ℕ
count_of none = 7
count_of (some m) = length m.cuid2clients.items

timer_early : count_of (timer_exec_all 1100 (manager_with ann_away)) ≡ 0
unfolding timer_exec_all offline_clients is_offline_long erase_client erase
timer_early = refl

timer_late : count_of (timer_exec_all 9000 (manager_with ann_away)) ≡ 1
unfolding timer_exec_all offline_clients is_offline_long erase_client erase
timer_late = refl

abbrev ann_moved : ClientManager
ann_moved =
    answered_next (manager_with ann_client) (login willing ann_again (manager_with ann_client))

ann_moves : login willing ann_again (manager_with ann_client) ≡ some (succes, ann_moved)
unfolding login find insert_client erase_client insert erase save_client
ann_moves = refl

login-loss_example :
    (p : ℕ) × (find 21 ann_moved.openid2clients ≡ some (some p))
    × ((ccid now : ℕ)
        → ccid ≢ 12
        → ((client_disconnected ccid now ann_moved).store p).offline_time ≡ 0)
login-loss_example =
    login-loss willing ann_again (manager_with ann_client) ann_moved ann_view
      (manager_with-Shows ann_client) ann-IsIndexed (λ c e. absurd (ground (arith, e))) ann_moves
