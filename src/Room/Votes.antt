-- ===== src/Room/Votes.antt =====
-- Giving a game up (`Water13_Card::giveUp`) and the ballot on it: `proto_C_G13_VoteFoAbortGame`
-- and `checkAllVotes` of water13_card.cpp. A handler takes the cuid of a client whose room this is.
use chess_games.Prelude.{
  Bool, List, Option, [], false, if◌then◌else◌, none, not, some, true, ℕ, ◌&&◌, ◌*◌, ◌+◌, ◌==◌,
  ◌||◌, ◌∷◌,
}
use chess_games.Room.Deal.{
  Bill, GameStatus, Room, Seat, Vote, aye, closed, is_valid, nay, play, prepare, settle, settle_all,
  unvoted, valid_players, vote,
}
use chess_games.Room.Seats.{is_seated}
use chess_games.Room.Game.{Env, abort_game, forget, remove_cuid, update_info, update_valid}
use chess_games.Room.Settle.{settle_all_game}

abbrev pub is_aye : Vote → Bool
is_aye aye = true
is_aye _ = false

abbrev pub is_nay : Vote → Bool
is_nay nay = true
is_nay _ = false

abbrev pub is_unvoted : Vote → Bool
is_unvoted unvoted = true
is_unvoted _ = false

abbrev pub is_vote : GameStatus → Bool
is_vote vote = true
is_vote _ = false

-- The first loop of `checkAllVotes`: whether it meets a nay, and the ayes before it.
unfoldable pub has_opposition : List Seat → Bool
has_opposition [] = false
has_opposition (s ∷ l) = (is_valid s && is_nay s.vote) || has_opposition l

unfoldable pub aye_size : List Seat → ℕ
aye_size [] = 0
aye_size (s ∷ l) =
    let rest = aye_size l in
    if is_valid s && is_nay s.vote then 0 else (if is_valid s && is_aye s.vote then 1 else 0) + rest

abbrev pub set_vote : Vote → Seat → Seat
set_vote v s = record s { vote = v }

-- The ballot is over; `status` is what the room goes on with.
abbrev pub end_ballot : GameStatus → Room → Room
end_ballot status room = record room {
  players = update_valid (set_vote unvoted) room.players;
  start_vote_time = 0;
  vote_sponsor_cuid = 0;
  status = status;
}

-- The owner pays for a game that the winner was to pay; none is the null pointer that is read for
-- the log if the owner is not connected.
unfoldable pub bill_owner : Env → Room → Option (List Bill)
bill_owner env room =
    if not (room.attr.payor == 2)
    then some room.bills
    else if env.online room.owner_cuid
    then some (
        record { cuid = room.owner_cuid; price = room.player_price * room.attr.player_size }
        ∷ room.bills)
    else none

abbrev pub settle_billed : Env → Room → Option (List Bill) → Option Room
settle_billed env room none = none
settle_billed env room (some l) = settle_all_game env (record (end_ballot vote room) { bills = l })

unfoldable pub check_all_votes : Env → Room → Option Room
unfolding has_opposition aye_size bill_owner
check_all_votes env room =
    if not (is_vote room.status)
    then some room
    else if has_opposition room.players
    then some (end_ballot play room)
    else if aye_size room.players == valid_players room.players
    then settle_billed env room (bill_owner env room)
    else some room

-- The client sponsors a ballot.
abbrev pub start_ballot : Env → ℕ → Room → Room
start_ballot env cuid room = record room {
  start_vote_time = env.now;
  vote_sponsor_cuid = cuid;
  status = vote;
}

-- `info->vote = v`.
abbrev pub put_vote : ℕ → Vote → Room → Room
put_vote cuid v room = record room { players = update_info cuid (set_vote v) room.players }

-- The `switch` of `giveUp`.
unfoldable pub give_up_in : Env → ℕ → GameStatus → Room → Option Room
give_up_in env cuid prepare room =
    if room.round == 0
    then some (if cuid == room.owner_cuid then abort_game env room else remove_cuid cuid room)
    else check_all_votes env (put_vote cuid aye (start_ballot env cuid room))
give_up_in env cuid play room = check_all_votes env (put_vote cuid aye (start_ballot env cuid room))
give_up_in env cuid settle room =
    check_all_votes env (put_vote cuid aye (start_ballot env cuid room))
give_up_in env cuid vote room = check_all_votes env (put_vote cuid aye room)
give_up_in env cuid settle_all room = some (remove_cuid cuid room)
give_up_in env cuid closed room = some (remove_cuid cuid room)
give_up_in env cuid _ room = some room

unfoldable pub give_up : Env → ℕ → Room → Option Room
give_up env cuid room =
    if not (is_seated cuid room.players)
    then some (forget cuid room)
    else give_up_in env cuid room.status room

unfoldable pub vote_for_abort : Env → ℕ → Vote → Room → Option Room
vote_for_abort env cuid v room =
    if not (is_seated cuid room.players)
    then some (forget cuid room)
    else if not (is_vote room.status)
    then some room
    else if is_unvoted v
    then some (put_vote cuid v room)
    else check_all_votes env (put_vote cuid v room)
