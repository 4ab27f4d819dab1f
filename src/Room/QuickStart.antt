-- ===== src/Room/QuickStart.antt =====
-- The start of a game before all seats are taken: `proto_C_G13_QuickStart`,
-- `proto_C_G13_VoteForQuickStart` and `checkAllVotesQuickStart` of water13_card.cpp.
use chess_games.Prelude.{
  Bool, List, Option, [], false, if◌then◌else◌, ltb, not, some, true, ℕ, ◌&&◌, ◌==◌, ◌||◌, ◌∷◌,
}
use chess_games.Room.Deal.{
  GameStatus, Room, Seat, Vote, aye, is_ready, is_valid, prepare, quick_start, unvoted,
  valid_players,
}
use chess_games.Room.Seats.{is_seated}
use chess_games.Room.Game.{Env, forget, start_round, update_valid}
use chess_games.Room.Votes.{aye_size, has_opposition, is_unvoted, put_vote, set_vote}

abbrev pub is_quick_start : GameStatus → Bool
is_quick_start quick_start = true
is_quick_start _ = false

unfoldable pub check_all_votes_quick_start : Env → Room → Option Room
check_all_votes_quick_start env room =
    if not (is_quick_start room.status)
    then some room
    else if has_opposition room.players
    then some (record room {
      players = update_valid (set_vote unvoted) room.players;
      quick_start_time = 0;
      status = prepare;
    })
    else if aye_size room.players == valid_players room.players
    then start_round env (record room {
      players = update_valid (set_vote unvoted) room.players;
      quick_start_time = 0;
    })
    else some room

unfoldable pub all_valid_ready : List Seat → Bool
all_valid_ready [] = true
all_valid_ready (s ∷ l) = (not (is_valid s) || is_ready s.status) && all_valid_ready l

-- The case of `prepare` falls through to that of `quickStart`.
unfoldable pub quick_start_in : Env → ℕ → GameStatus → Room → Option Room
quick_start_in env cuid prepare room =
    if not (cuid == room.owner_cuid)
    then some room
    else if not (all_valid_ready room.players)
    then some room
    else if ltb (valid_players room.players) 2
    then some room
    else check_all_votes_quick_start env
        (put_vote cuid aye (record room { quick_start_time = env.now; status = quick_start }))
quick_start_in env cuid quick_start room = check_all_votes_quick_start env (put_vote cuid aye room)
quick_start_in env cuid _ room = some room

unfoldable pub ask_quick_start : Env → ℕ → Room → Option Room
ask_quick_start env cuid room =
    if not (is_seated cuid room.players)
    then some (forget cuid room)
    else quick_start_in env cuid room.status room

unfoldable pub vote_for_quick_start : Env → ℕ → Vote → Room → Option Room
vote_for_quick_start env cuid v room =
    if not (is_seated cuid room.players)
    then some (forget cuid room)
    else if not (is_quick_start room.status)
    then some room
    else if is_unvoted v
    then some (put_vote cuid v room)
    else check_all_votes_quick_start env (put_vote cuid v room)
