-- ===== src/Lib.antt =====
-- A model of the game servers, chiefly of the card game thirteen water in the lobby process.
--
-- The lobby deals thirteen cards to each player of a room; a player lays them in three rows, of
-- three, five and five cards. `Deck` judges a row, or all thirteen cards, by its brand and its
-- points. `Score` compares the players of a room two by two, row by row, and moves the points of a
-- round between them. Ghost cards stand for any card.
--
-- Prelude: shared names, tests on numbers, lists, integers.
-- Deck (server/processes/lobby/deck.h, deck.cpp): cards, brands, `cmpBrandInfo`.
--   Deck/Sort: `std::sort` with `lessCard`. Deck/Loops: loops that several routines share.
--   Deck/Five: `brand5`, `brandInfo5`; Five/Agree, Five/Meaning, Five/Ladder, Five/Wheel and
--   Five/Correct prove. Deck/Three: `brand3`, `brandInfo3`.
--   Deck/Ghost: `isSubset`, `ghost3`, `ghost5`, `ghostInfo3`, `ghostInfo5`, `brand`, `brandInfo`;
--   Ghost/Agree and Ghost/Faults prove. Deck/Special: `g13SpecialBrand` and its two parts.
-- Score (server/processes/lobby/water13.cpp): `calcRound`.
--   Score/Players: its first loop. Score/Compare: the comparison of each two players.
--   Score/Pay: the last loop and the whole. Score/Rows, Shots, NoShots, Total, Loops and Round
--   prove.
-- Room: rooms of thirteen water (server/processes/lobby: water13.cpp, water13_card.cpp, room.cpp),
--   from the request to the renewal or the end. A handler is a function from a room to the room that it
--   leaves, or to none where the source reads a null pointer or off the end of an array.
--   Room/Create: the tests in `proto_C_G13_CreateGame` and the deck that `tryStartRound` builds.
--   Room/Deal: `tryStartRound` with its payments, and `checkAllSelectMultiple`. Room/Enough,
--   Room/Hands and Room/Banker prove. The shuffle is an argument, of which the theorems take that it
--   keeps the number of each card. Room/Seats: `enterRoom`, `getEmptySeatIndex` and
--   `removePlayer`; Room/OneSeat proves.
--   Room/Game: what the handlers share, `getPlayerInfoByCuid` and `abortGame`. Its record `Env` is
--   the process around a room: who is connected, the time, the shuffle, the random numbers.
--   Room/Settle: `trySettleGame`, `trySettleAll`, `settleAll`. Room/Votes: `giveUp`,
--   `proto_C_G13_VoteFoAbortGame`, `checkAllVotes`. Room/QuickStart: `proto_C_G13_QuickStart`,
--   `proto_C_G13_VoteForQuickStart`, `checkAllVotesQuickStart`. Room/Bring: `readyFlag`, `bringOut`.
--   Room/Chips: `proto_C_G13_ChipInPoint`, `checkAllChipInPoint`, `proto_C_G13_SelectMultiple`.
--   Room/Renew: `proto_C_G13_ReplyHalfEnter`, `proto_C_G13_RenewRoom`, `proto_C_G13_RenewReply`,
--   `checkAllRenewReply`. Room/Timer: `timerExec`. Room/Step puts them together: an event is a
--   message of a client or the timer. A room has two logs, the payments taken (`bills`) and the
--   clients whose `afterLeaveRoom` was called (`left`).
--   Room/Phase: the life of a room as a step relation on status and rounds, with Ballots,
--   QuickStarts, Rounds, Steps and Timers for the handlers, and Invariant for what can be reached.
--   Room/Balance, Room/Taken, Room/Winners, Room/Deadline, Room/Stuck, Room/Wedge and Room/Opposed
--   prove more of the handlers.
--   Room/Registry: the table of rooms, `getRoomId`, `Room::add`, `timerExecAll` (room.cpp); its
--   children Ids, Again and Sweep prove. Room/Open: `proto_C_G13_CreateGame` and
--   `proto_C_G13_JoinGame` in the table; its children Opens and Stranded prove.
--   Room/Gold and Room/GoldHands: rooms of gold (water13_gold.cpp), the places with their rooms,
--   `createGame`, `matchRoom`, and `giveUp`, `readyFlag`, `bringOut`. Room/GoldPlaces and
--   Room/GoldRounds prove.
-- Url: two codecs for query strings. Url/Http (server/processes/http/url_en_decode.cpp) and
--   Url/Component (server/water/componet/url_encrypt.cpp).
-- Lobby: the clients of the lobby (server/processes/lobby: client.h, client.cpp, client_manager.h,
--   client_manager.cpp). A pointer to a client is a place in a store, and strings are known by
--   numbers. Lobby/Clients: `Client`, the three tables of `ClientManager`, `insert` and `erase`.
--   Lobby/Login: `proto_LoginQuest`; its record `World` has the answers of redis. Lobby/Ticks: lost
--   connections, `timerExecAll`. Lobby/Money: the requests about money. Lobby/History: the games
--   played, `afterLeaveRoom` and the pages of the history. Lobby/Saved: `serialize`, `deserialize`,
--   `loadClient`. Lobby/Tables, Indexed, Admitted, Trusted, Logins, Swept, Offline, Purchases,
--   Kept and Lives prove of the tables, Survives of a login and lost connections; Week, Pages and
--   Restored of the history and of what is saved.
-- Gate: the clients of the gateway (server/processes/gateway: client_manager.h, client_manager.cpp).
--   A handler gives what is sent, and the clients. Gate/Clients: `clientOnline`, `clientOffline`,
--   `kickOutClient`, `timerExec`. Gate/Login: `proto_C_Login`, `proto_RetLoginQuest`. Gate/Announce,
--   Checked and Ccid prove. The lobby hears of a login by `login_quest`, which `login` of Lobby/Login
--   takes, and of a lost connection by `client_disconnected`, which is that of Lobby/Ticks.
-- FastMap (server/water/componet/fast_travel_unordered_map.h): `FastTravelUnorderedMap`, which the
--   tables of clients are. The source warns that a rehash of the map breaks it; the map holds places
--   in the vector, which no rehash changes, and no iterator of it is used after an insertion, so a
--   map from keys to places is the model. FastMap/Runs has its changes as a sequence. FastMap/Keys, Steps and
--   Refines prove.
-- Queue (server/water/componet/circular_queue.h): `CircularQueue`. Queue/View sees it as
--   a list, and Queue/Refines and Queue/Changes prove.
-- Net: Net/Packet and Net/Tcp (server/water/net/packet.cpp, tcp_packet.cpp): packets with a length
--   in front, as they come in pieces over a connection. Net/Frames proves. Net/Buffer
--   (server/water/net/buffered_connection.cpp): the bytes that wait to be sent or read.
--   Net/Places and Net/Carries prove.
--
-- The assertion in `Deck::suit` and `Deck::rank` is tested by `evaluate` of Score/Players, for the
-- cards whose rank a round asks for; the other callers take it as given. A card is a number, as in
-- the source; suits, ranks and brands are numbers and a data type with
-- the source's values. Arrays are lists, and the sorts in place are the lists that they leave. A
-- signed number is an integer; where the source takes it for unsigned, the bit pattern is written
-- out. The loop `penta_loop` has fuel: its index grows by two at least in each of twelve rounds, up
-- to 12. The loop of `getRoomId` has fuel too: one step for each expired id and one for each of the
-- 899999 ids there are is enough.
--
-- Not modelled: the network, the data base, the message classes and the sockets,
-- which are input and output; the recommendation of hands, of which the entry point is commented out.
-- The messages to the clients of a room are left out of its handlers, and so are the chat, the flag
-- for sharing and the messages of the lobby's clients.
mod Prelude
pub mod Deck
pub mod Score
pub mod Room
pub mod Queue
pub mod Url
pub mod Net
pub mod FastMap
pub mod Lobby
pub mod Gate
