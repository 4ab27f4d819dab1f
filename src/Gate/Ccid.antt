-- ===== src/Gate/Ccid.antt =====
-- The ids of connections.
use chess_games.Prelude.{false, suc, zero, ℕ, ◌*◌, ◌+◌, ◌≡◌, ◌⊎◌}
use chess_games.FastMap.{FastMap, insert}
use chess_games.Gate.Clients.{ClientManager, new_ccid}

-- `x` with `m` zeros behind it.
shift : ℕ → ℕ → ℕ
shift zero x = x
shift (suc m) x = 2 * shift m x

-- What a gateway does with the next connection: its id is that of the time, the gateway and the
-- count, which goes on for the one after it, or there is none if the id is in use.
abbrev pub HasNextId : ℕ → ClientManager → ℕ × ClientManager → Type 0
HasNextId now g r =
    ((r.0 ≡ new_ccid now g.pid_num g.client_counter) × (r.1.client_counter ≡ g.client_counter + 1))
    ⊎ (((insert (new_ccid now g.pid_num g.client_counter) g.fresh g.clients).0 ≡ false)
        × (r.0 ≡ 0)
        × (r.1.client_counter ≡ g.client_counter + 1))
