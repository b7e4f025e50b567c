-- ===== src/Redis/Tests.antt =====
-- Concrete operations of the Redis client.
use svx_reflector_dashboard.Base.{◌≡◌, refl, true, false, some, List, [], ◌∷◌, length}
use svx_reflector_dashboard.Redis.{
  RedisClient, Net, Operation, set_ex, del, connect, decimal, decimal_from,
}
use svx_reflector_dashboard.Redis.Commands.{
  read_commands, operate_all, session, read_commands-operate_all,
}

abbrev client : RedisClient
client = record { db = 1; connected = false; sent = [] }

abbrev online : Net
online = record { dialled = true; written = true; replied = true }

-- A value with the end of a line in it, and a reply that does not come.
abbrev operations : List (Net × Operation)
operations =
    (online, set_ex (b'k' ∷ []) 120 (b'v' ∷ 13 ∷ 10 ∷ b'$' ∷ []))
    ∷ (record online { replied = false }, del (b'k' ∷ []))
    ∷ []

decimal_120 : decimal 120 ≡ b'1' ∷ b'2' ∷ b'0' ∷ []
unfolding decimal decimal_from
decimal_120 = refl

read_commands-operate_all_example :
    read_commands
      (length (session 1 operations))
      (operate_all operations (connect online client).0).sent
    ≡ some (session 1 operations, [])
read_commands-operate_all_example =
    read_commands-operate_all online operations client refl refl (refl, (refl, tt))
