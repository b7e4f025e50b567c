-- ===== src/Redis.antt =====
-- The Redis client: dmr_bridge/redis_client.go, of which seven bridges have a copy. What is written is
-- recorded for each connection, which is there or not. The numbers of databases and seconds are not
-- negative.
pub mod Commands
pub mod Tests
use svx_reflector_dashboard.Base.{
  ℕ, zero, suc, ◌+◌, ◌/◌, ◌%◌, Bool, true, false, Option, none, some, List, [], ◌∷◌, ◌++◌, ltb,
  ◌==◌, if◌then◌else◌, length,
}
use svx_reflector_dashboard.Base.Buffer.{Bytes}

-- `%d` and `strconv.Itoa`; a number has fewer digits than its value and one.
unfoldable pub decimal_from : ℕ → ℕ → Bytes
decimal_from zero v = []
decimal_from (suc n) v =
    let higher = decimal_from n (v / 10) in
    if ltb v 10 then (b'0' + v) ∷ [] else higher ++ ((b'0' + v % 10) ∷ [])

unfoldable pub decimal : ℕ → Bytes
decimal v = decimal_from (suc v) v

unfoldable pub bulk : Bytes → Bytes
bulk arg = (b'$' ∷ decimal (length arg)) ++ (13 ∷ 10 ∷ (arg ++ (13 ∷ 10 ∷ [])))

unfoldable pub bulks : List Bytes → Bytes
bulks [] = []
bulks (arg ∷ args) = bulk arg ++ bulks args

-- What `sendCommandLocked` hands to the connection.
unfoldable pub command : List Bytes → Bytes
command args = (b'*' ∷ decimal (length args)) ++ (13 ∷ 10 ∷ bulks args)

pub record RedisClient : Type 0 where
  pub db : ℕ
  pub connected : Bool
  pub sent : Bytes

pub data Error : Type 0 where
  not_connected no_dial send_failed no_response : Error

-- Whether the connection is made, a write succeeds, and a reply is read; the text of a reply is
-- looked at nowhere.
pub record Net : Type 0 where
  pub dialled : Bool
  pub written : Bool
  pub replied : Bool

-- The command, and its reply.
unfoldable pub exchange : Net → List Bytes → RedisClient → RedisClient × Option Error
exchange net args r =
    if net.written
    then (
      record r { sent = r.sent ++ command args },
      if net.replied then none else some no_response,
    )
    else (r, some send_failed)

abbrev pub select : Bytes
select = b'S' ∷ b'E' ∷ b'L' ∷ b'E' ∷ b'C' ∷ b'T' ∷ []

abbrev setex : Bytes
setex = b'S' ∷ b'E' ∷ b'T' ∷ b'E' ∷ b'X' ∷ []

abbrev del_word : Bytes
del_word = b'D' ∷ b'E' ∷ b'L' ∷ []

-- Where `SELECT` fails the connection is closed, and yet kept.
unfoldable pub connect : Net → RedisClient → RedisClient × Option Error
unfolding exchange
connect net r =
    if net.dialled
    then (let r1 = record r { connected = true; sent = [] } in
        if r.db == 0 then (r1, none) else exchange net (select ∷ decimal r.db ∷ []) r1)
    else (r, some no_dial)

-- The commands of a client that is connected.
pub data Operation : Type 0 where
  set_ex : (key : Bytes) (seconds : ℕ) (value : Bytes) → Operation
  del : (key : Bytes) → Operation

unfoldable pub args_of : Operation → List Bytes
args_of (set_ex key seconds value) = setex ∷ key ∷ decimal seconds ∷ value ∷ []
args_of (del key) = del_word ∷ key ∷ []

-- `SetEX` and `Del`.
unfoldable pub operate : Net → Operation → RedisClient → RedisClient × Option Error
unfolding exchange
operate net op r = if r.connected then exchange net (args_of op) r else (r, some not_connected)

unfoldable pub close : RedisClient → RedisClient
close r = record r { connected = false }
