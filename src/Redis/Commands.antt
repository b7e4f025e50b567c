-- ===== src/Redis/Commands.antt =====
-- A server's reading of the commands, as the protocol's description has it.
use svx_reflector_dashboard.Base.{
  ℕ, zero, suc, ◌+◌, ◌-◌, ◌*◌, ◌/◌, ◌%◌, ◌<◌, ◌≤◌, ◌≡◌, refl, ap, sym, ◌∙◌, arith, true, false,
  ◌&&◌, Option, none, some, try, List, [], ◌∷◌, ◌++◌, append_assoc, append-nil, ltb, leb, ◌==◌,
  if◌then◌else◌, length, inl, inr, Bool-cases, ltb→lt,
}
use svx_reflector_dashboard.Base.Buffer.{Bytes}
use svx_reflector_dashboard.Redis.{
  decimal_from, decimal, bulk, bulks, command, RedisClient, Net, exchange, Operation, args_of,
  operate, connect, select,
}

-- The end of a line, and what follows.
unfoldable pub line_feed : ℕ → Bytes → Option (ℕ × Bytes)
line_feed v [] = none
line_feed v (c ∷ rest) = if c == 10 then some (v, rest) else none

-- A number and the end of its line.
unfoldable pub read_number : ℕ → Bytes → Option (ℕ × Bytes)
unfolding line_feed
read_number v [] = none
read_number v (c ∷ rest) =
    let more = read_number (v * 10 + (c - b'0')) rest in
    if c == 13 then line_feed v rest else if leb b'0' c && leb c b'9' then more else none

-- A number of bytes and the end of the line behind them.
unfoldable pub read_bytes : ℕ → Bytes → Option (Bytes × Bytes)
read_bytes zero [] = none
read_bytes zero (c ∷ []) = none
read_bytes zero (c ∷ d ∷ rest) = if c == 13 && d == 10 then some ([], rest) else none
read_bytes (suc n) [] = none
read_bytes (suc n) (c ∷ rest) = try (read_bytes n rest) (λ r. some (c ∷ r.0, r.1))

unfoldable pub read_bulk : Bytes → Option (Bytes × Bytes)
unfolding read_number read_bytes
read_bulk [] = none
read_bulk (c ∷ rest) =
    if c == b'$' then try (read_number 0 rest) (λ r. read_bytes r.0 r.1) else none

unfoldable pub read_bulks : ℕ → Bytes → Option (List Bytes × Bytes)
unfolding read_bulk
read_bulks zero s = some ([], s)
read_bulks (suc n) s = try (read_bulk s) (λ a. try (read_bulks n a.1) (λ r. some (a.0 ∷ r.0, r.1)))

unfoldable pub read_command : Bytes → Option (List Bytes × Bytes)
unfolding read_bulks
read_command [] = none
read_command (c ∷ rest) =
    if c == b'*' then try (read_number 0 rest) (λ r. read_bulks r.0 r.1) else none

unfoldable pub read_commands : ℕ → Bytes → Option (List (List Bytes) × Bytes)
unfolding read_command
read_commands zero s = some ([], s)
read_commands (suc n) s =
    try (read_command s) (λ a. try (read_commands n a.1) (λ r. some (a.0 ∷ r.0, r.1)))

read_number_digit :
    (v k : ℕ) (tail : Bytes)
    → k < 10
    → read_number v ((b'0' + k) ∷ tail) ≡ read_number (v * 10 + k) tail
unfolding read_number
read_number_digit v k tail h =
    let no_cr : (b'0' + k == 13) ≡ false = ground arith in
    let low : leb b'0' (b'0' + k) ≡ true = ground arith in
    let high : leb (b'0' + k) b'9' ≡ true = ground arith in
    let same : b'0' + k - b'0' ≡ k = omega arith in rw (no_cr, low, high, same) refl

read_number-decimal_from :
    (n v : ℕ) (tail : Bytes) → v < n → read_number 0 (decimal_from n v ++ tail) ≡ read_number v tail
unfolding decimal_from
read_number-decimal_from zero v tail h = absurd (omega arith)
read_number-decimal_from (suc n) v tail h = elim (Bool-cases (ltb v 10)) [
  | inl e ↦
      let value : 0 * 10 + v ≡ v = omega arith in
      rw e (read_number_digit 0 v tail (ltb→lt v 10 e) ∙ ap (λ (w : ℕ). read_number w tail) value)
  | inr e ↦
      let big : 10 ≤ v = ground arith in
      let value : v / 10 * 10 + v % 10 ≡ v = omega arith in
      rw e (
        ap (read_number 0) (append_assoc (decimal_from n (v / 10)) ((b'0' + v % 10) ∷ []) tail)
        ∙ (read_number-decimal_from n (v / 10) ((b'0' + v % 10) ∷ tail) (omega arith)
            ∙ (read_number_digit (v / 10) (v % 10) tail (omega arith)
                ∙ ap (λ (w : ℕ). read_number w tail) value)))
]

read_number-decimal :
    (v : ℕ) (rest : Bytes) → read_number 0 (decimal v ++ (13 ∷ 10 ∷ rest)) ≡ some (v, rest)
unfolding decimal
read_number-decimal v rest =
    read_number-decimal_from (suc v) v (13 ∷ 10 ∷ rest) (omega arith)
    ∙ (unfold read_number line_feed in refl)

read_bytes_lem :
    (arg rest : Bytes) → read_bytes (length arg) (arg ++ (13 ∷ 10 ∷ rest)) ≡ some (arg, rest)
unfolding read_bytes
read_bytes_lem [] rest = refl
read_bytes_lem (c ∷ arg) rest = rw (read_bytes_lem arg rest) refl

read_bulk-bulk : (arg rest : Bytes) → read_bulk (bulk arg ++ rest) ≡ some (arg, rest)
unfolding read_bulk bulk
read_bulk-bulk arg rest =
    rw
      (
        append_assoc (decimal (length arg)) (13 ∷ 10 ∷ (arg ++ (13 ∷ 10 ∷ []))) rest,
        append_assoc arg (13 ∷ 10 ∷ []) rest,
        read_number-decimal (length arg) (arg ++ (13 ∷ 10 ∷ rest)),
      )
      (read_bytes_lem arg rest)

read_bulks-bulks :
    (args : List Bytes) (rest : Bytes)
    → read_bulks (length args) (bulks args ++ rest) ≡ some (args, rest)
unfolding read_bulks bulks
read_bulks-bulks [] rest = refl
read_bulks-bulks (a ∷ args) rest =
    rw
      (
        append_assoc (bulk a) (bulks args) rest,
        read_bulk-bulk a (bulks args ++ rest),
        read_bulks-bulks args rest,
      )
      refl

pub read_command-command :
    (args : List Bytes) (rest : Bytes) → read_command (command args ++ rest) ≡ some (args, rest)
unfolding read_command command
read_command-command args rest =
    rw
      (
        append_assoc (decimal (length args)) (13 ∷ 10 ∷ bulks args) rest,
        read_number-decimal (length args) (bulks args ++ rest),
      )
      (read_bulks-bulks args rest)

-- One operation after another, the result of none of them looked at.
unfoldable pub operate_all : List (Net × Operation) → RedisClient → RedisClient
operate_all [] r = r
operate_all ((net, op) ∷ rest) r = operate_all rest (operate net op r).0

-- The operations go out whole: every write succeeds.
abbrev pub AllWritten : List (Net × Operation) → Type 0
AllWritten [] = Unit {0}
AllWritten ((net, op) ∷ rest) = (net.written ≡ true) × AllWritten rest

abbrev pub commands : List (Net × Operation) → List (List Bytes)
commands [] = []
commands ((net, op) ∷ rest) = args_of op ∷ commands rest

abbrev bytes_of : List (Net × Operation) → Bytes
bytes_of [] = []
bytes_of ((net, op) ∷ rest) = command (args_of op) ++ bytes_of rest

operate_written :
    (net : Net) (op : Operation) (r : RedisClient)
    → r.connected ≡ true
    → net.written ≡ true
    → (operate net op r).0 ≡ record r { sent = r.sent ++ command (args_of op) }
unfolding operate exchange
operate_written net op r h w = simp (h, w)

operate_all-sent :
    (ops : List (Net × Operation)) (r : RedisClient)
    → r.connected ≡ true
    → AllWritten ops
    → (operate_all ops r).sent ≡ r.sent ++ bytes_of ops
unfolding operate_all
operate_all-sent [] r h w = sym (append-nil r.sent)
operate_all-sent ((net, op) ∷ rest) r h w =
    ap (λ (q : RedisClient). (operate_all rest q).sent) (operate_written net op r h w.0)
    ∙ (operate_all-sent rest (record r { sent = r.sent ++ command (args_of op) }) h w.1
        ∙ append_assoc r.sent (command (args_of op)) (bytes_of rest))

read_commands-bytes_of :
    (ops : List (Net × Operation))
    → read_commands (length (commands ops)) (bytes_of ops) ≡ some (commands ops, [])
unfolding read_commands
read_commands-bytes_of [] = refl
read_commands-bytes_of ((net, op) ∷ rest) =
    rw (read_command-command (args_of op) (bytes_of rest), read_commands-bytes_of rest) refl

-- All that a connection carries: the choice of the database, unless it is 0, and the operations.
abbrev pub session : ℕ → List (Net × Operation) → List (List Bytes)
session db ops = if db == 0 then commands ops else (select ∷ decimal db ∷ []) ∷ commands ops

connect_plain :
    (net : Net) (r : RedisClient)
    → net.dialled ≡ true
    → (r.db == 0) ≡ true
    → (connect net r).0 ≡ record r { connected = true; sent = [] }
unfolding connect
connect_plain net r dialled db = simp (dialled, db)

connect-select :
    (net : Net) (r : RedisClient)
    → net.dialled ≡ true
    → net.written ≡ true
    → (r.db == 0) ≡ false
    → (connect net r).0 ≡ record r { connected = true; sent = command (select ∷ decimal r.db ∷ []) }
unfolding connect exchange
connect-select net r dialled written db = simp (dialled, written, db)

-- A connection that is made, where every write succeeds: whatever the keys and the values hold, line
-- ends included, and whether or not replies come, a server that reads the bytes by the protocol's
-- rules reads the choice of the database, if it is not 0, and then exactly the commands of the
-- operations, in their order, and nothing is left over.
pub read_commands-operate_all :
    (net : Net) (ops : List (Net × Operation)) (r : RedisClient)
    → net.dialled ≡ true
    → net.written ≡ true
    → AllWritten ops
    → read_commands (length (session r.db ops)) (operate_all ops (connect net r).0).sent
      ≡ some (session r.db ops, [])
unfolding read_commands
read_commands-operate_all net ops r dialled first written = elim (Bool-cases (r.db == 0)) [
  | inl e ↦
      let plain = record r { connected = true; sent = [] } in
      rw e (
        ap (λ (q : RedisClient). read_commands (length (commands ops)) (operate_all ops q).sent)
          (connect_plain net r dialled e)
        ∙ (ap (read_commands (length (commands ops))) (operate_all-sent ops plain refl written)
            ∙ read_commands-bytes_of ops))
  | inr e ↦
      let choice = select ∷ decimal r.db ∷ [] in
      let chosen = record r { connected = true; sent = command choice } in
      let all_sent : (operate_all ops (connect net r).0).sent ≡ command choice ++ bytes_of ops =
        ap (λ (q : RedisClient). (operate_all ops q).sent) (connect-select net r dialled first e)
        ∙ operate_all-sent ops chosen refl written in
      rw (e, all_sent, read_command-command choice (bytes_of ops), read_commands-bytes_of ops) refl
]
