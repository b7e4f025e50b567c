-- ===== src/Svx/Lifecycle/Steps.antt =====
-- What every interleaving of calls keeps.
use svx_reflector_dashboard.Base.{
  if◌then◌else◌, ℕ, zero, suc, ◌+◌, ◌≡◌, refl, arith, true, some, List, [], ◌∷◌,
}
use svx_reflector_dashboard.Base.Buffer.{Bytes}
use svx_reflector_dashboard.Base.Words.{u16, be16_at}
use svx_reflector_dashboard.Svx.Lifecycle.{
  opened, shut, Client, Call, call, calls, begin_connect, audio, select, talker_start, talker_stop,
  heartbeat_tick, reader_ends, close_client, reconnect,
}

-- After `Connect` the channel is closed exactly when the client is, and it is never nil.
pub record Inv (c : Client) : Type 0 where
  pub done_eq : c.done ≡ (if c.closed then shut else opened)

begin_connect-Inv : (c : Client) → Inv (begin_connect c)
unfolding begin_connect
begin_connect-Inv c = ground arith

call_keeps : (x : Call) (c : Client) → Inv c → (c' : Client) × (call x c ≡ some c') × Inv c'
unfolding call
call_keeps (audio opus) c h = (_, refl, ground arith)
call_keeps (select tg) c h = (_, refl, ground arith)
call_keeps (talker_start tg callsign) c h = (_, refl, ground arith)
call_keeps (talker_stop tg callsign) c h = (_, refl, ground arith)
call_keeps heartbeat_tick c h = (_, refl, ground arith)
call_keeps reconnect c h = (_, refl, ground arith)
call_keeps reader_ends c h = (record c { closed = true; done = shut }, ground arith, ground arith)
call_keeps close_client c h = (record c { closed = true; done = shut }, ground arith, ground arith)

calls_keep : (xs : List Call) (c : Client) → Inv c → (c' : Client) × (calls xs c ≡ some c') × Inv c'
unfolding calls
calls_keep [] c h = (c, refl, h)
calls_keep (x ∷ xs) c h =
    let (c1, e, k) = call_keeps x c h in
    let (c', e', k') = calls_keep xs c1 k in (c', rw (e, calls) e', k')

-- After the first lines of `Connect`, no interleaving of calls closes a closed or a nil channel, and
-- the channel is shut exactly when the client is closed.
pub calls_never_panic :
    (xs : List Call) (c : Client) → (c' : Client) × (calls xs (begin_connect c) ≡ some c') × Inv c'
calls_never_panic xs c = calls_keep xs (begin_connect c) (begin_connect-Inv c)

-- The sequence number that a datagram carries.
abbrev pub seq_of : Bytes → ℕ
seq_of d = be16_at d 4

-- `n` numbers from `s` on, modulo 2 ^ 16.
abbrev pub consecutive : ℕ → ℕ → List ℕ
consecutive zero s = []
consecutive (suc n) s = s ∷ consecutive n (u16 (s + 1))
