-- ===== src/Iax/Client/Numbers/Operating.antt =====
-- The sequence numbers of a whole call: its setup, and all that the bridge does in it.
use svx_reflector_dashboard.Base.{ℕ, Bool, List, [], ◌∷◌}
use svx_reflector_dashboard.Base.Buffer.{Bytes}
use svx_reflector_dashboard.Iax.Client.{Settings, Client, send_audio}
use svx_reflector_dashboard.Iax.Client.Reader.{
  Input, Step, reads_on, leaves, reader_step, send_key, send_unkey, hangup, close,
  refresh_registration,
}
use svx_reflector_dashboard.Iax.Client.Numbers.{Follows}

abbrev pub after_step : Step → Client
after_step (reads_on missed c heard) = c
after_step (leaves c) = c

data StepFollows (c : Client) (r : Step) : Type 0 where
  step_follows : Follows c (after_step r) → StepFollows c r

-- What the bridge does in a call: a round of the reader, and the methods.
pub data Operation : Type 0 where
  reads : Bool → ℕ → Input → Operation
  sends_audio : Bytes → Operation
  keys unkeys refreshes hangs_up closes : Operation

module _ (now : ℕ → ℕ) (s : Settings) where
  unfoldable pub operate : Operation → Client → Client
  operate (reads closed missed_pings input) c =
      after_step (reader_step now s closed missed_pings input c)
  operate (sends_audio encoded) c = (send_audio now encoded c).1
  operate keys c = (send_key now c).1
  operate unkeys c = (send_unkey now c).1
  operate refreshes c = refresh_registration now s c
  operate hangs_up c = hangup now c
  operate closes c = close now c

  unfoldable pub operate_all : List Operation → Client → Client
  operate_all [] c = c
  operate_all (o ∷ os) c = operate_all os (operate o c)
