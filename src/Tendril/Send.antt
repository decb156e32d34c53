-- ===== src/Tendril/Send.antt =====
-- `SendTendril` of `src/tendril.rs`, which may move to another thread.
use tendril.Mem.{M, pure, ◌>>=◌}
use tendril.Tendril.{Tendril, clone}
use tendril.Tendril.Edit.{into_send}

pub record SendTendril : Type 0 where
  pub tendril : Tendril

-- `From<Tendril<F, A>>`
unfoldable pub send : Tendril → M SendTendril
send t = do t ← into_send t; pure (record { tendril = t })

-- `From<SendTendril<F>>`
unfoldable pub receive : SendTendril → Tendril
receive s = s.tendril

-- The derived `Clone`: the receiver, and the copy.
unfoldable pub send_clone : SendTendril → M (SendTendril × SendTendril)
send_clone s = do
  (t, copy) ← clone s.tendril
  pure (record { tendril = t }, record { tendril = copy })
