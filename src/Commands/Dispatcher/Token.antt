-- ===== src/Commands/Dispatcher/Token.antt =====
-- StreamToken: what is left of a token after it was released or moved from.
use dnp3_bridge.Base.{◌≡◌, arith}
use dnp3_bridge.Commands.Dispatcher.{Dispatcher, StreamToken, release, move_token}

-- A token releases once: after it, released again or moved from, it changes nothing.
release_once :
    (token : StreamToken) (d d' : Dispatcher)
    → (release (release token d).1 d' ≡ (d', (release token d).1))
      × (release (move_token token).1 d' ≡ (d', (move_token token).1))
unfolding release move_token
release_once token d d' = ground arith
