-- ===== src/Network/Request.antt =====
-- `P2PRequest` of network/src/p2p/protocol.rs: what the handler of the streams asks of a request.
use ori.Base.{◌≡◌, refl, Bool, true, false, Option, none, some}
use ori.Network.Message.{
  P2PRequest, status, goodbye, blocks_by_range, blocks_by_root, ResponseTermination, by_range,
  by_root,
}

unfoldable pub expect_response : P2PRequest → Bool
expect_response (status _) = true
expect_response (goodbye _) = false
expect_response (blocks_by_range _) = true
expect_response (blocks_by_root _) = true

unfoldable pub multiple_responses : P2PRequest → Bool
multiple_responses (status _) = false
multiple_responses (goodbye _) = false
multiple_responses (blocks_by_range _) = true
multiple_responses (blocks_by_root _) = true

-- `none` is the `unreachable!`.
unfoldable pub termination_of : P2PRequest → Option ResponseTermination
termination_of (blocks_by_range _) = some by_range
termination_of (blocks_by_root _) = some by_root
termination_of (status _) = none
termination_of (goodbye _) = none

-- A request with several responses has a termination: the panic is never met.
pub termination_of-is_some :
    (r : P2PRequest)
    → multiple_responses r ≡ true
    → (t : ResponseTermination) × (termination_of r ≡ some t)
unfolding multiple_responses termination_of
termination_of-is_some (status _) h = cc
termination_of-is_some (goodbye _) h = cc
termination_of-is_some (blocks_by_range _) h = (by_range, refl)
termination_of-is_some (blocks_by_root _) h = (by_root, refl)
