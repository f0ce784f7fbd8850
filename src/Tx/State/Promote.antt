-- ===== src/Tx/State/Promote.antt =====
-- Delivery evidence in src/lib/txstate.ts.
use hop_watch.Prelude.{ℕ, ◌≤◌, ◌≡◌, Bool, false, List, [], ◌∷◌, arith, leb, if◌then◌else◌, any}
use hop_watch.Tx.State.{TxState, sent, heard, acked, ConfirmationSignal, is_settled, promote}

-- How far a row has come on its way out.
unfoldable pub progress : TxState → ℕ
progress sent = 1
progress heard = 2
progress acked = 3
progress _ = 0

pub promote_comm :
    (s : TxState) (a b : ConfirmationSignal) → promote (promote s a) b ≡ promote (promote s b) a
unfolding promote
promote_comm s a b = ground arith

pub promote_never_lowers :
    (s : TxState) (a : ConfirmationSignal) → progress s ≤ progress (promote s a)
unfolding promote progress
promote_never_lowers s a = ground arith

-- All the evidence on a row, one piece after the other.
unfoldable pub promote_all : TxState → List ConfirmationSignal → TxState
promote_all s [] = s
promote_all s (a ∷ es) = promote_all (promote s a) es

abbrev pub any_ack : List ConfirmationSignal → Bool
any_ack = any (λ a. a.routing_ack)

abbrev pub any_gateway : List ConfirmationSignal → Bool
any_gateway = any (λ a. leb 1 a.gateway_count)

-- What all the evidence comes to at once.
pub verdict : TxState → Bool → Bool → TxState
verdict s ack gateway =
    if is_settled s
    then s
    else if ack
    then acked
    else promote s (record { gateway_count = if gateway then 1 else 0; routing_ack = false })

-- The state that a row ends in depends on the evidence as a whole, not on its order or number: a
-- settled row stays, any routing acknowledgement makes it acked, and otherwise any gateway that
-- heard the packet makes it heard unless it is acked already.
pub promote_all_lem :
    (s : TxState) (es : List ConfirmationSignal)
    → promote_all s es ≡ verdict s (any_ack es) (any_gateway es)
unfolding promote_all verdict promote
promote_all_lem s [] = ground arith
promote_all_lem s (a ∷ es) = ground (arith, promote_all_lem (promote s a) es)
