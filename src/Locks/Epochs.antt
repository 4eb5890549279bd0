-- ===== src/Locks/Epochs.antt =====
-- The fencing tokens of a history: one for each time that the resource changed hands.
use kratos_harness.Common.{ℕ, ◌+◌, ◌≡◌, Option, none, some, List, [], ◌∷◌, arith, if◌then◌else◌}
use kratos_harness.Locks.Model.{Moment, Action, Lease, Binding}
use kratos_harness.Locks.Lifecycle.{opens_epoch}
use kratos_harness.Locks.Successor.{IsGranted, IsSuccessor}
use kratos_harness.Locks.History.{Grant, History, grant_allowed, current_of, token_of}

-- The number of acquisitions and takeovers
unfoldable pub epochs : List Grant → ℕ
epochs [] = 0
epochs (g ∷ gs) = let rest = epochs gs in if opens_epoch g.action then rest + 1 else rest

IsGranted-token :
    (current : Option Binding) (now : Moment) (action : Action) (next : Lease) (n : ℕ)
    → IsGranted now current action next
    → token_of current ≡ n
    → next.fencing_token ≡ (if opens_epoch action then n + 1 else n)
unfolding IsGranted IsSuccessor
IsGranted-token none now action next n g h = ground arith
IsGranted-token (some current) now Action.acquire next n g h = ground arith
IsGranted-token (some current) now Action.renew next n g h = ground arith
IsGranted-token (some current) now Action.release next n g h = ground arith
IsGranted-token (some current) now Action.takeover next n g h = ground arith

-- After any history of granted transitions, the fencing token is the number of acquisitions and
-- takeovers in it, so no two epochs of a resource have the same token.
pub token_of-epochs : {gs : List Grant} → History gs → token_of (current_of gs) ≡ epochs gs
unfolding epochs
token_of-epochs History.empty = omega arith
token_of-epochs (History.grant {gs} g h granted) =
    IsGranted-token (current_of gs) g.now g.action g.lease (epochs gs) (grant_allowed granted)
      (token_of-epochs h)
