-- ===== src/Wire/Boundary.antt =====
-- `_post` and the send boundary: what a reported outcome says about `before_send`.
use hyperliquid_copytrader.Base.{ℕ, ◌+◌, ◌≡◌, ◌≢◌, false, Option, none, some, arith, ◌⊎◌, ◌==◌}
use hyperliquid_copytrader.Base.Text.{Text}
use hyperliquid_copytrader.Journal.Records.{Result, ok}
use hyperliquid_copytrader.Wire.Results.{WireResult, not_sent}
use hyperliquid_copytrader.Wire.Post.{Mux, Network, post}

module _ {ℓ κ} {S : Type ℓ} {E : Type κ} (describe : E → Text)
    (before_send : ℕ → S → Result E S) where
  -- The state behind a wire result: untouched before the boundary, what `before_send` made behind it.
  abbrev pub Boundary : ℕ → S → Option WireResult → S → Type (ℓ ⊔ κ)
  Boundary id s none s' = (s' ≡ s) ⊎ (before_send id s ≡ ok s')
  Boundary id s (some wire) s' =
      ((wire.outcome ≡ not_sent) × (s' ≡ s))
      ⊎ ((wire.outcome ≢ not_sent) × (wire.request_id ≡ id) × (before_send id s ≡ ok s'))

  -- A request that reports NOT_SENT has left the caller's state as it was, and one that reports
  -- anything else has passed `before_send` once, under its own request number; the connection's epoch
  -- is unchanged and, when the epoch is not the required one, nothing has run.
  pub post-Boundary :
      (required : ℕ) (network : Network) (m : Mux) (s : S)
      → let (wire, m', s') = post describe before_send required network m s in
        Boundary (m.request_id + 1) s wire s'
        × (m'.epoch ≡ m.epoch)
        × ((required == m.epoch) ≡ false → s' ≡ s)
  unfolding post
  post-Boundary required network m s = ground arith
