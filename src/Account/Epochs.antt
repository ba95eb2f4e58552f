-- ===== src/Account/Epochs.antt =====
-- What a new connection makes of the frames and the accounts of the earlier ones.
use hyperliquid_copytrader.Base.{ℕ, suc, ◌≤◌, ◌<◌, true, false, ltb, ◌≡◌, refl, arith}
use hyperliquid_copytrader.Base.Int.{ℤ, pos, negsuc}
use hyperliquid_copytrader.Journal.Records.{ok, err, ok_injective}
use hyperliquid_copytrader.Account.Records.{stale_epoch}
use hyperliquid_copytrader.Account.Stream.{
  Stream, begin_connection, validate_frame, note_connection_activity, is_fresh, baseline_ready,
}

begun :
    (at : ℤ) (s t : Stream)
    → begin_connection at s ≡ ok t
    → (t.connection_epoch ≡ suc s.connection_epoch) × (baseline_ready t ≡ false)
unfolding begin_connection baseline_ready
begun (negsuc n) s t h = absurd (ground arith)
begun (pos n) s t h = rw (← ok_injective _ t h) (refl, ground arith)

refused :
    (epoch : ℕ) (at : ℤ) (t : Stream)
    → epoch < t.connection_epoch
    → validate_frame epoch at t ≡ err stale_epoch
unfolding validate_frame
refused epoch at t h = ground arith

-- After a new connection every frame of an earlier epoch is refused as stale, whatever its time of receipt,
-- and the stream is not fresh at any time, for any positive age.
pub begin_connection-forgets :
    (at : ℤ) (s t : Stream)
    → begin_connection at s ≡ ok t
    → ((epoch : ℕ) (received_ms : ℤ)
        → epoch ≤ s.connection_epoch
        → (validate_frame epoch received_ms t ≡ err stale_epoch)
          × (note_connection_activity epoch received_ms t ≡ err stale_epoch))
      × ((now_ms age : ℕ) → 0 < age → is_fresh now_ms (pos age) t ≡ ok false)
unfolding note_connection_activity is_fresh
begin_connection-forgets at s t h =
    let (next, unready) = begun at s t h in
    (
      λ epoch received_ms old.
          let no = refused epoch received_ms t (omega arith) in (no, rw no refl),
      λ now_ms age aged.
          let positive : ltb 0 age ≡ true = ground arith in rw (positive, unready) refl,
    )
