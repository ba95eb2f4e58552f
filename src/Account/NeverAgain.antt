-- ===== src/Account/NeverAgain.antt =====
-- A fill that a frame showed is not reported as new by a later frame.
use hyperliquid_copytrader.Base.{
  ℕ, ◌+◌, ◌*◌, ◌<◌, not, ◌&&◌, List, Option, length, ◌≡◌, refl, arith,
}
use hyperliquid_copytrader.Base.Int.{ℤ, pos, negsuc}
use hyperliquid_copytrader.Base.Text.{Text}
use hyperliquid_copytrader.Journal.Records.{ok, >>=-returns, ok_injective, require}
use hyperliquid_copytrader.Wire.Json.{Json}
use hyperliquid_copytrader.Account.Records.{no_markets, Identity, Fingerprint, Component}
use hyperliquid_copytrader.Account.Recency.{Holds, Holds-recall, Holds-weaken}
use hyperliquid_copytrader.Account.Remembered.{Without, new_records-Without}
use hyperliquid_copytrader.Account.Seeded.{Has}
use hyperliquid_copytrader.Account.Stream.{
  Stream, MutableAccount, Role, begin_connection, note_connection_activity, set_market_scope,
  validate_frame, market_scope, scope_dexes, no_scope, is_standard,
}
use hyperliquid_copytrader.Account.Fills.{
  FillsUpdate, FillsFrame, reported, read_fills, apply_fills,
}
use hyperliquid_copytrader.Account.Reduced.{
  Reduced, reduce_fills-Reduced, reported-Without, Reduced-seeds, Reduced-keeps,
}
use hyperliquid_copytrader.Account.Spot.{ChannelUpdate, SpotFrame, read_spot, apply_spot}
use hyperliquid_copytrader.Account.Snapshots.{apply_positions}
use hyperliquid_copytrader.Account.Channels.{Replaced, apply_spot-Funded, apply_positions-forward}

-- A call that leaves the memory of fills alone.
KeepsMemory : Stream → Stream → Type 0
KeepsMemory s t =
    (t.fill_fingerprints ≡ s.fill_fingerprints) × (t.fill_dedupe_capacity ≡ s.fill_dedupe_capacity)

begin_connection-KeepsMemory :
    (at : ℤ) (s t : Stream) → begin_connection at s ≡ ok t → KeepsMemory s t
unfolding begin_connection KeepsMemory
begin_connection-KeepsMemory (negsuc n) s t h = absurd (ground arith)
begin_connection-KeepsMemory (pos n) s t h = rw (← ok_injective _ t h) (refl, refl)

note_connection_activity-KeepsMemory :
    (epoch : ℕ) (at : ℤ) (s t : Stream)
    → note_connection_activity epoch at s ≡ ok t
    → KeepsMemory s t
unfolding note_connection_activity KeepsMemory
note_connection_activity-KeepsMemory epoch at s t h =
    let (_, _, h₁) = >>=-returns (validate_frame epoch at s) _ h in
    rw (← ok_injective _ t h₁) (refl, refl)

set_market_scope-KeepsMemory :
    (source_markets follower_markets : Option (List Text)) (s t : Stream)
    → set_market_scope source_markets follower_markets s ≡ ok t
    → KeepsMemory s t
unfolding set_market_scope KeepsMemory
set_market_scope-KeepsMemory source_markets follower_markets s t h =
    let (scope, _, h₁) = >>=-returns (market_scope source_markets) _ h in
    let (_, _, h₂) =
      >>=-returns (require (not (is_standard s.source_account_mode && no_scope scope)) no_markets) _
        h₁ in
    let (_, _, h₃) = >>=-returns (scope_dexes scope) _ h₂ in
    let (_, _, h₄) = >>=-returns (market_scope follower_markets) _ h₃ in
    rw (← ok_injective _ t h₄) (refl, refl)

Replaced-KeepsMemory :
    (role : Role) (a : MutableAccount) (s t : Stream) → Replaced role a s t → KeepsMemory s t
unfolding KeepsMemory
Replaced-KeepsMemory role a s t r = (r.memory, r.capacity)

-- The stream `t` holds `i`, and has the capacity of `s`.
Remains : ℕ → Identity → Fingerprint → Stream → Stream → Type 0
Remains k i f s t =
    Holds k i f t.fill_fingerprints × (t.fill_dedupe_capacity ≡ s.fill_dedupe_capacity)

carried :
    (k : ℕ) (i : Identity) (f : Fingerprint) (s t u : Stream)
    → KeepsMemory t u
    → Remains k i f s t
    → Remains k i f s u
unfolding KeepsMemory Remains
carried k i f s t u (memory, capacity) (h, c) = (rw memory h, rw capacity c)

module _ (shown : Json → Text) (int_text : Text → Option ℤ) where
  -- `Later s n t`: after `s` the stream came to `t`, by frames of `n` fill records in all and other calls.
  pub data Later (s : Stream) : ℕ → Stream → Type 0 where
    same : Later s 0 s
    connected :
        {n : ℕ} {t u : Stream} (at : ℤ) → Later s n t → begin_connection at t ≡ ok u → Later s n u
    noted :
        {n : ℕ} {t u : Stream} (epoch : ℕ) (at : ℤ)
        → Later s n t
        → note_connection_activity epoch at t ≡ ok u
        → Later s n u
    rescoped :
        {n : ℕ} {t u : Stream} (of_source of_follower : Option (List Text))
        → Later s n t
        → set_market_scope of_source of_follower t ≡ ok u
        → Later s n u
    funded :
        {n : ℕ} {t u : Stream} (at : ℕ) (payload : Json) (f : SpotFrame) (update : ChannelUpdate)
        → Later s n t
        → read_spot shown int_text payload t ≡ ok f
        → apply_spot shown int_text at payload t ≡ ok (u, update)
        → Later s n u
    positioned :
        {n : ℕ} {t u : Stream} (one at : ℕ) (payload : Json) (update : ChannelUpdate)
        → Later s n t
        → apply_positions one shown int_text at payload t ≡ ok (u, update)
        → Later s n u
    received :
        {n : ℕ} {t u : Stream} (component : Component) (at : ℕ) (payload : Json)
        (frame : FillsFrame) (update : FillsUpdate)
        → Later s n t
        → read_fills shown int_text component at payload t ≡ ok frame
        → apply_fills shown int_text component at payload t ≡ ok (u, update)
        → Later s (n + length frame.records) u

  received-Reduced :
      (component : Component) (at : ℕ) (payload : Json) (frame : FillsFrame) (update : FillsUpdate)
      (s t : Stream)
      → read_fills shown int_text component at payload s ≡ ok frame
      → apply_fills shown int_text component at payload s ≡ ok (t, update)
      → (w : Reduced s frame.records t) × (update.new_fills ≡ reported frame.is_snapshot w.new)
  unfolding apply_fills
  received-Reduced component at payload frame update s t read h =
      reduce_fills-Reduced component at frame.account frame.role frame.is_snapshot frame.records s t
        update (rw read at h)

  Later-keeps :
      (s t : Stream) (n k : ℕ) (i : Identity) (f : Fingerprint)
      → Later s n t
      → k + 2 * n < s.fill_dedupe_capacity
      → Holds k i f s.fill_fingerprints
      → Remains (k + 2 * n) i f s t
  unfolding Remains
  Later-keeps s t n k i f same room h = (Holds-weaken k (k + 2 * 0) i f _ (omega arith) h, refl)
  Later-keeps s t n k i f (connected {t = u} at l e) room h =
      carried (k + 2 * n) i f s u t (begin_connection-KeepsMemory at u t e)
        (Later-keeps s u n k i f l room h)
  Later-keeps s t n k i f (noted {t = u} epoch at l e) room h =
      carried (k + 2 * n) i f s u t (note_connection_activity-KeepsMemory epoch at u t e)
        (Later-keeps s u n k i f l room h)
  Later-keeps s t n k i f (rescoped {t = u} a b l e) room h =
      carried (k + 2 * n) i f s u t (set_market_scope-KeepsMemory a b u t e)
        (Later-keeps s u n k i f l room h)
  Later-keeps s t n k i f (funded {t = u} at p g up l read e) room h =
      carried (k + 2 * n) i f s u t
        (Replaced-KeepsMemory g.role _ u t
          (apply_spot-Funded shown int_text at p g u t up read e).replaced)
        (Later-keeps s u n k i f l room h)
  Later-keeps s t n k i f (positioned {t = u} one at p up l e) room h =
      let (b, replaced, _, _) = apply_positions-forward shown int_text one at p u t up e in
      carried (k + 2 * n) i f s u t (Replaced-KeepsMemory up.role b u t replaced)
        (Later-keeps s u n k i f l room h)
  Later-keeps s t n k i f (received {n = m} {t = u} c at p frame up l read e) room h =
      let (held, capacity) = Later-keeps s u m k i f l (omega arith) h in
      let (w, reports) = received-Reduced c at p frame up u t read e in
      (
        Holds-weaken (k + 2 * m + 2 * length frame.records) (k + 2 * (m + length frame.records)) i f
            _ (omega arith) (Reduced-keeps (k + 2 * m) i f u t frame.records w (omega arith) held),
        rw w.capacity capacity,
      )

  -- A fill that a frame showed, live or in a snapshot, is not in what a later frame reports as new, across
  -- reconnections, changes of scope, and frames of fills, collateral and positions, while twice the
  -- later fill records and those of the first frame stay below the capacity.
  pub no_fill_again :
      (i : Identity) (first : Component) (at : ℕ) (payload : Json) (frame : FillsFrame)
      (update : FillsUpdate) (s t u v : Stream) (n : ℕ) (again : Component) (at_again : ℕ)
      (replay : Json) (other : FillsFrame) (answer : FillsUpdate)
      → read_fills shown int_text first at payload s ≡ ok frame
      → apply_fills shown int_text first at payload s ≡ ok (t, update)
      → Has i frame.records
      → Later t n u
      → length frame.records + 2 * n < s.fill_dedupe_capacity
      → read_fills shown int_text again at_again replay u ≡ ok other
      → apply_fills shown int_text again at_again replay u ≡ ok (v, answer)
      → Without i answer.new_fills
  unfolding Remains
  no_fill_again i first at payload frame update s t u v n again at_again replay other answer read
        applied a later room read_again applied_again =
      let (w, _) = received-Reduced first at payload frame update s t read applied in
      let (f, seeded) = Reduced-seeds i s t frame.records w a (omega arith) in
      let capacity = w.capacity in
      let (held, _) = Later-keeps t u n (length frame.records) i f later (omega arith) seeded in
      let (x, reports) =
        received-Reduced again at_again replay other answer u v read_again applied_again in
      let known = Holds-recall _ i f u.fill_fingerprints held in
      rw reports (
        reported-Without other.is_snapshot i x.new
          (new_records-Without u.fill_fingerprints x.unique x.new i f known x.made_new))
