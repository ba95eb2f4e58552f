-- ===== src/Account/Tests.antt =====
-- The account stream on concrete frames.
mod Orders
use hyperliquid_copytrader.Base.{
  ℕ, ◌+◌, ◌-◌, ◌*◌, ◌≤◌, ◌<◌, ◌≡◌, refl, Bool, true, false, [], ◌∷◌, Option, none, some, arith,
  length, inl, ◌↔◌,
}
use Prim.Native.String.{String}
use hyperliquid_copytrader.Base.Int.{ℤ, pos, ◌+ℤ◌, ◌-ℤ◌}
use hyperliquid_copytrader.Base.Text.{Text, codes, text_lt, text_eq, strip, lower}
use hyperliquid_copytrader.Journal.Records.{Result, ok, err, finite, malformed}
use hyperliquid_copytrader.Wire.Json as Wire
use hyperliquid_copytrader.Wire.Json.{
  Json, Numeric, null, bool, number, string, array, object, Items, nil, cons, Fields, end, field,
  get,
}
use hyperliquid_copytrader.Markets.Identity.{
  qualify_market_symbol, canonical_market, parse_market, parse_stripped, market_identity,
  market_dex, is_asset_component, is_dex_component, canonical_asset, islower,
}
use hyperliquid_copytrader.Account.Records.{
  AccountStreamError, Identity, fills, positions, time_of, look_up, put, stale_epoch,
  live_before_snapshot,
}
use hyperliquid_copytrader.Account.Memory.{
  recall, forget, move_to_end, learn, touch_all, trim, remember, find_identity, unique_records,
  new_records,
}
use hyperliquid_copytrader.Account.Chain.{
  Positions, size_in, last_end, validated_fill_positions, Continues,
}
use hyperliquid_copytrader.Account.Continuity.{
  validated_fill_positions-last_end, validated_fill_positions-Continues,
}
use hyperliquid_copytrader.Account.Rows.{account_of, parse_fill}
use hyperliquid_copytrader.Account.Remembered.{Without}
use hyperliquid_copytrader.Account.Seeded.{Has}
use hyperliquid_copytrader.Account.Stream.{
  MutableAccount, Stream, unified, empty_account, of_source, account_stream, begin_connection,
  validate_frame, note_connection_activity, is_fresh,
}
use hyperliquid_copytrader.Account.Fills.{
  account_for, FillsUpdate, FillsFrame, reduce_fills, read_fills, apply_fills, role_for_data,
}
use hyperliquid_copytrader.Account.NeverAgain.{same, received, no_fill_again}
use hyperliquid_copytrader.Account.Reports.{apply_fills-new_fills}
use hyperliquid_copytrader.Account.Effects.{Effect, apply_fills-Effect}
use hyperliquid_copytrader.Account.Epochs.{begin_connection-forgets}
use hyperliquid_copytrader.Account.Spot.{
  ChannelUpdate, SpotFrame, read_spot, reduce_spot, apply_spot, replace_collateral,
}
use hyperliquid_copytrader.Account.States.{
  clearinghouse_states, parse_all_dexs, parse_clearinghouse_positions,
}
use hyperliquid_copytrader.Account.Snapshots.{apply_positions, replace_positions}
use hyperliquid_copytrader.Account.Forward.{known_at}
use hyperliquid_copytrader.Account.Channels.{
  Replaced, Funded, apply_spot-Funded, apply_positions-forward,
}

every_clause : Unit {0}
unfolding text_eq strip lower get Wire.look_up canonical_market parse_market parse_stripped
    market_identity market_dex is_asset_component is_dex_component canonical_asset islower recall
    forget move_to_end learn touch_all trim remember find_identity unique_records new_records
    validated_fill_positions account_of parse_fill account_stream begin_connection validate_frame
    note_connection_activity is_fresh reduce_fills read_fills apply_fills role_for_data look_up put
    apply_spot read_spot reduce_spot replace_collateral clearinghouse_states parse_all_dexs
    parse_clearinghouse_positions apply_positions replace_positions qualify_market_symbol text_lt
    ◌+ℤ◌ ◌-ℤ◌
every_clause = tt

abbrev digits : ℕ → Text → ℕ
digits n [] = n
digits n (c ∷ s) = digits (10 * n + (c - b'0')) s

abbrev int_text : Text → Option ℤ
int_text [] = none
int_text (c ∷ s) = some (pos (digits 0 (c ∷ s)))

abbrev shown : Json → Text
shown v = []

abbrev word : Text → Json
word t = string t (record { decimal = malformed; integer = none })

abbrev quanta : ℤ → Json
quanta z = number (record { decimal = finite z; integer = none })

abbrev source_text : Text
source_text = codes "0x1111111111111111111111111111111111111111"

abbrev follower_text : Text
follower_text = codes "0x2222222222222222222222222222222222222222"

abbrev made : Result AccountStreamError Stream
made = account_stream source_text follower_text (codes "unified") none none false 100

abbrev or_stream : Stream → Result AccountStreamError Stream → Stream
or_stream s (ok t) = t
or_stream s (err e) = s

abbrev row : String → String → ℤ → ℤ → Json
row tid side size start = object (
    field (codes "coin") (word (codes "BTC")) (
      field (codes "hash") (word (codes "0xAB")) (
        field (codes "tid") (word (codes tid)) (
          field (codes "side") (word (codes side)) (
            field (codes "sz") (quanta size) (
              field (codes "px") (quanta (pos 7)) (
                field (codes "startPosition") (quanta start)
                  (field (codes "time") (word (codes "55")) end))))))))

abbrev payload : Bool → Items → Json
payload is_snapshot rows = object (
    field (codes "user") (word source_text)
      (field (codes "isSnapshot") (bool is_snapshot) (field (codes "fills") (array rows) end)))

abbrev snapshot_frame : Json
snapshot_frame = payload true (cons (row "1" "B" (pos 5) (pos 0)) nil)

abbrev live_frame : Json
live_frame = payload false (
    cons (row "1" "B" (pos 5) (pos 0))
      (cons (row "2" "B" (pos 3) (pos 0)) (cons (row "3" "A" (pos 2) (pos 3)) nil)))

abbrev empty_stream : Stream
empty_stream = record {
  source_address = [];
  follower_address = [];
  fill_dedupe_capacity = 1;
  source_account_mode = unified;
  source_markets = none;
  follower_markets = none;
  accept_source_markets_outside_scope = false;
  source_dexes = [];
  connection_epoch = 0;
  last_connection_activity_ms = 0;
  source = empty_account;
  follower = empty_account;
  fill_fingerprints = [];
}

abbrev empty_update : FillsUpdate
empty_update = record {
  account = [];
  role = of_source;
  connection_epoch = 0;
  initial_snapshot = true;
  new_fills = [];
  duplicate_fills = 0;
}

abbrev empty_frame : FillsFrame
empty_frame = record { account = []; role = of_source; is_snapshot = true; records = [] }

abbrev or_frame : Result AccountStreamError FillsFrame → FillsFrame
or_frame (ok f) = f
or_frame (err e) = empty_frame

abbrev or_applied : Result AccountStreamError (Stream × FillsUpdate) → Stream × FillsUpdate
or_applied (ok r) = r
or_applied (err e) = (empty_stream, empty_update)

abbrev begun : Stream
begun = or_stream empty_stream (begin_connection (pos 4) (or_stream empty_stream made))

abbrev seeded : Stream × FillsUpdate
seeded = or_applied (apply_fills shown int_text fills 5 snapshot_frame begun)

abbrev seeded_frame : FillsFrame
seeded_frame = or_frame (read_fills shown int_text fills 5 snapshot_frame begun)

abbrev traded : Stream × FillsUpdate
traded = or_applied (apply_fills shown int_text fills 6 live_frame seeded.0)

abbrev traded_frame : FillsFrame
traded_frame = or_frame (read_fills shown int_text fills 6 live_frame seeded.0)

abbrev replayed : Stream × FillsUpdate
replayed = or_applied (apply_fills shown int_text fills 7 live_frame traded.0)

abbrev replayed_frame : FillsFrame
replayed_frame = or_frame (read_fills shown int_text fills 7 live_frame traded.0)

-- The snapshot's fill and a replayed frame are no news; two fills and the position they end at are.
counts :
    (length seeded.1.new_fills ≡ 0)
    × (length traded.1.new_fills ≡ 2)
    × (traded.1.duplicate_fills ≡ 1)
    × (length replayed.1.new_fills ≡ 0)
    × (size_in (codes "BTC") traded.0.source.positions ≡ pos 1)
unfolding every_clause
counts = (refl, refl, refl, refl, refl)

-- A live frame before the channel's snapshot is refused.
live_frame_first : apply_fills shown int_text fills 5 live_frame begun ≡ err live_before_snapshot
unfolding every_clause
live_frame_first = refl

-- The positions of the source are marked as received, though no positions frame came.
positions_are_marked : time_of positions traded.0.source.component_received_ms ≡ some 6
unfolding every_clause
positions_are_marked = refl

snapshot_is_read : read_fills shown int_text fills 5 snapshot_frame begun ≡ ok seeded_frame
unfolding every_clause
snapshot_is_read = refl

snapshot_is_applied : apply_fills shown int_text fills 5 snapshot_frame begun ≡ ok seeded
unfolding every_clause
snapshot_is_applied = refl

live_is_read : read_fills shown int_text fills 6 live_frame seeded.0 ≡ ok traded_frame
unfolding every_clause
live_is_read = refl

live_is_applied : apply_fills shown int_text fills 6 live_frame seeded.0 ≡ ok traded
unfolding every_clause
live_is_applied = refl

replay_is_read : read_fills shown int_text fills 7 live_frame traded.0 ≡ ok replayed_frame
unfolding every_clause
replay_is_read = refl

replay_is_applied : apply_fills shown int_text fills 7 live_frame traded.0 ≡ ok replayed
unfolding every_clause
replay_is_applied = refl

abbrev first_fill : Identity
first_fill = record { account = source_text; tx_hash = codes "0xab"; tid = codes "1" }

first_is_read : Has first_fill seeded_frame.records
unfolding every_clause
first_is_read = inl refl

room :
    length seeded_frame.records + 2 * (0 + length traded_frame.records) < begun.fill_dedupe_capacity
unfolding every_clause
room = omega arith

no_fill_again_example : Without first_fill replayed.1.new_fills
no_fill_again_example =
    no_fill_again shown int_text first_fill fills 5 snapshot_frame seeded_frame seeded.1 begun
      seeded.0 traded.0 replayed.0 (0 + length traded_frame.records) fills 7 live_frame
      replayed_frame replayed.1 snapshot_is_read snapshot_is_applied first_is_read
      (received fills 6 live_frame traded_frame traded.1 same live_is_read live_is_applied) room
      replay_is_read replay_is_applied

apply_fills-new_fills_example :
    (traded_frame.is_snapshot ≡ true → traded.1.new_fills ≡ [])
    × (traded_frame.is_snapshot ≡ false
        → (i : Identity)
        → Has i traded.1.new_fills
          ↔ (Has i traded_frame.records × (recall i seeded.0.fill_fingerprints ≡ none)))
apply_fills-new_fills_example =
    apply_fills-new_fills shown int_text fills 6 live_frame traded_frame seeded.0 traded.0 traded.1
      live_is_read live_is_applied

apply_fills-Effect_example : Effect traded_frame.role 6 seeded.0 traded.1.new_fills traded.0
apply_fills-Effect_example =
    apply_fills-Effect shown int_text fills 6 live_frame traded_frame seeded.0 traded.0 traded.1
      live_is_read live_is_applied

chain_is_accepted : validated_fill_positions [] traded.1.new_fills ≡ ok traded.0.source.positions
unfolding every_clause
chain_is_accepted = refl

validated_fill_positions-last_end_example :
    size_in (codes "BTC") traded.0.source.positions
    ≡ last_end (codes "BTC") traded.1.new_fills (size_in (codes "BTC") [])
validated_fill_positions-last_end_example =
    validated_fill_positions-last_end (codes "BTC") [] traded.1.new_fills traded.0.source.positions
      chain_is_accepted

validated_fill_positions-Continues_example :
    ((next : Positions) × (validated_fill_positions [] traded.1.new_fills ≡ ok next))
    ↔ Continues (λ m. size_in m []) traded.1.new_fills
validated_fill_positions-Continues_example =
    validated_fill_positions-Continues [] traded.1.new_fills

abbrev reconnected : Stream
reconnected = or_stream empty_stream (begin_connection (pos 8) traded.0)

reconnects : begin_connection (pos 8) traded.0 ≡ ok reconnected
unfolding every_clause
reconnects = refl

begin_connection-forgets_example :
    ((epoch : ℕ) (received_ms : ℤ)
      → epoch ≤ traded.0.connection_epoch
      → (validate_frame epoch received_ms reconnected ≡ err stale_epoch)
        × (note_connection_activity epoch received_ms reconnected ≡ err stale_epoch))
    × ((now_ms age : ℕ) → 0 < age → is_fresh now_ms (pos age) reconnected ≡ ok false)
begin_connection-forgets_example = begin_connection-forgets (pos 8) traded.0 reconnected reconnects

abbrev usdc_row : Json
usdc_row = object (
    field (codes "token") (word (codes "0")) (
      field (codes "coin") (word (codes "usdc"))
        (field (codes "total") (quanta (pos 9)) (field (codes "hold") (quanta (pos 2)) end))))

abbrev spot_frame : Json
spot_frame = object (
    field (codes "user") (word source_text) (
      field (codes "balances") (array (cons usdc_row nil))
        (field (codes "time") (word (codes "70")) end)))

abbrev or_channel : Result AccountStreamError (Stream × ChannelUpdate) → Stream × ChannelUpdate
or_channel (ok r) = r
or_channel (err e) = (
  empty_stream,
  record { account = []; role = of_source; connection_epoch = 0; initial_snapshot = true },
)

abbrev or_spot : Result AccountStreamError SpotFrame → SpotFrame
or_spot (ok f) = f
or_spot (err e) = record { account = []; role = of_source; outer = end; payload = end; usdc = end }

abbrev spot_read : SpotFrame
spot_read = or_spot (read_spot shown int_text spot_frame begun)

abbrev funded : Stream × ChannelUpdate
funded = or_channel (apply_spot shown int_text 9 spot_frame begun)

spot_is_read : read_spot shown int_text spot_frame begun ≡ ok spot_read
unfolding every_clause
spot_is_read = refl

spot_is_applied : apply_spot shown int_text 9 spot_frame begun ≡ ok funded
unfolding every_clause
spot_is_applied = refl

apply_spot-Funded_example : Funded spot_read.role begun funded.0
apply_spot-Funded_example =
    apply_spot-Funded shown int_text 9 spot_frame spot_read begun funded.0 funded.1 spot_is_read
      spot_is_applied

abbrev asset_position : String → ℤ → Json
asset_position coin size = object (
    field (codes "position")
      (object (field (codes "coin") (word (codes coin)) (field (codes "szi") (quanta size) end)))
      end)

abbrev clearinghouse : String → Json → Json
clearinghouse time item = object (
    field (codes "assetPositions") (array (cons item nil))
      (field (codes "time") (word (codes time)) end))

abbrev positions_frame : String → ℤ → Json
positions_frame time size = object (
    field (codes "user") (word source_text) (
      field (codes "clearinghouseStates")
        (object (
          field (codes "xyz") (clearinghouse time (asset_position "tsla" (pos 4)))
            (field [] (clearinghouse time (asset_position "BTC" size)) end)))
        end))

abbrev positioned : Stream × ChannelUpdate
positioned = or_channel (apply_positions 1 shown int_text 10 (positions_frame "55" (pos 1)) begun)

positions_are_applied :
    apply_positions 1 shown int_text 10 (positions_frame "55" (pos 1)) begun ≡ ok positioned
unfolding every_clause
positions_are_applied = refl

apply_positions-forward_example :
    (b : MutableAccount) × Replaced positioned.1.role b begun positioned.0
    × ((dex : Text)
        → known_at dex (account_for positioned.1.role begun).position_observed_ms_by_dex
          ≤ known_at dex b.position_observed_ms_by_dex)
    × (time_of positions b.component_received_ms ≡ some 10)
apply_positions-forward_example =
    apply_positions-forward shown int_text 1 10 (positions_frame "55" (pos 1)) begun positioned.0
      positioned.1 positions_are_applied
