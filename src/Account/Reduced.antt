-- ===== src/Account/Reduced.antt =====
-- What reducing a frame does to the memory of a stream.
use hyperliquid_copytrader.Base.{
  ℕ, ◌+◌, ◌*◌, ◌<◌, Bool, true, false, List, [], length, ◌≡◌, refl, inr, arith,
}
use hyperliquid_copytrader.Base.Text.{Text}
use hyperliquid_copytrader.Journal.Records.{ok, >>=-returns, ok_injective}
use hyperliquid_copytrader.Account.Records.{Identity, FillRecord, Fingerprint, Component}
use hyperliquid_copytrader.Account.Memory.{unique_records, new_records, remember}
use hyperliquid_copytrader.Account.Recency.{Holds, Holds-weaken}
use hyperliquid_copytrader.Account.Remembered.{Without, Holds-remember}
use hyperliquid_copytrader.Account.Seeded.{
  Has, remember-Holds, unique_records-Has, unique_records-shorter,
}
use hyperliquid_copytrader.Account.Stream.{Stream, MutableAccount, Role, of_source, of_follower}
use hyperliquid_copytrader.Account.Fills.{
  FillsUpdate, reported, reduce_fills, set_account, account_for, next_positions, with_positions,
  with_fills,
}

-- What reducing a frame did to the memory.
pub record Reduced (s : Stream) (records : List FillRecord) (t : Stream) : Type 0 where
  pub unique : List FillRecord
  pub new : List FillRecord
  pub made_unique : unique_records [] records ≡ ok unique
  pub made_new : new_records s.fill_fingerprints unique ≡ ok new
  pub memory : t.fill_fingerprints ≡ remember s.fill_dedupe_capacity new unique s.fill_fingerprints
  pub capacity : t.fill_dedupe_capacity ≡ s.fill_dedupe_capacity

set_account-memory :
    (role : Role) (a : MutableAccount) (s : Stream)
    → ((set_account role a s).fill_fingerprints ≡ s.fill_fingerprints)
      × ((set_account role a s).fill_dedupe_capacity ≡ s.fill_dedupe_capacity)
set_account-memory of_source a s = (refl, refl)
set_account-memory of_follower a s = (refl, refl)

pub reduce_fills-Reduced :
    (component : Component) (received_ms : ℕ) (account : Text) (role : Role) (is_snapshot : Bool)
    (records : List FillRecord) (s t : Stream) (update : FillsUpdate)
    → reduce_fills component received_ms account role is_snapshot records s ≡ ok (t, update)
    → (w : Reduced s records t) × (update.new_fills ≡ reported is_snapshot w.new)
unfolding reduce_fills
reduce_fills-Reduced component received_ms account role is_snapshot records s t update h =
    let state = account_for role s in
    let (unique, e₁, h₁) = >>=-returns (unique_records [] records) _ h in
    let (new, e₂, h₂) = >>=-returns (new_records s.fill_fingerprints unique) _ h₁ in
    let (next, e₃, h₃) = >>=-returns (next_positions is_snapshot state.positions new) _ h₂ in
    let (moved, e₄, h₄) =
      >>=-returns (with_positions is_snapshot received_ms next new state) _ h₃ in
    let both = ok_injective _ _ h₄ in
    let remembered = remember s.fill_dedupe_capacity new unique s.fill_fingerprints in
    let filled =
      with_fills s.fill_dedupe_capacity component received_ms is_snapshot records unique new
        moved in
    let (m, c) = set_account-memory role filled (record s { fill_fingerprints = remembered }) in
    let stream : set_account role filled (record s { fill_fingerprints = remembered }) ≡ t =
      λ i. (both i).0 in
    let reports : reported is_snapshot new ≡ update.new_fills = λ i. (both i).1.new_fills in
    (
      record {
        unique = unique;
        new = new;
        made_unique = e₁;
        made_new = e₂;
        memory = rw (← stream) m;
        capacity = rw (← stream) c;
      },
      rw (← reports) refl,
    )

pub reported-Without :
    (is_snapshot : Bool) (i : Identity) (new : List FillRecord)
    → Without i new
    → Without i (reported is_snapshot new)
reported-Without true i new w = tt
reported-Without false i new w = w

-- The memory holds `i` after a frame that has it.
pub Reduced-seeds :
    (i : Identity) (s t : Stream) (records : List FillRecord)
    → Reduced s records t
    → Has i records
    → length records < s.fill_dedupe_capacity
    → (f : Fingerprint) × Holds (length records) i f t.fill_fingerprints
Reduced-seeds i s t records w a room =
    let few = unique_records-shorter [] records w.unique w.made_unique in
    let there = unique_records-Has i [] records w.unique w.made_unique (inr a) in
    let (f, h) =
      remember-Holds i s.fill_dedupe_capacity w.new w.unique s.fill_fingerprints w.made_new there
        (omega arith) in
    (f, rw w.memory (Holds-weaken (length w.unique) (length records) i f _ (omega arith) h))

-- It holds `i` still after another frame.
pub Reduced-keeps :
    (k : ℕ) (i : Identity) (f : Fingerprint) (s t : Stream) (records : List FillRecord)
    → Reduced s records t
    → k + 2 * length records < s.fill_dedupe_capacity
    → Holds k i f s.fill_fingerprints
    → Holds (k + 2 * length records) i f t.fill_fingerprints
Reduced-keeps k i f s t records w room h =
    let few = unique_records-shorter [] records w.unique w.made_unique in
    let kept =
      Holds-remember k s.fill_dedupe_capacity i f w.new w.unique s.fill_fingerprints w.made_new
        (omega arith) h in
    rw w.memory
      (Holds-weaken (k + 2 * length w.unique) (k + 2 * length records) i f _ (omega arith) kept)
