-- ===== src/Account/Effects.antt =====
-- What an accepted fill frame does to the accounts.
use hyperliquid_copytrader.Base.{
  ℕ, ◌≤◌, Bool, true, false, not, List, [], ◌∷◌, ◌++◌, Option, some, Bool-cases, length, ◌≡◌, refl,
  subst, inl, inr, arith, ◌&&◌,
}
use hyperliquid_copytrader.Base.Int.{ℤ}
use hyperliquid_copytrader.Base.Text.{Text}
use hyperliquid_copytrader.Journal.Records.{ok, >>=-returns, ok_injective}
use hyperliquid_copytrader.Wire.Json.{Json}
use hyperliquid_copytrader.Account.Records.{
  FillRecord, Component, positions, collateral, perp_equity, open_orders, fills, twap_fills, Times,
  time_of, set_time,
}
use hyperliquid_copytrader.Account.Memory.{Entry, unique_records, new_records, remember}
use hyperliquid_copytrader.Account.Chain.{Positions, size_in, last_end}
use hyperliquid_copytrader.Account.Continuity.{validated_fill_positions-last_end}
use hyperliquid_copytrader.Account.Recency.{trim-bounded}
use hyperliquid_copytrader.Account.Stream.{Stream, MutableAccount, Role, of_source, of_follower}
use hyperliquid_copytrader.Account.Fills.{
  FillsUpdate, FillsFrame, reported, reduce_fills, read_fills, apply_fills, account_for,
  set_account, next_positions, with_positions, with_fills, last_fills, kept_fills,
  any_fill_baseline, observe_dexes,
}

abbrev pub other_role : Role → Role
other_role of_source = of_follower
other_role of_follower = of_source

abbrev has_some : List FillRecord → Bool
has_some [] = false
has_some (r ∷ rs) = true

-- What holds between a stream and the stream after an accepted frame.
pub record Effect (role : Role) (at : ℕ) (s : Stream) (new_fills : List FillRecord) (t : Stream)
    : Type 0 where
  pub sizes :
      (m : Text)
      → size_in m (account_for role t).positions
        ≡ last_end m new_fills (size_in m (account_for role s).positions)
  pub marked :
      has_some new_fills ≡ true
      → time_of positions (account_for role t).component_received_ms ≡ some at
  pub few_fills : length (account_for role t).fills ≤ s.fill_dedupe_capacity
  pub few_remembered : length t.fill_fingerprints ≤ s.fill_dedupe_capacity
  pub other : account_for (other_role role) t ≡ account_for (other_role role) s

last_fills-bounded : (n : ℕ) (rs : List FillRecord) → length (last_fills n rs) ≤ n
last_fills-bounded n [] = omega arith
last_fills-bounded n (r ∷ rs) = ground (arith, last_fills-bounded n rs)

kept_fills-bounded :
    (n : ℕ) (is_snapshot : Bool) (a : MutableAccount) (unique new : List FillRecord)
    → length (kept_fills n is_snapshot a unique new) ≤ n
kept_fills-bounded n is_snapshot a unique new =
    elim (Bool-cases (is_snapshot && not (any_fill_baseline a.component_received_ms))) [
      | inl e ↦ rw e (last_fills-bounded n unique)
      | inr e ↦ rw e (last_fills-bounded n (a.fills ++ new))
    ]

set_time-positions :
    (c : Component) (at : ℕ) (t : Times)
    → time_of positions t ≡ some at
    → time_of positions (set_time c (some at) t) ≡ some at
set_time-positions positions at t h = refl
set_time-positions collateral at t h = h
set_time-positions perp_equity at t h = h
set_time-positions open_orders at t h = h
set_time-positions fills at t h = h
set_time-positions twap_fills at t h = h

-- The positions of the account, before the fills are put into its history.
moved_positions :
    (is_snapshot : Bool) (at : ℕ) (a moved : MutableAccount) (next : Positions)
    (new : List FillRecord)
    → next_positions is_snapshot a.positions new ≡ ok next
    → with_positions is_snapshot at next new a ≡ ok moved
    → ((m : Text)
        → size_in m moved.positions ≡ last_end m (reported is_snapshot new) (size_in m a.positions))
      × (has_some (reported is_snapshot new) ≡ true
          → time_of positions moved.component_received_ms ≡ some at)
moved_positions true at a moved next new e h =
    let same : a ≡ moved = ok_injective a moved h in
    ((λ m. rw (← same) refl), λ some_new. absurd (cc))
moved_positions false at a moved next [] e h =
    let same = ok_injective _ moved h in
    (
      (λ m. rw (← same) (validated_fill_positions-last_end m a.positions [] next e)),
      λ some_new. absurd (cc),
    )
moved_positions false at a moved next (r ∷ rs) e h =
    let (seen, _, h₁) = >>=-returns (observe_dexes (r ∷ rs) a.position_observed_ms_by_dex) _ h in
    let same = ok_injective _ moved h₁ in
    (
      (λ m. rw (← same) (validated_fill_positions-last_end m a.positions (r ∷ rs) next e)),
      λ some_new. rw (← same) refl,
    )

replaced-Effect :
    (role : Role) (at : ℕ) (is_snapshot : Bool) (new : List FillRecord)
    (moved filled : MutableAccount) (s : Stream) (remembered : List Entry)
    → filled.positions ≡ moved.positions
    → length filled.fills ≤ s.fill_dedupe_capacity
    → length remembered ≤ s.fill_dedupe_capacity
    → ((m : Text)
        → size_in m moved.positions
          ≡ last_end m (reported is_snapshot new) (size_in m (account_for role s).positions))
      × (has_some (reported is_snapshot new) ≡ true
          → time_of positions moved.component_received_ms ≡ some at)
    → (time_of positions moved.component_received_ms ≡ some at
        → time_of positions filled.component_received_ms ≡ some at)
    → Effect role at s
        (reported is_snapshot new)
        (set_account role filled (record s { fill_fingerprints = remembered }))
replaced-Effect of_source at is_snapshot new moved filled s remembered p few mem (sizes, marked)
      later =
    record {
      sizes = λ m. rw p (sizes m);
      marked = λ some_new. later (marked some_new);
      few_fills = few;
      few_remembered = mem;
      other = refl;
    }
replaced-Effect of_follower at is_snapshot new moved filled s remembered p few mem (sizes, marked)
      later =
    record {
      sizes = λ m. rw p (sizes m);
      marked = λ some_new. later (marked some_new);
      few_fills = few;
      few_remembered = mem;
      other = refl;
    }

reduce_fills-Effect :
    (component : Component) (at : ℕ) (account : Text) (role : Role) (is_snapshot : Bool)
    (records : List FillRecord) (s t : Stream) (update : FillsUpdate)
    → reduce_fills component at account role is_snapshot records s ≡ ok (t, update)
    → Effect role at s update.new_fills t
unfolding reduce_fills remember
reduce_fills-Effect component at account role is_snapshot records s t update h =
    let state = account_for role s in
    let (unique, e₁, h₁) = >>=-returns (unique_records [] records) _ h in
    let (new, e₂, h₂) = >>=-returns (new_records s.fill_fingerprints unique) _ h₁ in
    let (next, e₃, h₃) = >>=-returns (next_positions is_snapshot state.positions new) _ h₂ in
    let (moved, e₄, h₄) = >>=-returns (with_positions is_snapshot at next new state) _ h₃ in
    let both = ok_injective _ _ h₄ in
    let remembered = remember s.fill_dedupe_capacity new unique s.fill_fingerprints in
    let filled =
      with_fills s.fill_dedupe_capacity component at is_snapshot records unique new moved in
    let effect =
      replaced-Effect role at is_snapshot new moved filled s remembered refl
        (kept_fills-bounded s.fill_dedupe_capacity is_snapshot moved unique new)
        (trim-bounded s.fill_dedupe_capacity _)
        (moved_positions is_snapshot at state moved next new e₃ e₄)
        (set_time-positions component at moved.component_received_ms) in
    subst (λ fs. Effect role at s fs t) (λ i. (both i).1.new_fills)
      (subst (λ u. Effect role at s (reported is_snapshot new) u) (λ i. (both i).0) effect)

module _ (shown : Json → Text) (int_text : Text → Option ℤ) where
  -- After an accepted fill frame the sizes of its account are those that the reported fills end at, a reported
  -- fill has marked the positions as received, the account's fills and the memory are within the
  -- capacity, and the other account is as before.
  pub apply_fills-Effect :
      (component : Component) (at : ℕ) (payload : Json) (frame : FillsFrame) (s t : Stream)
      (update : FillsUpdate)
      → read_fills shown int_text component at payload s ≡ ok frame
      → apply_fills shown int_text component at payload s ≡ ok (t, update)
      → Effect frame.role at s update.new_fills t
  unfolding apply_fills
  apply_fills-Effect component at payload frame s t update read h =
      reduce_fills-Effect component at frame.account frame.role frame.is_snapshot frame.records s t
        update (rw read at h)
