-- ===== src/Journal/Keys.antt =====
-- The constraints of the tables, stated without the tests that the journal makes.
use hyperliquid_copytrader.Base.{
  ℕ, ◌≤◌, ◌≡◌, ◌≢◌, false, List, [], ◌∷◌, Option, some, arith, All, All-map_imp, inl, inr,
  Option-cases,
}
use hyperliquid_copytrader.Base.Text.{text_eq_iff}
use hyperliquid_copytrader.Journal.Records.{ActionRecord}
use hyperliquid_copytrader.Journal.Rows.{RowIsValid}
use hyperliquid_copytrader.Journal.Table.{Distinct}
use hyperliquid_copytrader.Journal.Store.{Journal, empty_journal, nonce_of, collides, any_collides}
use hyperliquid_copytrader.Journal.Calls.{Call, run}
use hyperliquid_copytrader.Journal.Invariant.{Reserved}
use hyperliquid_copytrader.Journal.History.{run-JournalIsValid}

abbrev SameLane : ActionRecord → ActionRecord → Type 0
SameLane r s = (s.follower_account ≡ r.follower_account) × (s.api_wallet ≡ r.api_wallet)

-- Two rows differ in their CLOID; in one lane they differ in their nonce, and at one target of it
-- in their attempt.
pub record Separate (r s : ActionRecord) : Type 0 where
  pub names : s.cloid ≢ r.cloid
  pub nonces : SameLane r s → s.nonce ≢ r.nonce
  pub attempts :
      SameLane r s → s.desired_id ≡ r.desired_id → s.market ≡ r.market → s.attempt_no ≢ r.attempt_no

abbrev pub AllSeparate : List ActionRecord → Type 0
AllSeparate [] = Unit
AllSeparate (r ∷ rs) = All (Separate r) rs × AllSeparate rs

pub record TablesAreValid (j : Journal) : Type 0 where
  pub rows_valid : All RowIsValid j.actions
  pub separate : AllSeparate j.actions
  pub reserved :
      All
        (λ r.
          (last : ℕ) × (nonce_of r.follower_account r.api_wallet j.signer_nonce ≡ some last)
          × (r.nonce ≤ last))
        j.actions

collides-Separate : (r s : ActionRecord) → collides r s ≡ false → Separate r s
collides-Separate r s h = ground (
  arith,
  text_eq_iff s.cloid r.cloid,
  text_eq_iff s.follower_account r.follower_account,
  text_eq_iff s.api_wallet r.api_wallet,
  text_eq_iff s.desired_id r.desired_id,
  text_eq_iff s.market r.market,
)

any_collides-Separate :
    (r : ActionRecord) (rs : List ActionRecord) → any_collides r rs ≡ false → All (Separate r) rs
unfolding any_collides
any_collides-Separate r [] h = tt
any_collides-Separate r (s ∷ rs) h =
    (collides-Separate r s (ground arith), any_collides-Separate r rs (ground arith))

Distinct-AllSeparate : (rs : List ActionRecord) → Distinct rs → AllSeparate rs
Distinct-AllSeparate [] d = tt
Distinct-AllSeparate (r ∷ rs) d = (any_collides-Separate r rs d.0, Distinct-AllSeparate rs d.1)

Reserved-last : (n : ℕ) (o : Option ℕ) → Reserved n o → (last : ℕ) × (o ≡ some last) × (n ≤ last)
Reserved-last n o h = elim (Option-cases o) [
  | inl e ↦ absurd (rw e at h)
  | inr (last, e) ↦ (last, e, rw e at h)
]

-- After any history from an empty journal every row is well formed (a positive size and nonce, a
-- fill that fits the state, a send time exactly behind the send boundary, an end time exactly in a
-- terminal state); no two rows share a CLOID, no two of a lane a nonce, no two at one target of a
-- lane an attempt; and every nonce is at most the last one that its lane reserved.
pub run-TablesAreValid : (cs : List (ℕ × Call)) → TablesAreValid (run cs empty_journal)
run-TablesAreValid cs =
    let v = run-JournalIsValid cs in
    record {
      rows_valid = v.rows_valid;
      separate = Distinct-AllSeparate (run cs empty_journal).actions v.distinct;
      reserved =
          All-map_imp (λ r h. Reserved-last r.nonce _ h) (run cs empty_journal).actions v.reserved;
    }
