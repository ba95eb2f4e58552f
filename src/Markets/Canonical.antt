-- ===== src/Markets/Canonical.antt =====
-- Canonical market names are read back as they were written.
use hyperliquid_copytrader.Base.{
  suc, ◌≡◌, refl, true, false, not, ◌||◌, [], ◌∷◌, ◌++◌, Option, none, some, leb, ◌==◌, arith, inl,
  inr, Bool-cases,
}
use hyperliquid_copytrader.Base.Text.{Text, text_eq, text_eq_iff, strip, spaceless, strip-spaceless}
use hyperliquid_copytrader.Journal.Records.{ok, require, >>=-returns, ok_injective}
use hyperliquid_copytrader.Markets.Identity.{
  MarketIdentity, market_identity, is_asset_component, is_dex_component, islower, canonical_asset,
  all_of, asset_next, dex_next, canonical_of, canonical, count_colons, before_colon, after_colon,
  parse_stripped, parse_market, canonical_market, dex_is_component, parse_default, parse_qualified,
  bad_asset, bad_dex, empty_dex, empty_asset, empty_market, many_colons, market_dex, qualified,
  qualify_market_symbol, dex_conflict,
}

-- A name that an identity may have.
pub record IsIdentity (m : MarketIdentity) : Type 0 where
  pub asset_component : is_asset_component m.asset ≡ true
  pub asset_case : islower m.asset ≡ false
  pub dex_component : dex_is_component m.dex ≡ ok tt

market_identity-IsIdentity :
    (asset : Text) (dex : Option Text) (m : MarketIdentity)
    → market_identity asset dex ≡ ok m
    → IsIdentity m × (m ≡ record { asset = asset; dex = dex })
unfolding market_identity
market_identity-IsIdentity asset dex m h = ground arith

no_colon_asset : (s : Text) → all_of asset_next s ≡ true → count_colons s ≡ 0
no_colon_asset [] h = refl
no_colon_asset (c ∷ s) h = ground (arith, no_colon_asset s)

asset_component-no_colon : (s : Text) → is_asset_component s ≡ true → count_colons s ≡ 0
unfolding is_asset_component
asset_component-no_colon [] h = refl
asset_component-no_colon (c ∷ s) h = ground (arith, no_colon_asset s)

asset_next-spaceless : (s : Text) → all_of asset_next s ≡ true → spaceless s ≡ true
asset_next-spaceless [] h = refl
asset_next-spaceless (c ∷ s) h = ground (arith, asset_next-spaceless s)

asset-spaceless : (s : Text) → is_asset_component s ≡ true → spaceless s ≡ true
unfolding is_asset_component
asset-spaceless [] h = refl
asset-spaceless (c ∷ s) h = ground (arith, asset_next-spaceless s)

dex_next-spaceless : (s : Text) → all_of dex_next s ≡ true → spaceless s ≡ true
dex_next-spaceless [] h = refl
dex_next-spaceless (c ∷ s) h = ground (arith, dex_next-spaceless s)

dex-spaceless : (s : Text) → is_dex_component s ≡ true → spaceless s ≡ true
unfolding is_dex_component
dex-spaceless [] h = refl
dex-spaceless (c ∷ s) h = ground (arith, dex_next-spaceless s)

no_colon_dex : (s : Text) → all_of dex_next s ≡ true → count_colons s ≡ 0
no_colon_dex [] h = refl
no_colon_dex (c ∷ s) h = ground (arith, no_colon_dex s)

dex_component-no_colon : (s : Text) → is_dex_component s ≡ true → count_colons s ≡ 0
unfolding is_dex_component
dex_component-no_colon [] h = refl
dex_component-no_colon (c ∷ s) h = ground (arith, no_colon_dex s)

-- A text put together at a colon is taken apart there.
joined_colons :
    (d s : Text)
    → count_colons d ≡ 0
    → (count_colons (d ++ (b':' ∷ s)) ≡ suc (count_colons s))
      × (before_colon (d ++ (b':' ∷ s)) ≡ d)
      × (after_colon (d ++ (b':' ∷ s)) ≡ s)
joined_colons [] s h = ground arith
joined_colons (c ∷ d) s h = ground (arith, joined_colons d s)

joined-spaceless :
    (d s : Text) → spaceless d ≡ true → spaceless s ≡ true → spaceless (d ++ (b':' ∷ s)) ≡ true
joined-spaceless [] s h k = ground arith
joined-spaceless (c ∷ d) s h k = ground (arith, joined-spaceless d s)

canonical_asset-cased : (s : Text) → islower s ≡ false → canonical_asset s ≡ s
unfolding canonical_asset
canonical_asset-cased s h = rw h refl

asset_component-nonempty : (s : Text) → is_asset_component s ≡ true → text_eq s [] ≡ false
unfolding is_asset_component text_eq
asset_component-nonempty [] h = cc
asset_component-nonempty (c ∷ s) h = refl

dex_component-nonempty : (s : Text) → is_dex_component s ≡ true → text_eq s [] ≡ false
unfolding is_dex_component text_eq
dex_component-nonempty [] h = cc
dex_component-nonempty (c ∷ s) h = refl

joined-nonempty : (d s : Text) → text_eq (d ++ (b':' ∷ s)) [] ≡ false
unfolding text_eq
joined-nonempty [] s = refl
joined-nonempty (c ∷ d) s = refl

dex_is_component-true :
    (dex : Text) → dex_is_component (some dex) ≡ ok tt → is_dex_component dex ≡ true
dex_is_component-true dex h = ground arith

parse_asset :
    (asset : Text)
    → is_asset_component asset ≡ true
    → islower asset ≡ false
    → parse_stripped asset ≡ ok (record { asset = asset; dex = none })
unfolding parse_stripped market_identity
parse_asset asset a c =
    rw
      (
        asset_component-nonempty asset a,
        asset_component-no_colon asset a,
        a,
        canonical_asset-cased asset c,
        a,
        c,
      )
      refl

parse_joined :
    (dex asset : Text)
    → is_asset_component asset ≡ true
    → islower asset ≡ false
    → is_dex_component dex ≡ true
    → parse_stripped (dex ++ (b':' ∷ asset)) ≡ ok (record { asset = asset; dex = some dex })
unfolding parse_stripped market_identity
parse_joined dex asset a c d =
    let (colons, before, after) = joined_colons dex asset (dex_component-no_colon dex d) in
    rw
      (
        joined-nonempty dex asset,
        colons,
        asset_component-no_colon asset a,
        before,
        after,
        dex_component-nonempty dex d,
        asset_component-nonempty asset a,
        d,
        a,
        canonical_asset-cased asset c,
        a,
        c,
      )
      refl

parsed :
    (asset : Text) (dex : Option Text)
    → is_asset_component asset ≡ true
    → islower asset ≡ false
    → dex_is_component dex ≡ ok tt
    → parse_stripped (strip (canonical_of asset dex)) ≡ ok (record { asset = asset; dex = dex })
parsed asset none a c d =
    rw (strip-spaceless asset (asset-spaceless asset a)) (parse_asset asset a c)
parsed asset (some dex) a c d =
    let component = dex_is_component-true dex d in
    let clean =
      joined-spaceless dex asset (dex-spaceless dex component) (asset-spaceless asset a) in
    rw (strip-spaceless (dex ++ (b':' ∷ asset)) clean) (parse_joined dex asset a c component)

-- An identity is what its canonical name is parsed as.
pub canonical-parses : (m : MarketIdentity) → IsIdentity m → parse_market (canonical m) ≡ ok m
unfolding parse_market
canonical-parses m v = parsed m.asset m.dex v.asset_component v.asset_case v.dex_component

parse_default-IsIdentity :
    (raw : Text) (m : MarketIdentity) → parse_default raw ≡ ok m → IsIdentity m
parse_default-IsIdentity raw m h =
    let (_, _, h₁) = >>=-returns (require (is_asset_component raw) bad_asset) _ h in
    (market_identity-IsIdentity (canonical_asset raw) none m h₁).0

parse_qualified-IsIdentity :
    (dex asset : Text) (m : MarketIdentity) → parse_qualified dex asset ≡ ok m → IsIdentity m
parse_qualified-IsIdentity dex asset m h =
    let (_, _, h₁) = >>=-returns (require (not (text_eq dex [])) empty_dex) _ h in
    let (_, _, h₂) = >>=-returns (require (not (text_eq asset [])) empty_asset) _ h₁ in
    let (_, _, h₃) = >>=-returns (require (is_dex_component dex) bad_dex) _ h₂ in
    let (_, _, h₄) = >>=-returns (require (is_asset_component asset) bad_asset) _ h₃ in
    (market_identity-IsIdentity (canonical_asset asset) (some dex) m h₄).0

pub parse_market-IsIdentity :
    (value : Text) (m : MarketIdentity) → parse_market value ≡ ok m → IsIdentity m
unfolding parse_market parse_stripped
parse_market-IsIdentity value m h =
    let raw = strip value in
    let (_, _, h₁) = >>=-returns (require (not (text_eq raw [])) empty_market) _ h in
    let (_, _, h₂) = >>=-returns (require (leb (count_colons raw) 1) many_colons) _ h₁ in
    elim (Bool-cases (count_colons raw == 0)) [
      | inl plain ↦ parse_default-IsIdentity raw m (rw plain at h₂)
      | inr split ↦
          parse_qualified-IsIdentity (before_colon raw) (after_colon raw) m (rw split at h₂)
    ]

-- Whatever text a market is read from, its canonical name is read back as the same market and is its own
-- canonical name.
pub canonical_market-again :
    (value : Text) (m : MarketIdentity)
    → parse_market value ≡ ok m
    → (parse_market (canonical m) ≡ ok m) × (canonical_market (canonical m) ≡ ok (canonical m))
unfolding canonical_market
canonical_market-again value m h =
    let again = canonical-parses m (parse_market-IsIdentity value m h) in (again, rw again refl)

market_dex-canonical :
    (m : MarketIdentity) (dex : Text)
    → IsIdentity m
    → m.dex ≡ some dex
    → market_dex (canonical m) ≡ ok dex
unfolding market_dex
market_dex-canonical m dex v e = rw (canonical-parses m v) (ground arith)

qualified-market_dex :
    (d : Text) (m : MarketIdentity) (dex : Option Text) (q : Text)
    → IsIdentity m
    → m.dex ≡ dex
    → text_eq d [] ≡ false
    → qualified d m.asset dex ≡ ok q
    → market_dex q ≡ ok d
qualified-market_dex d m (some own) q v e n h =
    let (_, same, h₁) = >>=-returns (require (text_eq d [] || text_eq own d) dex_conflict) _ h in
    let own_is : own ≡ d = (text_eq_iff own d).0 (ground arith) in
    let named : canonical m ≡ q = rw e (ok_injective _ q h₁) in
    rw (← named) (market_dex-canonical m d v (rw (← own_is) e))
qualified-market_dex d m none q v e n h =
    let (i, made, h₁) = >>=-returns (market_identity m.asset (some d)) _ (rw n at h) in
    let (w, same) = market_identity-IsIdentity m.asset (some d) i made in
    rw (← ok_injective _ q h₁) (market_dex-canonical i d w (rw same refl))

-- A coin that is qualified by a DEX whose name is not blank belongs to that DEX, whether the
-- response named it with a prefix or without.
pub qualify_market_symbol-market_dex :
    (dex coin q : Text)
    → text_eq (strip dex) [] ≡ false
    → qualify_market_symbol dex coin ≡ ok q
    → market_dex q ≡ ok (strip dex)
unfolding qualify_market_symbol
qualify_market_symbol-market_dex dex coin q n h =
    let d = strip dex in
    let (_, _, h₁) = >>=-returns (require (text_eq d [] || is_dex_component d) bad_dex) _ h in
    let (m, e, h₂) = >>=-returns (parse_market coin) _ h₁ in
    qualified-market_dex d m m.dex q (parse_market-IsIdentity coin m e) refl n h₂
