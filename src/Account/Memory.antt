-- ===== src/Account/Memory.antt =====
-- `_fill_fingerprints` (account_stream.py), the fills that the stream remembers, the oldest first.
use hyperliquid_copytrader.Base.{
  ℕ, suc, List, [], ◌∷◌, ◌++◌, Option, none, some, leb, if◌then◌else◌, length,
}
use hyperliquid_copytrader.Journal.Records.{Result, ok, err, ◌>>=◌}
use hyperliquid_copytrader.Account.Records.{
  AccountStreamError, Identity, FillRecord, Fingerprint, identity, identity_eq, fill_fingerprint,
  fingerprint_eq, conflicting_duplicate, identity_changed,
}

abbrev pub Entry : Type 0
Entry = Identity × Fingerprint

unfoldable pub recall : Identity → List Entry → Option Fingerprint
recall i [] = none
recall i ((k, f) ∷ es) = if identity_eq k i then some f else recall i es

unfoldable pub forget : Identity → List Entry → List Entry
forget i [] = []
forget i ((k, f) ∷ es) = let rest = forget i es in if identity_eq k i then rest else (k, f) ∷ rest

-- `move_to_end` of an identity that may be absent.
abbrev pub moved : Identity → Option Fingerprint → List Entry → List Entry
moved i none es = es
moved i (some f) es = forget i es ++ ((i, f) ∷ [])

unfoldable pub move_to_end : Identity → List Entry → List Entry
move_to_end i es = moved i (recall i es) es

-- The fingerprint of a new record goes to the end.
unfoldable pub learn : List FillRecord → List Entry → List Entry
learn [] es = es
learn (r ∷ rs) es = learn rs (forget (identity r) es ++ ((identity r, fill_fingerprint r) ∷ []))

unfoldable pub touch_all : List FillRecord → List Entry → List Entry
touch_all [] es = es
touch_all (r ∷ rs) es = touch_all rs (move_to_end (identity r) es)

-- `while len > capacity: popitem(last=False)`
unfoldable pub trim : ℕ → List Entry → List Entry
trim capacity [] = []
trim capacity (e ∷ es) =
    let rest = trim capacity es in if leb (suc (length es)) capacity then e ∷ es else rest

-- The memory after a frame, with its new records and all of its records.
unfoldable pub remember : ℕ → List FillRecord → List FillRecord → List Entry → List Entry
remember capacity new unique es = trim capacity (touch_all unique (learn new es))

unfoldable pub find_identity : Identity → List FillRecord → Option FillRecord
find_identity i [] = none
find_identity i (r ∷ rs) = if identity_eq (identity r) i then some r else find_identity i rs

-- `setdefault` of a record; a second record of an identity must be the same fill.
abbrev pub admitted :
    List FillRecord → FillRecord → Option FillRecord → Result AccountStreamError (List FillRecord)
admitted seen r none = ok (seen ++ (r ∷ []))
admitted seen r (some prior) =
    if fingerprint_eq (fill_fingerprint prior) (fill_fingerprint r)
    then ok seen
    else err conflicting_duplicate

-- `payload_unique`: the first record of each identity.
unfoldable pub unique_records :
    List FillRecord → List FillRecord → Result AccountStreamError (List FillRecord)
unique_records seen [] = ok seen
unique_records seen (r ∷ rs) = do
  next ← admitted seen r (find_identity (identity r) seen)
  unique_records next rs

abbrev pub kept :
    FillRecord → Option Fingerprint → List FillRecord → Result AccountStreamError (List FillRecord)
kept r none rest = ok (r ∷ rest)
kept r (some prior) rest =
    if fingerprint_eq prior (fill_fingerprint r) then ok rest else err identity_changed

-- The records that the memory does not know.
unfoldable pub new_records :
    List Entry → List FillRecord → Result AccountStreamError (List FillRecord)
new_records es [] = ok []
new_records es (r ∷ rs) = do rest ← new_records es rs; kept r (recall (identity r) es) rest
