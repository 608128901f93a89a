-- ===== src/Verification/Library.antt =====
-- The pattern library of verification_contract.py: the append-only record of missed sub-claims.
pub mod Dedupe
use Prim.Native.String.{◌++◌ as str_append}
use youk.Prelude.{
  String, Bool, true, false, ◌&&◌, Option, none, some, List, [], ◌∷◌, ◌++◌, map, ◌==◌,
  if◌then◌else◌, any,
}
use youk.Verification.Stage.{Claim, SubClaim}
use youk.Verification.SubClaims.{is_verified}

pub record Row : Type 0 where
  pub claim_shape : String
  pub missed_sub_claim : String
  pub how_found : String
  pub date : String

-- The lines of the file that are not blank; `none` is one that is no JSON.
abbrev pub Lines : Type 0
Lines = List (Option Row)

abbrev pub Key : Type 0
Key = String × String

abbrev pub key_eq : Key → Key → Bool
key_eq k j = k.0 == j.0 && k.1 == j.1

abbrev pub row_key : Row → Key
row_key r = (r.claim_shape, r.missed_sub_claim)

-- The set `existing` that the function reads from the file.
unfoldable pub keys_of : Lines → List Key
keys_of [] = []
keys_of (none ∷ lines) = keys_of lines
keys_of (some r ∷ lines) = row_key r ∷ keys_of lines

unfoldable pub has_key : Key → List Key → Bool
unfolding any
has_key k ks = any (key_eq k) ks

abbrev pub claim_shape : Claim → String
claim_shape c = str_append c.dimension (str_append "-dimension: " c.statement)

-- The loop over the sub-claims; `today` is date.today().isoformat().
module _ (how_found today shape : String) where
  abbrev pub entry_for : SubClaim → Row
  entry_for sc = record {
    claim_shape = shape;
    missed_sub_claim = sc.id;
    how_found = how_found;
    date = today;
  }

  unfoldable pub new_entries : List Key → List SubClaim → List Row
  unfolding has_key
  new_entries existing [] = []
  new_entries existing (sc ∷ rest) =
      let skipped = new_entries existing rest in
      let recorded = entry_for sc ∷ new_entries ((shape, sc.id) ∷ existing) rest in
      if is_verified sc
      then skipped
      else if has_key (shape, sc.id) existing
      then skipped
      else recorded

-- The entries appended by the call, and the file afterwards.
unfoldable pub append_pattern_library_entries : String → String → Claim → Lines → List Row × Lines
unfolding new_entries keys_of
append_pattern_library_entries how_found today c lines =
    let new = new_entries how_found today (claim_shape c) (keys_of lines) c.sub_claims in
    (new, lines ++ map some new)
