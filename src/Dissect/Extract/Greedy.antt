-- ===== src/Dissect/Extract/Greedy.antt =====
-- The loop over the padding of a greedy key.
use elastic_agent_libs.Prelude.{ℕ, zero, suc, ◌+◌, Bytes, Bool, err, ◌≡◌, refl, arith}
use elastic_agent_libs.Dissect.Delimiter.{zero_byte, hangs, index_of}
use elastic_agent_libs.Dissect.Extract.{skip_padding}

-- In front of a delimiter of no bytes the loop over the padding does not end within any number of
-- rounds.
pub skip_padding-zero_byte :
    (fuel : ℕ) (greedy : Bool) (s : Bytes) (offset : ℕ)
    → skip_padding fuel (zero_byte greedy) s offset ≡ err hangs
unfolding skip_padding index_of
skip_padding-zero_byte zero greedy s offset = refl
skip_padding-zero_byte (suc fuel) greedy s offset =
    ground (arith, skip_padding-zero_byte fuel greedy s (offset + 1))
