-- ===== src/Base64/Tests.antt =====
-- Base 64 at concrete inputs.
use beryldb.Prelude.{◌≡◌, refl, none, codes, arith}
use beryldb.Nodes.{index_of}
use beryldb.Base64.{base_64_table, bin_to_base64, base_64_to_bin}
use beryldb.Base64.Laws.{base_64_to_bin-bin_to_base64}

pad-no_digit : index_of b'=' base_64_table ≡ none
unfolding index_of base_64_table
pad-no_digit = refl

base_64_to_bin-bin_to_base64_example :
    base_64_to_bin base_64_table (bin_to_base64 base_64_table (codes "beryl") b'=') ≡ codes "beryl"
base_64_to_bin-bin_to_base64_example =
    base_64_to_bin-bin_to_base64 b'=' pad-no_digit (codes "beryl") (omega arith)

beryl : bin_to_base64 base_64_table (codes "beryl") b'=' ≡ codes "YmVyeWw="
unfolding bin_to_base64 base_64_table
beryl = refl
