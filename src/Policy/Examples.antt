-- ===== src/Policy/Examples.antt =====
-- The theorems on the route policy at an answer of two addresses, one abroad and one in China.
use border_dns.Prelude.{ℕ, ◌+◌, ◌≡◌, List, [], ◌∷◌}
use border_dns.Types.Codes.{a, inet}
use border_dns.Protocol.Rr.{ResourceRecord, a_data}
use border_dns.Geo.{lookup}
use border_dns.Policy.{analyze_answer_geo}
use border_dns.Policy.Answers.{
  addresses, in_cn_count, in_foreign_count, in_private_count, one, analyze_answer_geo-addresses,
}

abbrev record_of : List ℕ → ResourceRecord
record_of octets = record {
  name = record { buf = b'a' ∷ []; ends = 1 ∷ [] };
  rr_type = a;
  class = inet;
  ttl = 60;
  rdata = a_data octets;
}

abbrev answers : List ResourceRecord
answers = record_of (8 ∷ 8 ∷ 8 ∷ 8 ∷ []) ∷ record_of (114 ∷ 114 ∷ 114 ∷ 114 ∷ []) ∷ []

analyze_answer_geo-addresses_example :
    ((analyze_answer_geo lookup answers).cn_count ≡ addresses in_cn_count answers)
    × ((analyze_answer_geo lookup answers).foreign_count ≡ addresses in_foreign_count answers)
    × ((analyze_answer_geo lookup answers).private_count ≡ addresses in_private_count answers)
    × ((analyze_answer_geo lookup answers).total ≡ addresses one answers)
    × (addresses in_cn_count answers
          + addresses in_foreign_count answers
          + addresses in_private_count answers
        ≡ addresses one answers)
analyze_answer_geo-addresses_example = analyze_answer_geo-addresses answers
