-- ===== src/Protocol/Rr/Examples.antt =====
-- The data of an address record.
use border_dns.Prelude.{ℕ, ◌+◌, ◌≤◌, ◌≡◌, refl, List, [], ◌∷◌, arith}
use border_dns.Types.Error.{ok}
use border_dns.Types.Codes.{a}
use border_dns.Protocol.Wire.{new, read_bytes}
use border_dns.Protocol.Wire.Laws.{advance}
use border_dns.Protocol.Wire.Bounds.{InBounds}
use border_dns.Protocol.Rr.{a_data, read_rdata, read_body, skip_rest}
use border_dns.Protocol.Rr.Sound.{Sound}
use border_dns.Protocol.Rr.Extent.{read_rdata-extent}

abbrev octets : List ℕ
octets = 192 ∷ 0 ∷ 2 ∷ 1 ∷ 7 ∷ []

address_read :
    read_rdata a 4 octets (new octets) ≡ ok (a_data (192 ∷ 0 ∷ 2 ∷ 1 ∷ []), advance 4 (new octets))
unfolding read_rdata read_body skip_rest read_bytes new
address_read = refl

read_rdata-extent_example :
    ((new octets).pos + 4 ≤ (advance 4 (new octets)).pos)
    × InBounds (advance 4 (new octets))
    × ((advance 4 (new octets)).buf ≡ (new octets).buf)
    × Sound (a_data (192 ∷ 0 ∷ 2 ∷ 1 ∷ []))
unfolding new
read_rdata-extent_example =
    read_rdata-extent octets a 4 (new octets) (advance 4 (new octets))
      (a_data (192 ∷ 0 ∷ 2 ∷ 1 ∷ [])) (omega arith) address_read
