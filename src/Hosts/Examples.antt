-- ===== src/Hosts/Examples.antt =====
-- The theorems on the table of hosts at a table of one file.
use border_dns.Prelude.{ℕ, ◌≡◌, Option, none, some, List, [], ◌∷◌, ◌++◌, All, AnyOf}
use border_dns.Text.{Text, to_lowercase, strip_last}
use border_dns.Types.Codes.{exact, a}
use border_dns.Geo.{IpAddr, v4}
use border_dns.Hosts.{HostsTable, match_domain, reload_all_files}
use border_dns.Hosts.Match.{HasEntry, IsAsked, match_domain-entries}
use border_dns.Hosts.Reload.{files_entries, match_domain-reload_all_files}

abbrev address : IpAddr
address = v4 (10 ∷ 0 ∷ 0 ∷ 1 ∷ [])

abbrev parse_ip : Text → Option IpAddr
parse_ip text = some address

abbrev modified : Text → Option ℕ
modified path = some 3

-- One line, `1 x`.
abbrev read_lines : Text → Option (List Text)
read_lines path = some ((b'1' ∷ 32 ∷ b'x' ∷ []) ∷ [])

abbrev table : HostsTable
table = record {
  entries = record { domain = b'x' ∷ []; ip = address } ∷ [];
  file_paths = (b'h' ∷ []) ∷ [];
  file_mtimes = none ∷ [];
}

-- `X.`
abbrev domain : Text
domain = b'X' ∷ b'.' ∷ []

match_domain-entries_example :
    All
      (λ ip.
        HasEntry (to_lowercase (strip_last b'.' domain)) table.entries ip × IsAsked (exact a) ip)
      (match_domain domain (exact a) table)
    × ((ip : IpAddr)
        → HasEntry (to_lowercase (strip_last b'.' domain)) table.entries ip
        → IsAsked (exact a) ip
        → AnyOf (λ found. found ≡ ip) (match_domain domain (exact a) table))
match_domain-entries_example = match_domain-entries domain (exact a) table

match_domain-reload_all_files_example :
    match_domain domain (exact a) (reload_all_files parse_ip modified read_lines table)
    ≡ match_domain domain (exact a) table
      ++ match_domain domain
          (exact a)
          (record table { entries = files_entries parse_ip modified read_lines table.file_paths })
match_domain-reload_all_files_example =
    match_domain-reload_all_files parse_ip modified read_lines domain (exact a) table
